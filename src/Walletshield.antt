-- ===== src/Walletshield.antt =====
-- walletshield/main.go: HTTP and KPS requests carried to the mixnet's HTTP proxy service through a
-- thin client.
pub mod Thin
pub mod Handler
pub mod Events
pub mod Kps
pub mod Boot
pub mod Start
pub mod Tasks
pub mod Probes
mod Examples
