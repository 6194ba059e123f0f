-- ===== src/KpsMonitor.antt =====
-- kps-monitor/main.go: it keeps a KPS connection through the mixnet, probes it, and serves the
-- probes' statistics and a JSON-RPC endpoint.
pub mod Http
pub mod Rpc
pub mod Stats
pub mod Loop
mod Examples
