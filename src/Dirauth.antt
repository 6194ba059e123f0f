-- ===== src/Dirauth.antt =====
-- The directory authority, dirauth: authority/voting/server/state.go of katzenpost/.
pub mod Pki
pub mod Uploads
pub mod Authorization
pub mod Tally
pub mod Phases
pub mod Descriptors
pub mod Posts
pub mod Server
pub mod Restore
pub mod Topology
pub mod Envelope
pub mod Layers
pub mod Authority
pub mod Voting
pub mod Consensus
pub mod Turn
pub mod Startup
pub mod Peers
pub mod Prune
pub mod Commit
mod Examples
pub mod Random
