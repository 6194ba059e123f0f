-- ===== src/KpsSendtx.antt =====
-- kps-sendtx/main.go: a command that signs an Ethereum transaction and sends it through the mixnet.
pub mod Rlp
pub mod Tx
pub mod Hex
pub mod Rpc
pub mod Run
mod Examples
