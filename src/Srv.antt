-- ===== src/Srv.antt =====
-- vtok_srv: the RPC server that edits the device config.
pub mod Kms
pub mod Slots
pub mod Uri
pub mod Worker
pub mod Edit
pub mod Server
pub mod Registry
mod Examples
