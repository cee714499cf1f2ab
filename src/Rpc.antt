-- ===== src/Rpc.antt =====
-- vtok_rpc: the requests and responses of the RPC API, and the checks of their arguments.
pub mod Schema
pub mod Validators
pub mod Transport
pub mod Reader
pub mod Line
