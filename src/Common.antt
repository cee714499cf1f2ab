-- ===== src/Common.antt =====
-- vtok_common: what the PKCS#11 provider and the RPC server share.
pub mod Defs
pub mod Config
