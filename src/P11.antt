-- ===== src/P11.antt =====
-- vtok_p11: the PKCS#11 provider.
pub mod Ck
pub mod Mechanism
pub mod Error
pub mod OpCtx
pub mod RawAttr
pub mod Attr
pub mod Object
pub mod Db
pub mod Crypto
pub mod Session
pub mod Token
pub mod Device
pub mod Api
mod Examples
