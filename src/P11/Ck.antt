-- ===== src/P11/Ck.antt =====
-- The PKCS#11 constants.
pub mod Rv
pub mod Mech
pub mod Flags
pub mod Attrs
pub mod Objects
