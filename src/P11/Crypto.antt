-- ===== src/P11/Crypto.antt =====
-- vtok_p11/src/crypto: keys and operation contexts, over the functions of libcrypto.
pub mod Evp
pub mod Pkey
pub mod X509Lib
pub mod Cert
pub mod Chain
pub mod Digest
pub mod Sign
pub mod Verify
pub mod Crypt
pub mod Parts
