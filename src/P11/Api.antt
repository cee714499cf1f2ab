-- ===== src/P11/Api.antt =====
-- vtok_p11/src/api: the C functions on the session that a handle stands for.
pub mod Output
pub mod Query
pub mod Operations
pub mod Multipart
pub mod Calls
pub mod Entry
pub mod Begin
pub mod Reaches
pub mod Authentic
