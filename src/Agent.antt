-- ===== src/Agent.antt =====
-- vtok_agent: the agent that keeps the tokens of an enclave in step with their sources.
pub mod Config
pub mod Env
pub mod Imds
pub mod Enclave
pub mod Source
pub mod Target
pub mod Token
pub mod Restart
pub mod Sync
pub mod Later
mod Examples
