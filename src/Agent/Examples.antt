-- ===== src/Agent/Examples.antt =====
-- The transport and the agent at concrete inputs.
mod Wire
mod Tokens
