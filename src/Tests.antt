-- ===== src/Tests.antt =====
-- Sample states, and the theorems at them.
pub mod Samples
mod Prefixes
mod Blocks
mod Scheduling
mod Tokens
mod Files
mod Loop
mod Models
