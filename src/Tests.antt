-- ===== src/Tests.antt =====
-- The theorems applied at concrete inputs, and runs of the definitions on them.
pub mod Chain
mod Forging
mod Consensus
mod Wire
mod Flood
mod Pool
mod Token
mod Object
mod Signed
