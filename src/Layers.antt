-- ===== src/Layers.antt =====
-- shenyu_gateway/context_layers.py: the trimming of the client's messages, and the assembly of the
-- gateway's layers around them.
pub mod Turns
pub mod Calls
pub mod Settled
pub mod Start
pub mod Trim
pub mod Place
pub mod Assemble
pub mod Kept
pub mod ColdStart
pub mod McpResults
pub mod Aged
mod Tests
