-- ===== src/ToolLoop.antt =====
-- shenyu_gateway/tool_loop.py: the rounds of upstream requests and gateway tool calls that answer
-- one request.
pub mod Calls
pub mod Errors
pub mod State
pub mod Album
pub mod Execute
pub mod Mixed
pub mod Rounds
pub mod Effects
pub mod Keys
pub mod Once
pub mod OnceRounds
pub mod OnceOnly
pub mod Caller
pub mod Answered
pub mod Silent
pub mod Final
pub mod Conversation
pub mod Asked
pub mod Converted
pub mod Receipts
pub mod Decorated
pub mod Shaped
pub mod Ids
pub mod Forwarded
mod Tests
