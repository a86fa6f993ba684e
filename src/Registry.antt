-- ===== src/Registry.antt =====
-- shenyu_gateway/tool_registry.py: the tools that a request is sent with, and the calls of them.
pub mod Names
pub mod Tools
pub mod Merge
pub mod Merged
pub mod Arguments
pub mod Dispatch
pub mod Offered
pub mod Answered
pub mod Brokered
mod Tests
