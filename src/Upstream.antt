-- ===== src/Upstream.antt =====
-- shenyu_gateway/upstream_adapter.py: the messages of a request in the form of Anthropic's API.
pub mod Normal
pub mod Blocks
pub mod Cache
pub mod State
pub mod Messages
pub mod Tail
pub mod Marks
pub mod Balance
pub mod Bounded
pub mod Results
pub mod Pieces
pub mod Contents
pub mod Sanitize
pub mod Caller
pub mod Sendable
mod Tests
