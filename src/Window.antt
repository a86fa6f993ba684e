-- ===== src/Window.antt =====
-- shenyu_gateway/context_window.py: how a request's history is compared with the last one's, which
-- part of it stays in the window, and how bridge messages are put in front of it.
pub mod Groups
pub mod Boundaries
pub mod Events
pub mod Classify
pub mod Lineage
pub mod Slide
pub mod Meaning
pub mod Select
pub mod Stable
pub mod Bounds
pub mod Retry
pub mod Bridge
pub mod Merge
mod Tests
mod HistoryTests
