-- ===== src/Tests.antt =====
-- The theorems at concrete inputs, and runs of the code: each child is about the module of its name.
pub mod Frames
pub mod Sessions
pub mod Networks
pub mod Monitors
pub mod Library
pub mod Searches
pub mod Answers
pub mod Layouts
