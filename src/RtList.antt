-- ===== src/RtList.antt =====
-- The list of runtime/lang_runtime.c, `RtList`: the header and the element block behind every `Vec`.
-- State: the header, what a call does to the heap, and construction. Grow, Release, Push, Replace,
-- Remove: the operations. Script: sequences of calls on a boxed list. The laws stand below Script.
pub mod State
pub mod Release
pub mod Grow
pub mod Push
pub mod Replace
pub mod Remove
pub mod Slice
pub mod Bytes
pub mod Script
mod Tests
