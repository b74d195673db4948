-- ===== src/Run.antt =====
-- internal/run: the Runner's sequences and how they are shrunk, its waits, and what it tears down.
pub mod Sequence
pub mod Shrink
pub mod Merge
pub mod Settle
pub mod Teardown
pub mod Runner
