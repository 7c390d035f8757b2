-- ===== src/Roundtrips.antt =====
-- Calls that undo each other, and what the calls on bookmarks keep.
pub mod Bookmarks
pub mod Comments
pub mod Uniqueness
