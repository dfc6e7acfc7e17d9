-- ===== src/Pagination.antt =====
-- pkg/pagination: cursors and the pages of a list.
pub mod Cursor
pub mod ListQuery
mod Pages
mod Tests
