-- ===== src/Paging.antt =====
-- src/paging.c and src/paging.h: physical frames and page-table entries.
pub mod Frames
pub mod Space
pub mod Tests
