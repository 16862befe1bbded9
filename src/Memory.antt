-- ===== src/Memory.antt =====
-- sys/memory.c, the physical page allocator.
pub mod Pages
