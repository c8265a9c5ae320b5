-- ===== src/Gem.antt =====
-- lima_gem.c: the driver's buffer objects.
pub mod Submit
pub mod Heap
pub mod Handle
