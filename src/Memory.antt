-- ===== src/Memory.antt =====
-- The buddy allocator of src/memory.c.
pub mod Bitmap
pub mod Level
pub mod Search
pub mod Levels
pub mod Alloc
mod Buddy
pub mod Release
pub mod Dyn
mod Sizes
pub mod Heap
pub mod Grant
pub mod Reuse
pub mod Init
pub mod Start
mod Tests

-- PRE
