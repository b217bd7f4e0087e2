-- ===== src/Mem.antt =====
-- Kernel/Source/Mem: the allocators of physical and of heap memory.
pub mod Bitmap
pub mod PhysAlloc
pub mod LowMem
pub mod Heap
pub mod PageCache
