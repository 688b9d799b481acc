-- ===== src/Arenas.antt =====
-- The allocators of 1_mem_allocator and 2_cpp_basics/0_bump_allocator. A pointer is a number below
-- 2 ^ 64 and the null pointer is 0; `mmap` gives an address or nothing, as a parameter.
pub mod Align
pub mod Bump
pub mod Arena
pub mod ImplicitList
pub mod MetaList
mod Tests
