-- ===== src/Memory.antt =====
-- The virtual memory manager, scheduler+virtualMemoryManager/submission/paging.c and myallocate.c.
pub mod Types
pub mod Pages
pub mod Head
pub mod Allocate
pub mod Deallocate
pub mod Guard
pub mod Tests
