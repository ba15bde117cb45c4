-- ===== src/Scheduler.antt =====
-- The thread library, scheduler+virtualMemoryManager/submission/my_pthread.c and my_pthread_t.h.
pub mod Types
pub mod Alike
pub mod Queues
pub mod Maintenance
pub mod Schedule
pub mod Api
pub mod Mutex
pub mod System
pub mod Tests
