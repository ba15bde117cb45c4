-- ===== src/Lib.antt =====
-- Verification of the thread library with its virtual memory, and of the file system.
--
-- The program has two parts that do not call each other. Paths are from the repository's root.
--
-- The thread library, scheduler+virtualMemoryManager/submission/my_pthread.c with my_pthread_t.h, runs user
-- threads in turn on one processor. Scheduler/Types models its structs; `Machine` is all the state that
-- the file reads and writes: the control blocks by address (address 0 is NULL), the five run queues, the wait
-- queues and flags of the mutexes, the scheduler's fields and the globals. The times of gettimeofday are a
-- parameter, the function `clock`; calls of the kernel and of the memory manager are noted in `effects`. A
-- step that would read through NULL is `fault`.
--   Scheduler/Queues       enqueue, dequeue, getNextThread, checkNextThread
--   Scheduler/Maintenance  maintenance, cut into the test, the removal, the promotion and the two loops
--   Scheduler/Schedule     schedule and timer_handler; a call ends at its swapcontext or at its return, since
--                          what runs after swapcontext is another thread's code
--   Scheduler/Api          my_pthread_create, _yield, _exit and _join; the loop of _join is one round at a
--                          time, since other threads run between two rounds
--   Scheduler/Mutex        my_pthread_mutex_init, _lock, _unlock and _destroy; the loop of _lock is one round
--                          at a time too
-- Scheduler/Queues/Chain says what the linked queues stand for: one list of threads for each queue, no
-- thread in two of them. The laws of the operations are stated on these lists.
--   Scheduler/System       the library under its callers: a step is one call by the thread that runs, or the
--                          timer between two calls. The code keeps the handler of SIGALRM out of schedule
--                          alone; a signal inside another call may tear a queue, and is left out here. Which
--                          thread holds which mutex is known to the callers alone, and a step keeps book of it
--   Scheduler/System/Signals
--                          the flags of the mutexes with SIGALRM at any instruction, also inside a call: each
--                          access to a flag is a step, and what stands between two of them is arbitrary
--   Scheduler/System/Start the first call of my_pthread_create
--   Scheduler/System/Exited
--                          a thread that has exited, in the states that follow, and my_pthread_join for it
--   Scheduler/System/Turns sequences of my_pthread_yield and my_pthread_exit, each by the thread that runs
--
-- The memory manager, scheduler+virtualMemoryManager/submission/paging.c and myallocate.c with their headers,
-- gives pages of a region of 8 MB and of a swap file of 16 MB to the threads. Memory/Types models the page
-- table, the struct Meta at each address, and the protection of each page. An address is an offset from
-- all_memory. mprotect refuses an address that is not on a page's border, as its documentation says.
--   Memory/Pages           initAll, requestPage, swapEmptyPage, swapPage, freeBuffer, mprotect_setter and the
--                          handler of SIGSEGV
--   Memory/Head            initMem, and getHead with its branches
--   Memory/Allocate        organizeMem and myallocate
--   Memory/Deallocate      mydeallocate
--   Memory/Guard           which pages are open to which thread, over the functions of all of these;
--                          Memory/Guard/System has the steps: a request of the thread that runs, or a
--                          switch to another thread as schedule makes it
-- The scheduler calls the memory manager for the stacks of its threads and at each swap; in Scheduler
-- these calls are effects, and what they do is in Memory.
--
-- The file system, filesystemFUSE/submission, keeps bitmaps, an inode table and data blocks on a device
-- of 512-byte blocks.
--   FileSystem/Layout      the constants of stdefs.h, getInodeIndex and getInodeBlockIndex of inode.c
--   FileSystem/Bitmap      bitmap.c
--   FileSystem/Blocks      block_read, block_write and findFreeBlock of block.c, findFreeInode of inode.c
--   FileSystem/Inodes      getInode, updateInode and removeInode of inode.c
--   FileSystem/Entries     initializeDEntries of dirent.c, the search of createDEntry in the blocks that a
--                          directory has, deleteInodeEntry and getParentInode of inode.c
--   FileSystem/Disk        the device as the calls use it, and what they take from the system
--   FileSystem/Lookup      findInode, inodeFromPath, getParentInodeFP, fillStat and getChild of inode.c
--   FileSystem/Create      createInode and createRoot of inode.c, createDEntry with its loop for a new block
--   FileSystem/Remove      deleteAllInodeEntries of inode.c, sfs_unlink and sfs_rmdir of sfs.c
--   FileSystem/Calls       sfs_getattr, sfs_create, sfs_mkdir, sfs_open, sfs_opendir and sfs_readdir
--   FileSystem/Data        sfs_read and sfs_write
--   FileSystem/Format      initializeSuperBlock of block.c, sfs_init
-- The device holds all of its blocks, so that reads and writes do not fail. A block is a bitmap, two inodes,
-- directory entries by their offset, or bytes, as the code reads it; a block that is written as one kind
-- and read as another is not followed. A path is a list of characters. Undefined behaviour (a free of
-- freed memory and a memcpy of areas that overlap are such), an exit of the process, and a data block whose
-- number is the -1 of findFreeBlock are `fault`.
--
-- Prelude has the tests, lists and the type of the results that may fault or run out of fuel.
--
-- Integers. The times are unsigned long and wrap at 2 ^ 64; the tid and the counters of free pages
-- are ints as 32-bit patterns; the rest is small and not negative in the code, and is ℕ. Fuel stands
-- for the loops over linked structures alone: the lists of a queue in maintenance, the blocks of a
-- thread in myallocate and mydeallocate, the pages that myallocate asks for, and the entries of a
-- directory block. In maintenance one unit for each thread of a run queue and one more is enough,
-- as the theorems on maintenance and schedule show; a directory block needs one unit more than its
-- bytes, in the loops over its entries; sfs_read and sfs_write need one for each block. The walk of myallocate
-- needs one unit for each block, and its loop over pages one for each page that the request and a struct
-- Meta fill, as its theorem shows; fuel of 1 is enough for mydeallocate of a thread's first block. Loops over the
-- queues, the pages, the words and the bits are structural.
--
-- Not modelled: the machine contexts of ucontext.h, the printed messages, the bytes of the user's data in the
-- memory manager other than the struct Meta that they are read as, the log, the main program of sfs.c, the
-- older copies of both programs, and the test programs.
pub mod Prelude
pub mod Scheduler
pub mod Memory
pub mod FileSystem
