-- ===== src/Lib.antt =====
-- A teaching kernel after mCertiKOS with POSIX-like signals: memory, threads, traps and signals.
--
-- The kernel is built in layers, each of which uses the operations of those below. This library
-- follows them, one folder for each group of layers:
--   Pmm: kern/pmm. Table is MATIntro (the allocation table AT), Init is MATInit (pmem_init), Alloc
--     is MATOp (palloc, pfree), Container is MContainer (quota and usage of each process).
--   Vmm: kern/vmm and kern/lib/pmap.c. Phys is physical memory as a function from addresses to
--   bytes, Table is MPTIntro and MPTOp (page directories and tables), Init is the set-up of paging,
--   Map is MPTComm, MPTKern and MPTNew (map_page, alloc_page), Copy is pmap.c (pt_copyin,
--     pt_copyout).
--   Thread: kern/thread. Tcb is PTCBIntro, PTQueueIntro and PCurID, Queue is PTQueueInit, Sched is
--     PThread (thread_yield, thread_sleep, thread_wakeup, thread_exit), PTCBInit, PKCtxNew
--     and what kern_main (kern/init/init.c) does with the shell.
--   Signal: State is the signal part of PTCBIntro, Calls the signal system calls of
--     kern/trap/TSyscall/TSyscall.c, Deliver the delivery in kern/trap/TTrapHandler/TTrapHandler.c.
--   Trap: Frame is tf_t and kern/trap/TSyscallArg/TSyscallArg.c, Outcome the ways in which a handler
--     ends, Handler the page fault, exception and interrupt handlers and trap.
--   Ipc: kern/lib/ipc.c, the queue of messages, with the conditions of the loops of sys_sync_send and
--     sys_sync_recv.
--   Fs: kern/fs. Cache is bufcache.c with ide_rw of kern/dev/disk/ide.c, Log is log.c, Session what the
--     layers above see of a transaction, Bitmap is block.c, Inode is inode.c, Path and Namei are
--     path.c and create of sysfile.c, Dir is dir.c, File is file.c with fdalloc of sysfile.c, and
--     Sysfile the system calls of sysfile.c.
--   Console: the input buffer of kern/dev/console.c.
--   Prelude: tests on native numbers, lists and bits. Tests: runs and examples.
--
-- The state of the kernel is a record that is passed from operation to operation: `Pmm` in `Mem` in
-- `Vm`, and beside it `Threads`; `Kernel` holds both. A C function of the name `f` is a definition of
-- the name `f`, with the CPU that runs it as an argument where it reads get_pcpu_idx. A word is a
-- number, with `u32` where a sum can wrap and `sub32` for a difference; `int_lt` compares two words
-- as values of type `int`. A loop over a table is a recursion on the number of rounds that are left;
-- palloc's has as many as there are pages from its start to the end of the table, and those of the
-- copies as many as there are bytes to copy, of which each round takes at least one. The loops of namex
-- and of the searches for messages take fuel, and theorems say how much is enough; those of inode_read,
-- inode_write and file_write have as many rounds as there are bytes, of which each round takes at
-- least one.
--
-- The file system keeps the cache of sectors and the disk in `Cache`, with the history of the writes
-- to the disk, so that a crash is a prefix of that history: a sector is
-- written whole or not at all. Its operations end in a `Result`: a value,
-- a wait for a lock that another process holds, or a panic. What namex uses of the inodes is an interface, which
-- kern/fs/inode.c and kern/fs/dir.c fill. `Inodes` is the table of the inodes over the log and the
-- cache, `Files` the table of the open files over that, and `Calls` both with the threads, the memory and
-- the frame. The drivers of devices, and the value that block_alloc seems to have when it ends without
-- one, are the parameter `Outside`.
--
-- Every operation of the scheduler and of the allocators holds a lock from its start to its end, or
-- to the switch of stacks, so each is one step and the locks have no state. An operation that
-- switches to another thread is modelled up to kctx_switch, which is assembly. The invariant of the
-- scheduler, `IsScheduled`, is about a list of processes, those that thread_spawn has made: thread 0,
-- on which the kernel boots, is marked as running for ever, and a block that was never used is zero,
-- which reads as ready. Sched/Boot shows that the boot reaches the invariant. Not modelled: the
-- dispatch of system calls, the calls that have nothing to do with signals or files, the copy of messages,
-- processes and ELF images, drivers, the boot loader and user programs.
pub mod Prelude
pub mod Console
pub mod Pmm
pub mod Vmm
pub mod Thread
pub mod Signal
pub mod Trap
pub mod Ipc
pub mod Fs
pub mod Tests
