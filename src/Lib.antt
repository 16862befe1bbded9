-- ===== src/Lib.antt =====
-- The kernel of this repository, modelled part by part. A file or folder here stands for a part of
-- the program, with paths from the repository's root:
--
--   Base      the names the modules share: the libraries', Boolean tests on the native numbers, and
--             lists over them.
--   Memory    Memory/Pages is the page allocator of sys/memory.c: the list of free chunks of pages, in
--             order of address, with alloc_phys_pages and free_phys_pages. A chunk's header stands in
--             the free page itself; the model keeps the headers apart from the bytes of RAM.
--   Paging    sys/memory.c: page tables of three levels, map_range and its kin, unmapping, page faults,
--             validate_vptr and validate_vstr, and the copy and the reset of a memory space. A page is
--             known by its number, and its entries as a table stand apart from its bytes; the header
--             that a freed page gets is kept in the pool. The pages come
--             from an interface with laws, which Paging/Source fills with Memory/Pages.
--   Cache     sys/cache.c: the block cache between the file system and a storage device, with
--             create_cache, cache_get_block, cache_release_block and cache_flush. The device is a
--             parameter, the interface of sys/devimpl.h; what the theorems need of it within its
--             capacity is a named hypothesis. A pointer is a number, and the links of the node list are
--             its order.
--   Ring      the ring buffer that sys/uio.c and sys/dev/uart.c both define, over the size, the width of
--             the positions and that of uint_fast16_t.
--   Pipe      the pipes of sys/uio.c on a ring buffer: create_pipe, pipe_read, pipe_write and the closing
--             of an end. A call that has to wait lets go of the lock and starts over, so a call is
--             a function of the pipe as it finds it.
--   Ktfs      sys/ktfs.c: the bitmaps of data blocks and inodes with their allocation and release, and
--             Ktfs/Inode, the tree of a file's blocks, Ktfs/File, ktfs_fetch, Ktfs/Store, ktfs_store and
--             ktfs_cntl, Ktfs/Dir, the directory with ktfs_create and ktfs_delete, and Ktfs/Open, the
--             lists of open files. The disk is what the cache shows of it: blocks by the position that
--             the code gives to cache_get_block, and a byte at each offset.
--   Timer     sys/timer.c: the sleep list, alarm_sleep and handle_timer_interrupt, over the time that
--             rdtime reports. A broadcast is the list of the alarms it is called on.
--   Heap      sys/heap0.c: kmalloc, kcalloc and kfree on a pool of memory, over the page that
--             alloc_phys_page returns. The headers are kept apart from the bytes.
--   Threads   sys/thread.c: the table of threads, the ready list, conditions and locks, with spawning,
--             waiting, waking, exit and join. A thread is its index in thrtab, a condition or lock is
--             known by its address, and a list of threads is a list. `none` is a failed assertion.
--             Where another thread runs, a call stops: what happens until the caller runs again is
--             the relation of Threads/Run.
--   Text      sys/string.c: comparison, copying and search, strtoul, and formatted output. A string is
--             the list of its bytes before the NUL, and output is the list of the chars put.
--   Mounts    sys/filesys.c: the mount points, the operations on files that are passed on to a file
--             system, whose functions are a parameter, and the parts of a path.
--   Uio       sys/uio.c: an endpoint with its functions, which may be NULL, and its count of references,
--             with uio_close, uio_addref, uio_read, uio_write and uio_cntl.
--   Syscall   sys/syscall.c and sys/process.c: the tables of open endpoints, with sysopen, sysclose, sysread,
--             syswrite, sysfcntl, syspipe, sysuiodup and the checks of sysexec, over Paging/Check and
--             Mounts, and what process_fork and process_exit do with the tables. A process is its index
--             in proctab. Syscall/Runs is the relation of one state to the next.
--   Stack     build_stack of sys/process.c: the arguments of a new program on the page of its stack.
--
-- In each part a child module named Tests holds runs and the theorems at concrete inputs.
--
-- Numbers are natural numbers with the wrap-around of the machine's widths written out. A negative
-- result is a constructor of its own, or its unsigned pattern where the code compares it without a
-- sign. Lock-protected operations are functions from the state to the state. Loops are structural
-- recursion, over the list they walk or the rounds left, so that none needs fuel, except the loops of
-- ktfs_fetch and ktfs_store: they have as many rounds as bytes to copy, which is enough where each
-- round copies a byte at least, as it does from a position within the file; and those of vgprintf, with
-- a round for each char of the format; of format_int, with 64, enough for a number below 2 ^ 64; and
-- of validate_vstr, with one more than the user range has bytes, which is always enough.
-- To the other parts, what kmalloc or kcalloc returns is a parameter. Panics of the cache inside
-- sys/ktfs.c are left out.
--
-- Not modelled: the set-up of the kernel's own page table and the bits of satp, the start of a program
-- and its ELF image, device drivers and their registers, assembly, and the user-mode code under usr.
pub mod Base
pub mod Memory
pub mod Cache
pub mod Ring
pub mod Pipe
pub mod Ktfs
pub mod Timer
pub mod Uio
pub mod Heap
pub mod Threads
pub mod Text
pub mod Mounts
pub mod Paging
pub mod Syscall
pub mod Stack
