-- ===== src/Lib.antt =====
-- xv6 with kernel threads: a model of the kernel's core and its correctness.
--
-- The kernel keeps a table of processes, each with a row of threads (proc.c, kthread.c); threads
-- sleep on a channel and are woken through it. On top of it stand mutexes for user threads
-- (mutex.c), with a tournament tree of them in user space (tree.c), and pipes (pipe.c); string.c
-- serves all of them. Pages of memory come from kalloc.c and are mapped for a process by vm.c,
-- system calls take their arguments from that memory (syscall.c), open files are shared through a
-- table (file.c), and the file system (fs.c) finds files by path names through directories, and
-- reads and writes its blocks through a cache (bio.c) and a redo log (log.c).
--
--   Base    helpers the parts share: Boolean tests, lists of fixed length, sums over a list,
--           integers that can go below zero, searches through a table
--   Mutex   mutex.c. A call is cut at its critical sections; Mutex.System interleaves them for any
--           number of threads on one mutex, those included that unlock it when they no longer hold it
--   Proc    proc.h, proc.c, kthread.c. Proc.Alloc has allocproc, fork and kthread_create, Proc.Exit has
--           exit, wait, kthread_exit and kthread_join, Proc.Wakeup has sleep, yield, wakeup and kill
--   Bytes   string.c, on a memory of bytes
--   Pipe    pipe.c
--   File    file.c, with the writei of fs.c in File.Writei; reads of an inode are a parameter
--   Pages   kalloc.c
--   Spinlock  spinlock.c, as one CPU runs it
--   Bcache  bio.c, over the iderw of memide.c
--   Dir     the directories of fs.c, and the entry that sysfile.c clears
--   Vm      vm.c and growproc of proc.c: the page directory of a process, on the pages of kalloc.c
--   Syscall syscall.c
--   Block   the bit map of fs.c and the blocks of a file
--   Inode   the cache of inodes of fs.c
--   Path    the path names of fs.c
--   Tree    tree.c, the tournament tree for user threads, on top of mutex.c
--   Print   printf.c, and atoi of ulib.c
--   Log     log.c. A commit and a recovery are lists of block writes, so that a crash is a cut; the
--           cache is what bread gives for each block
--
-- A table is a list whose length is the constant of param.h or kthread.h; a pointer into a table
-- is an index, and a null pointer is `none`. Where the C code reads past an array, the model says
-- what it reads. A function is a function from the state to the new state and the result; -1 is
-- `none`, `false` or a constructor `failed`, and a sleep is a constructor or `none`, after which
-- the caller goes on with the loop. In Proc and File the calls into other files (filedup,
-- fileclose, iput, kfree, freevm, pipeclose) are recorded in a list of calls, and in Proc the
-- results of kalloc and copyuvm are arguments.
--
-- The counters that hand out process and thread ids wrap at 32 bits, as those of a pipe do; an id
-- is its bit pattern. Outside vm.c fuel bounds only the search for a NUL in `strlen`, where any
-- fuel above the length is enough, the chunks of `filewrite` and the blocks of `writei`, which as
-- many rounds as there are bytes suffice for, the pages of `freerange`, whose fuel is the number
-- of pages and one, the digits of `printint`, where 32 rounds are enough for 32 bits, and the
-- elements of a path in `namex`, of which there are no more than bytes.
--
-- Outside Mutex and Spinlock a critical section under a spinlock is one step. The size of a
-- process stays at most KERNBASE, as allocuvm leaves it, and the loops of vm.c have one round of
-- fuel more than there are pages. Not modelled: the scheduler's choice, sleeplocks, the copies of
-- page tables, reads of files, sysproc.c and traps, devices, boot and user programs.
pub mod Base
pub mod Bcache
pub mod Block
pub mod Bytes
pub mod Dir
pub mod File
pub mod Inode
pub mod Log
pub mod Mutex
pub mod Pages
pub mod Path
pub mod Pipe
pub mod Print
pub mod Proc
pub mod Spinlock
pub mod Syscall
pub mod Tree
pub mod Vm
