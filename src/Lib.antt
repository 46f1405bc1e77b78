-- ===== src/Lib.antt =====
-- The teaching operating system os-shell: parts of its kernel and of its user programs.
--
-- The kernel (kernel/) runs threads that share semaphores, pipes and, per process, tables of open
-- files, semaphores and children. System calls name the entries of these tables by ids. The disk is
-- read in blocks; files and directories are ranges of bytes over it. The user programs
-- (nikshita.dir/sbin/) are a login program, a shell and small tools over a library of their own.
--
-- Common: notation, tests, lists and integers; Text has C strings, words and memories of bytes, and
--   Memory what a store does to them.
-- Kernel.Queue: kernel/queue.h. The `next` fields are a memory from addresses to addresses.
-- Kernel.Semaphore: kernel/semaphore.h. An operation runs under the semaphore's lock, as one step.
-- Kernel.Pipe: kernel/Pipe.h, over Kernel.Semaphore. A call holds the pipe's lock and is one step.
-- Kernel.PhysMem: kernel/physmem.h and kernel/physmem.cc, over a memory of words.
-- Kernel.Process: kernel/process.h and kernel/process.cc: the three tables and their ids,
--   and in Fork what fork does with them.
-- Kernel.BlockIo: kernel/block_io.h and kernel/block_io.cc. The subclass is a record of functions.
-- Kernel.Libk: the string routines of kernel/libk.cc.
-- Kernel.Node: the class Node of kernel/ext2.h and kernel/ext2.cc, over Kernel.BlockIo: the blocks of a
--   node (Blocks), its directory entries (Entries, Names), the rounds of the loop over them (Rounds)
--   and symbolic links (Symbols).
-- Kernel.Ext2: mounting, nodes by number and paths of kernel/ext2.h and kernel/ext2.cc.
-- Kernel.File: the files that a descriptor may stand for, of kernel/file.h, kernel/file_ext.h,
--   kernel/PipeFile.h and kernel/u8250.cc.
-- Kernel.Sys: the handlers of kernel/sys.cc, over all of these.
-- Kernel.Elf: kernel/elf.h and kernel/elf.cc, over Kernel.Node.
-- Kernel.Exec: `SYS::exec` of kernel/sys.cc: its checks, the stack of a program (Stack), and Kernel.Elf.
-- Kernel.Execl: the handlers of execl and execvp of kernel/sys.cc, over Kernel.Exec.
-- Kernel.Threads: the scheduler of kernel/threads.h and kernel/threads.cc, as steps of the cores: what
--   the cores and queues hold (Places), the invariant (Kept), its steps (Held, Keeps) and the
--   theorems (Safe).
-- Kernel.Tasks: fork and exit of kernel/sys.cc, over Kernel.Threads and Kernel.Process; Waits has
--   them with wait.
-- Kernel.Locks: InterruptSafeLock of kernel/atomic.h, as steps of the cores (Safe).
-- Kernel.Cwd: the working directory of kernel/process.h, pwd and cd of kernel/sys.cc, and memcpy of
--   kernel/machine.S, which copies forward, over the bytes of the memory: texts in it (Texts), a
--   change of directory (Changes) and the parent (Parent).
-- Kernel.Vmm: kernel/vmm.cc, over Kernel.PhysMem: what a page directory makes of an address (Walk), new
--   tables (Tables), the shared directory (Identity), mapping, page faults and unmapping (Maps,
--   Faults, Unmaps), and the deletion of the private part, page by page and table by table (Pages,
--   Clears, Empties, Deletes, Private).
-- Kernel.Shared: kernel/shared.h, as histories of operations on variables.
-- Kernel.Barrier: the class Barrier of kernel/barrier.h, as schedules of atomic steps, over
--   Kernel.Semaphore.
-- Kernel.Future: the class Future of kernel/future.h, in the same way.
-- Examples, in Kernel and User: concrete inputs for the theorems, with the disk in DiskExamples, the
--   system in SysExamples, histories in ThreadExamples, a program in ProgramExamples, page tables in
--   MemoryExamples and working directories in CwdExamples.
-- User.Strings: the string routines of nikshita.dir/sbin/input_functions.c.
-- User.Login: the table and the check of nikshita.dir/sbin/login.c, over User.Strings.
-- User.Input: the two line editors of nikshita.dir/sbin/input_functions.c.
-- User.Grep: fgets of nikshita.dir/sbin/input_functions.c and the loop of nikshita.dir/sbin/grep.c,
--   over User.Strings; what printf writes is a parameter.
-- User.Heap: nikshita.dir/sbin/heap.c. The array is a function from indices; Cells and Links say what
--   blocks and the list of free blocks are, State what a heap is, between and within operations;
--   Open, Gap and Fill are the steps on a gap, Payload and Kept are about what taken blocks hold, Split
--   and Malloc are malloc, and Joins, Left, Right and Free are free.
--
-- Numbers are natural numbers with their bounds or wrap-around written out; a 32-bit `int` is its
-- bit pattern where its sign matters. A read past an object is a fault, `none`. The loop
-- of `read_all` has as many rounds as bytes asked for, and that of grep one more than there are
-- bytes of input: each round takes at least a byte.
-- The search of malloc has as many rounds as the array has cells, of which each free block takes four.
--
-- The loop over directory entries has one round more than the directory has bytes, and that over
-- the parts of a path one more than the path has: each round takes at least a byte, but for an entry
-- of size 0, which keeps the source's loop in place for ever. `rounds` of sys_open bounds the chain of
-- symbolic links, which may be a cycle, and that of exec_from the list of arguments.
--
-- Not modelled: the copy of an address space by fork, and make_pd and delete_pd; what clear_private
-- does to the memory seen by bytes, which is a function that exec is given; device registers, the
-- assembly but for memcpy, start-up, interrupts and context switches; and printf of the user programs
-- and of the kernel, which are copies of another project's.
pub mod Common
pub mod Kernel
pub mod User
