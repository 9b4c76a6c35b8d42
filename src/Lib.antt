-- ===== src/Lib.antt =====
-- The uCore teaching kernel, as it stands in code/lab8_result: its memory management, processes,
-- scheduler, synchronisation, open files and the blocks of files on disk as executable definitions,
-- with the theorems that make them correct.
--
-- The parts and their files:
-- - Base: tests on machine words, sequences with native lengths, and `Outcome`, the result of code
--   with assertions. A failed `assert` stops the kernel: `panic`.
-- - Vmm (kern/mm/vmm.c, vmm.h): the virtual memory areas of a process. `Mm` is `struct mm_struct`;
--   find_vma, insert_vma_struct, mm_map, dup_mmap and user_mem_check have their own names. The
--   answers of kmalloc and of the page-table copy are arguments.
-- - Pmm (kern/mm/default_pmm.c): the first-fit allocator of physical pages. Pages are indices, the
--   free list is a list of pages, and Pmm.Blocks reads it as a list of blocks.
-- - SkewHeap (libs/skew_heap.h) and Stride (kern/schedule/default_sched.c): the run pool, and the
--   stride scheduling class on it. Stride.Fair relates the 32-bit strides to unbounded ones.
-- - Sched (kern/schedule/sched.c): wakeup_proc and schedule, over a run queue whose scheduling class
--   picks the next process; Timer: the list of timers of the same file, which wakes processes of
--   Sched.
-- - Wait and Sem (kern/sync/wait.c, sem.c): wait queues on the processes of Sched, and semaphores on
--   them. Sem.World runs any interleaving of calls, where a process that waits gives the processor
--   away with schedule.
-- - Files (kern/fs/file.c, kern/fs/vfs/inode.c): the table of open files and the counts of the inodes
--   that it holds. Files.Calls has the calls on descriptors; the file system's answers are
--   arguments. Files.World runs any interleaving of calls on a shared table, where a call that waits
--   is several steps: file_open is split at vfs_open and at vop_fstat. Files.Pending has the
--   consistency of such a table, and Files.Trace that every sequence of calls keeps it.
-- - Pid (kern/process/proc.c): get_pid.
-- - Family (kern/process/proc.c): set_links, remove_links and the loop of do_exit over the children;
--   Family.Children reads the pointers as a list of children for each process.
-- - Strings (libs/string.c, libs/x86.h): strings and memory, in C and in the x86 forms; Numbers
--   (libs/printfmt.c, libs/string.c): printnum, %d and strtol. An address is a number.
-- - Process, Fork and Exit (kern/process/proc.c): the hash of processes by their numbers and do_kill,
--   do_fork, do_exit and do_wait, on the states of Sched, Family and Pid. What kmalloc and alloc_pages
--   answer is an argument; Process.World keeps what they have handed out, so that a cleanup path can
--   be checked. Of a table of open files it keeps the number of users; what the table of an
--   exiting process holds is an argument of do_exit, which closes it with files_destroy
--   (Files.Destroy, kern/fs/fs.c). What do_fork's dup_fs copies is an argument as well
--   (Files.Duplicate). Hash (libs/hash.c, libs/rand.c) has the hash.
-- - Bitmap (kern/fs/sfs/bitmap.c): the map of free blocks; a word is the list of its bits. Sfs
--   (kern/fs/sfs/sfs_inode.c) stands on it: the allocation of disk blocks, the map from the blocks of
--   a file to them, and sfs_truncfile. The disk is a sequence of words for each block, and whether
--   the device carries out a transfer of a block is an argument.
-- - Iobuf (kern/fs/iobuf.c): buffers for input and output, on the memory of Strings.
--
-- Paths of source files are below code/lab8_result.
--
-- Machine words are native numbers with `% 2 ^ w` where the code can wrap. Pointers to list entries
-- are elements of sequences. A walk along a list is structural recursion. Fuel appears in these
-- places: user_mem_check, whose loop takes at most one round per address of the range; get_pid, for
-- which two sweeps over all numbers are enough; wakeup_queue, one round per wait; the loops of
-- do_exit and do_wait along the children, one round per child; the loops to a NUL of Strings and
-- Numbers, one round per character; printnum, one round per digit; and the loops of sfs_truncfile,
-- one round per block. Interrupts are off in the modelled critical sections, so each of them is one
-- step.
--
-- Not modelled: page tables and faults, the kernel heap, swapping, execve and the context switch,
-- the VFS, mounting, directories and input and output of the file system on disk, the drivers, boot
-- and trap code, and the user programs. The tree code/lab4-spoc-discuss is an earlier stage of the
-- same kernel.
pub mod Base
pub mod Bitmap
pub mod Exit
pub mod Family
pub mod Files
pub mod Fork
pub mod Hash
pub mod Iobuf
pub mod Numbers
pub mod Pid
pub mod Pmm
pub mod Process
pub mod Sched
pub mod Sem
pub mod Sfs
pub mod SkewHeap
pub mod Stride
pub mod Strings
pub mod Timer
pub mod Vmm
pub mod Wait
