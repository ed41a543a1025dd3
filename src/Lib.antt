-- ===== src/Lib.antt =====
-- my-own-os is a small x86 kernel in C: physical frames and page directories, a heap with a
-- sorted index of holes, processes with signals and file descriptors, a virtual file system on a
-- RAM disk, and system calls from ring 3. Code that may stop in PANIC or ASSERT returns an
-- `Outcome`; a null pointer is `none` or address 0; an `int` is its 32-bit pattern.
--
-- - Prelude, Words: Boolean tests, lists, outcomes; 32-bit words with their wrap-around.
-- - OrderedArray: src/ordered_array.c. The index of the heap; insertion, lookup, removal.
-- - Paging.Frames: the frame bitmap of src/paging.c. Paging.Space: get_page and the sequence that
--   maps a fresh user page. Where a page table is missing, get_page calls kmalloc_ap, an argument
--   of which nothing is assumed; what is proved of mapped pages is for addresses whose table is
--   there.
-- - Fs: the nodes of src/fs.h. Fs.Paths: the paths of src/fs.c, over the drivers' callbacks; the
--   loop over the components of a path runs on the length of the path, of which each round uses
--   up a byte.
-- - KHeap: src/kheap.h and src/kheap.c. Memory is a function of the address; KHeap.Alloc,
--   KHeap.Free, KHeap.Resize and KHeap.Validate are its operations, KHeap.Create the bump
--   allocator and create_heap. Page tables and the pages that come and go are the interface
--   Pager, for the tables of the kernel's directory and alloc_frame and free_frame of the entry
--   of an address; where a table is missing, an arena that grows calls alloc on the same heap for
--   one. KHeap.Paged fills it with the kernel's directory of a paging Machine. Blocks says how
--   blocks tile the arena, Accepts what a well-formed heap is. The walk of heap_validate runs on
--   the length of the arena, of which each block takes 20 bytes; alloc runs on fuel, of which an
--   allocation without alignment needs two where no table is missing.
-- - Initrd: src/initrd.c and src/initrd.h, the boot archive and the tree of its paths;
--   Initrd.Archive is mounting. The scan over the children of a directory runs on the number of
--   nodes, the loop over the components of a path on its length.
-- - Strings: the comparisons of src/common.c.
-- - Monitor: src/monitor.c, the text screen and the numbers it writes, whose 32 rounds are more
--   than the digits of a word.
-- - Task: src/task.h and src/task.c. Task.Queue: the ready queue. Task.Descriptors: the
--   descriptor table and seeking. Task.Break: task_sbrk. Task.Schedule: switch_task, whose search
--   for a task runs on fuel, the length of the queue and of what is behind the running task,
--   which is the longest way round. Task.Lifecycle: the first process, fork, exit, waitpid over
--   the interface Spaces, for what they call of paging.c and kheap.c, of which nothing is
--   assumed.
-- - Signals: src/signal.c. The stack of a process is byte memory (Words.Memory); a delivery
--   either resumes the process or ends in task_exit.
-- - Keyboard: src/keyboard.c, the ring buffer between the interrupt and its readers.
--
-- Components meet in the record Kernel of Task: the ready queue, the running task, the paging
-- Machine and the table of nodes. A loop over a range runs on the number of its rounds, computed
-- from its bounds; first_frame runs frame_word_count rounds of 32, and the loop of task_sbrk the
-- rounds that page_rounds counts, so no loop is cut short. initialise_tasking, move_stack,
-- clone_directory and destroy_directory are not modelled, nor are exec.c, syscall.c and the
-- library of user programs. Assembly, interrupt tables, port I/O and the translation cache are
-- not modelled.
pub mod Prelude
pub mod Words
pub mod OrderedArray
pub mod Paging
pub mod Fs
pub mod Task
pub mod Signals
pub mod Keyboard
pub mod Strings
pub mod Monitor
pub mod KHeap
pub mod Initrd
