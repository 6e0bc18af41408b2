-- ===== src/Lib.antt =====
-- A verification library for ViOS, a 64-bit operating system kernel in C. All paths below stand under
-- ViOS64Bit/src of the repository.
--
-- The parts of the kernel that are modelled, from the bottom up:
--
--   Memory    memory/memory.c: memset, memcpy and memcmp on the bytes of an object, and the reading of the
--             firmware's E820 memory map. Memory/Blocks is about the first, Memory/Map about the second.
--   CString   string/string.c: one function per function of the file. A `char*` is the list of the bytes
--             from there to the end of its buffer, so that reading or writing behind the buffer faults.
--   Heap      memory/heap/heap.c, the block allocator under every kmalloc. `Heap` is struct heap with its
--             table of entries; pointers are addresses, block numbers are indices of the table, and the two
--             callbacks are a log of the calls made. Heap/Resize has heap_realloc and the totals. The
--             abstract view is Heap/Layout: the table as a row of free blocks and allocations.
--   Multiheap memory/heap/multiheap.c: several heaps of the module Heap and the page tables of Paging as one
--             allocator. Multiheap/Setup adds heaps and paging heaps, Multiheap/Release has multiheap_free,
--             Multiheap/Alloc is about allocations.
--   Vector    lib/vector/vector.c, the growing array, on krealloc of the heap as an interface (`Allocator`).
--             Vector/Bubble has vector_reorder. The abstract view is `Holds` of Vector/Contents: a list.
--   Streamer  disk/streamer.c, the byte stream over a disk, with the bounds of disk_read_block and
--             disk_write_block of disk/disk.c. The abstract view is `byte` of Streamer/Bytes: a disk as one
--             row of bytes. Streamer/Read is about reading, Streamer/Sector about the writing of one sector
--             and Streamer/Write about the whole write, Streamer/Tail about the end of its last sector.
--   PathParser  fs/pparser.c: paths such as "0:/bin/sh". PathParser/Parts is about the names of a path,
--             PathParser/Parse about the whole.
--   Keyboard  keyboard/keyboard.c and keyboard/ps2keyboard.c: the key buffer of a process and the handler
--             that fills it. The abstract view is `Queue` of Keyboard/Ring: a list of characters.
--   Tasks     task/task.c: the linked list of tasks and the switch from one to the next. A task is an index
--             into the memory of tasks; Tasks/Rounds is about one turn, Tasks/Turns about the order of
--             turns, Tasks/Removal and Tasks/Links about a task that is freed.
--   Paging    memory/paging/paging.c: the four levels of page tables in a memory of frames. Paging/Frames says
--             how the tables form a tree, Paging/Walk what a mapping does to every walk, Paging/Map,
--             Paging/Range and Paging/Get are about the functions. The abstract view is `translation`: what
--             the processor finds for an address.
--   Fat16     fs/fat/fat16.c, over the Streamer: the file allocation table, and the bytes of a file whose
--             clusters it links. Fat16/Chain is about the links, Fat16/Contents and Fat16/Read about the
--             bytes, Fat16/Table and Fat16/NextEntries about entries that are written, Fat16/Free about
--             unused clusters. Fat16/Directory has the directories, Fat16/OpenFile the files that are
--             opened and read and Fat16/Writing those that are written; Fat16/Whole is about reads,
--             Fat16/Rewrite about writes and Fat16/Subdirectories about directories. The abstract view is
--             `Linked` of Fat16/Chain, a list of clusters with the entry that ends it, and `place` of
--             Fat16/Contents, where a byte of the file stands.
--   Files     fs/file.c: the open files, over the PathParser and the drivers of file systems (`Filesystem`, a
--             record of functions). Files/Table is about the array of descriptors, Files/Open and
--             Files/Refused about fopen, Files/Calls about each call and Files/Reach about sequences of calls
--             (`Reachable`).
--   Gpt       disk/gpt.c and disk_create_new of disk/disk.c: the partitions of the primary disk, over the
--             Streamer and Files. The abstract view is `partitions` of Gpt/Mount: the entries in use.
--   Processes task/process.c: the memory that a process allocates, over Paging and the heaps (`KernelHeap`), its
--             files, over Files, and its end, over Tasks. `Space` is what the memory functions change,
--             Processes/Table has the table of processes and Processes/Handles the calls on files.
--             Processes/Memory, Processes/Release and Processes/Bounds are about the memory,
--             Processes/Ending and Processes/Terminate about the end of a process, Processes/Sessions
--             about its files.
--
-- Config has the constants of config.h and status.h. Prelude has what the parts share: lists over native
-- numbers, Boolean tests, `int` results (`ℤ`), 64-bit arithmetic with its wrap-around (add64, sub64, mul64),
-- the conversion to `int` (to_int32) and `Run`, the outcome of code that may touch memory it does not own or call panic.
--
-- State is passed explicitly: a function of the model takes the structure and returns it changed, beside
-- the C result. A negative status is `neg` of the code of status.h. An `int` or `size_t` that the code can
-- make wrap is wrapped in the model; where the model has plain numbers, the file or the hypothesis says so.
--
-- Loops recurse on the number of rounds the code's own bound gives, or on the list they walk. The loops
-- over the table of the heap stop at the end of the table with a fault. diskstreamer_read and
-- diskstreamer_write recurse at most `total / 512 + 2` deep, since each call but the first begins a sector
-- and all but the first and the last move a whole one. A FAT16 read has a round for each byte, since each
-- round reads one at least. fat16_free_cluster_chain takes the number of rounds, since it follows the
-- links of a table that it changes on the way; fat16_get_total_items_for_directory takes it too, since an
-- entry that ends the directory may be missing. multiheap_free takes the depth of its recursion, which is 2
-- where no frame of a page lies in a paging heap.
--
-- What is not modelled: the ports of the disk drive (a `Drive` says what its sectors hold and which report
-- an error), interrupts, the loading of programs, graphics, the boot code and
-- the user programs. kzalloc and krealloc are parameters of the functions that use them: whether they
-- give memory, or how often they still do (`left`), and that krealloc keeps the old contents.
pub mod CString
pub mod Config
pub mod Fat16
pub mod Files
pub mod Gpt
pub mod Heap
pub mod Keyboard
pub mod Memory
pub mod Multiheap
pub mod Paging
pub mod PathParser
pub mod Prelude
pub mod Processes
pub mod Streamer
pub mod Tasks
pub mod Vector
