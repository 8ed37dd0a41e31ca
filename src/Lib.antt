-- ===== src/Lib.antt =====
-- The three shells of COMP 310: a1/, a shell with variables and scripts; a2/, with processes,
-- paged shell memory and scheduling policies; a3/, with frames for scripts and a file system.
--
-- Parts and files. A text is the list of its bytes without the NUL.
-- Base.antt: lists, texts and tests on numbers that the parts share.
-- Store.antt: `struct memory_struct shellmemory[]` of all three shells, an array of slots with a
--   name and a value. `assign` and `fetch` are the searches of mem_set_value and mem_get_value over
--   the slots that a shell gives to its variables. `match` is `match_text`. `clear_range` is a loop
--   that frees slots.
-- Stdio.antt: fgets and feof on a file that is read from its start and has no NUL byte.
-- A1/: Memory is a1/shellmemory.c. Words is the loop of parseInput in a1/shell.c that cuts a line.
--   Interpreter is a1/interpreter.c, with `dispatch` for its chain of comparisons, and parseInput.
--   What the operating system does is the record `Os`. An `Outcome` is an error code with the new
--   state, the end of the shell, a write outside a buffer, or too deep a nesting of scripts.
-- A2/: Pcb is a2/pcb.c. ReadyQueue is a2/ready_queue.c, with the queue as a list. Memory is
--   a2/shellmemory.c, where `Ram` has the slots, the ages and the clock of the ages. Kernel is
--   a2/kernel.c: `execute_process` for a quantum, and `schedule` for the loop that the policies
--   share, with how a policy takes a process and what it does with one that is not done. The lines
--   of scripts go to `parse_input`, a parameter there. Interpreter is a2/interpreter.c, and Shell is
--   parseInput of a2/shell.c, with `shell` for the interpreter, the schedulers and the lines of
--   scripts together.
-- A3/: LinkedList is a3/linked_list.c on a heap of nodes, where a call returns or goes through a bad
--   pointer. Memory is a3/shellmemory.c. Pcb is a3/pcb.c and proc_done of a3/cpu.c, with a script's
--   copy as the stream that is left to read. Kernel is a3/kernel.c and cpu_run, where a process is
--   its number, a page is its process and index, and QUEUE, LRU_CACHE and ALL_PCB are the lists that
--   the linked lists stand for; a command is a parameter there. Shell is parseInput of a3/shell.c,
--   with the interpreter as a parameter. Os has the record `Os` of operations of the system
--   and of the file system, and the errors. Commands has the strings and buffers of
--   a3/interpreter.c, FileCommands its commands on files, and Interpreter the others, and
--   `shell_line` for the interpreter, the kernel and the lines of scripts together.
-- Fs/: Block is a3/fs/block.c over a driver that keeps what was written. Cache is a3/fs/cache.c, a
--   cache of 64 sectors with the clock of buffer_cache_evict; `none` is a panic. Inode is
--   byte_to_sector, inode_read_at and get_inode_data_sectors of a3/fs/inode.c, which read through
--   the cache; Inode/Reserve is how it gives files sectors and takes them back, on a `Store` of the
--   cache and the free map; Inode/Write is inode_write_at, and Inode/Table the list of open inodes.
--   FreeMap is a3/fs/free-map.c, with the functions of a3/fs/bitmap.c as a parameter. File is
--   a3/fs/file.c: a file knows its inode by the address, and the table of files is a list of names.
--   Directory is a3/fs/directory.c: the search of entries, with Path for split_path_filename,
--   Handles for the open directories and cwd, and Changes for dir_create, dir_add and dir_remove.
--   Filesys is a3/fs/filesys.c and a3/fs/fsutil.c on all of these. Copying is copy_in, copy_out,
--   find_file and defragment of a3/fs/fsutil2.c, with the files of the host as lists of bytes,
--   Recovery its recover, Fragmentation its fragmentation_degree, and Capacity its
--   copyable_size_of_file, with bytes_to_sectors of a3/fs/inode.c. Sample is test data.
--
-- A file is stored (`IsStored` in Fs/Inode/Reading.antt) when what its length reaches into is on the
-- device. The block numbers of a short file are 0, which is a sector of the device, and nothing is
-- asked of what that sector, the inode of the free map, holds.
--
-- A good cache (Fs/Cache/Coherence.antt) has its 64 entries and its clock within them, no two
-- entries for one sector, entries only for sectors of the device, and clean entries that agree with
-- the device. `Reads c s b` says that the sector s reads as the block b through the cache.
--
-- Bounds and fuel. The sizes of the frame store and of the variable store are parameters, since they
-- are set when a shell is compiled. The clock of the cache has fuel for one step more than there are
-- entries: each step that does not stop clears a reference bit. The schedulers have fuel for each
-- turn. The loop of the second shell's parseInput has fuel for each word. The scripts that
-- scripts run have a depth, and so have the lines of a3/, whose policies have fuel for each turn.
-- The search of a3/linked_list.c has fuel for each node, both dummies included. The loops of
-- inode_read_at and inode_write_at have fuel for each byte, and those over a directory for each of
-- its bytes. The 32 bits of a size are kept in bytes_to_sectors and copyable_size_of_file. Other
-- numbers are not bounded: the counters of the programs are taken not to wrap around, and an `int`
-- that is never negative is a natural number.
--
-- Not modelled: the prompt loops, printing the memory, and init_store and remove_store; fsutil_cat,
-- which prints; a failing malloc in the file system; the disk driver and partitions.
-- a3/fs/bitmap.c, list.c, round.h and debug.c are copies of helpers of another system.
pub mod Base
pub mod Store
pub mod Stdio
pub mod A1
pub mod A2
pub mod A3
pub mod Fs
