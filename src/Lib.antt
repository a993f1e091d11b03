-- ===== src/Lib.antt =====
-- A verification library for the programs of a course on operating systems: a memory allocator
-- (lab2/2-3.c), page replacement (lab2/queue.h and lab2/2-4.c), a spinlock (lab1-3/spinlock.c),
-- threads and processes that share a counter or a pipe (lab1-2 and lab2), and a file system in one
-- file (lab3/3.c). The programs do not call one another, and each is a module here.
--
-- Base holds what they share: the tests on numbers, lists and options, sums over lists, integers.
--
-- Alloc is lab2/2-3.c. Alloc/State has the structs and the globals as the record `Mem`; Alloc/Sort
-- the exchange sorts `rearrange_FF`, `rearrange_BF`, `rearrange_WF` and `memory_sort`; Alloc/Fit
-- `allocate_mem` and `memory_compaction`; Alloc/Free `kill_process`, `free_mem`, `memory_merge`,
-- `dispose` and `find_process`; Alloc/Menu the other operations of the menu, and `step`, one round
-- of the loop of `main`. A linked list is the list of its nodes' contents. Code that leaves C, by
-- a use after free or by reading what was never written, returns `undefined`. Alloc/Invariant
-- states what holds of the globals, and Alloc/Menu/Reach that it holds in every state the menu
-- reaches.
--
-- Spinlock is lab1-3/spinlock.c. A step of `Spinlock.step` is one access to shared memory by one
-- of the two threads, and a schedule is any list of such steps; memory is sequentially consistent.
--
-- Paging is lab2/queue.h (Paging/Queue) and the two simulations of lab2/2-4.c (Paging/Simulate),
-- whose output is a list of rows. Paging/Frames shows that a queue is a set of numbered frames,
-- and Paging/Recency is the specification of LRU, by the time of the last use of a page;
-- Paging/Lru and Paging/Fifo relate the simulations to their specifications, Paging/Sorted is
-- about `sortQueue` and Paging/Freeing about `freeQueue`. Paging/Main is `main` with the random
-- pages: what `rand` returns and what is entered are arguments, as functions of the number of the
-- call.
--
-- Threads has the programs of lab1-2 and lab2 in which the scheduler decides: Counter is
-- lab1-2/1-2_signal.c, Race lab1-2/1-2.c without the semaphore, Exec lab1-2/1-2_sys.c, and
-- Pipe/Locked, Pipe/Unlocked and Pipe/Messages are lab2/2-2.c, 2-2_nolock.c and 2-2r.c. A schedule
-- is a list of the threads or processes that move, by one shared access or one call of the system
-- at a time. The semaphore (Threads/Semaphore), the pipe and `lockf` (Threads/Pipe) are not code
-- of the repository: each is a record of operations, with a record of the laws that the manual
-- states, which the theorems take as parameters; the Examples have concrete ones. A call that
-- waits is `none`, and is tried again.
--
-- Fs is lab3/3.c. The file `FS.txt` is a function from offsets to bytes (Fs/Bytes); Fs/Disk has
-- the structs as bytes and the loads and updates of the image; Fs/Bitmap the search for a clear
-- bit and the clearing of a bit; Fs/Space `new_block`, `new_inode`, `reset_block_entry` and
-- `reset_inode_table`, which run in the monad of Fs/State over the image and the other globals.
-- The values that `time` returns are a field of that state, as any function of the number of
-- calls; so is what the program has printed of directories and files. Fs/Directory has one
-- directory block: `search_file_name`, `append_dir_entry`, `delete_dir_entry` on its 512 bytes,
-- undefined outside of them; Fs/Directory/Entries says when a block holds a list of files, the
-- view in which the modules beside it state the three. Fs/Walk is `handle_search_inode` and
-- `handle_read_inode`, with the functions that they are passed as the data types `SearchFunc` and
-- `OperationFunc`; Fs/Create is `new_dir_entry` and `handle_append_directory`, Fs/Files
-- `try_write` and `handle_write_inode`, both with Fs/Pointers for the last of the places of
-- `i_block`, Fs/Setup `format`, `passwd` and `login`, Fs/Commands the other commands (in Opened
-- those on the table of open files, in Mode `chmod`), which answer with a `Reply` in place of a
-- message, and Fs/Shell the dispatch and the loop of the shell, and `main`. The bytes that are
-- typed are an argument; `fgets` reads from them up to its limit, and what it leaves goes on to the
-- next read. The shell takes a number for each round: after how many bytes SIGQUIT ends the text,
-- where the round writes to a file. Fs/Commands/Creation follows `create` through all of these, in
-- a directory of one block, and Fs/Commands/Deletion `delete` of a file without blocks.
-- Fs/State/Keeps has the rules for a predicate that a program over the globals keeps, and Fs/Table
-- goes through every operation with them, for the table of open files.
--
-- Bounds: numbers stand for C integers where these do not overflow; `uint16_t index--` keeps its
-- wrap-around. The loop over the bits of a byte has fuel 9, which is enough because a byte that is
-- not full has a clear bit among its eight. The loops over a directory block have fuel 251, the
-- number of offsets at which an entry can be read: a loop that needs more has come back to one and
-- does not end. That of print_dir_entries_in_block has fuel 512, since it reads an entry in place.
-- The loops over the blocks of an inode in Fs/Create and Fs/Files run over the 8 places of
-- `i_block`, behind which their rounds do nothing; those of Fs/Pointers over the 256 numbers and 8
-- inodes of a block, behind which they are undefined, and over the blocks of an inode with one
-- round more than there can be. `free_loop` has one more fuel than there are nodes, and pops one
-- in each round. `login_loop` has the length of the input, of which each round reads a byte at
-- least, and Fs/Setup/Password shows that more fuel changes nothing. No other definition has fuel.
--
-- Not modelled: the text of messages and prompts, and `malloc`, which succeeds; the end of
-- the input, at which `shell` and `login` wait in the model and a new password is undefined;
-- `remove_file`, which nothing calls; lab2/2-1.c, whose behaviour is the kernel's delivery of
-- signals; and the demonstrations of `fork`, `wait` and `exec`, which only call the operating
-- system.
pub mod Base
pub mod Alloc
pub mod Spinlock
pub mod Threads
pub mod Fs
pub mod Paging
