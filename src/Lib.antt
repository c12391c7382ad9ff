-- ===== src/Lib.antt =====
-- The programs of the repository, modelled and proved.
--
-- An operation over a state (Run) gives an answer and a new state, or a fault
-- where C reads through NULL or out of bounds, or runs out of fuel;
-- Run/Returns says that a program returns, and Run/Partial what it returns
-- where it does.
--
-- THE RAM DISK (Ramdisk, Assignment-4/fuse-2.9.3/example/Code/ramdisk/
-- fuseLibrary.c).  A file system in memory behind FUSE's callbacks: a tree of
-- directories, each with a list of files, and a table of blocks that the
-- files chain through `next`.  The parts and their files:
--   * Ramdisk/Paths: getParentPath, getFileDirName and the tokens of strtok;
--   * Ramdisk/Tree: Directory and File, traverseToDir, getDirPresentAtDir,
--     getFilePresentAtDir and the unlinking of a directory.  A Directory is
--     the tree of first children and next siblings, and a pointer into it is
--     the list of turns (down, across) from the root;
--   * Ramdisk/Disk: the state: the root, the table, and what the arrays hold
--     that malloc is going to return;
--   * Ramdisk/Blocks: getNextFreeBlockIndex and freeSubsequentBlocks;
--   * Ramdisk/Files: pb_mkdir, pb_openfd, pb_open, pb_mknod, pb_unlink,
--     pb_access and pb_opendir; Ramdisk/Remove: pb_rmdir;
--     Ramdisk/Attributes: pb_getattr, getFileSize and pb_readdir;
--     Ramdisk/Io: pb_writefile and pb_readfile with their callbacks;
--     Ramdisk/Init: initializeFileSystem; Ramdisk/Serve: the table pb_oper,
--     without the handlers that can fault;
--   * Ramdisk/Io/Contents, Stored, NewFile: the bytes of a file of one block;
--   * Ramdisk/Io/Chain, Spent, Long, Rewrite: the chain that a longer write
--     leaves, and the blocks it takes;
--   * Ramdisk/Safe: the well-formedness of a state and its preservation.
-- The index -1 of a block that has no next one is `none`, and a negative
-- error number is a constructor.  The block size is the source's 4096, and an
-- `int` that the source compares keeps its sign.  The parts of a transfer are
-- the 32 bits of an `int`, and an overflow of one is a fault.
--
-- Fuel: freeSubsequentBlocks gets one round for each block of the table, a
-- write one for each block of its transfer, and pb_rmdir's fuel is an argument
-- of its theorems, which say how much is enough.  A loop that its fuel does
-- not end answers out_of_fuel, which no theorem here takes for a result.
--
-- THE THREAD LIBRARY (Threads, Assignment_1_Final/thread_library.c).  Threads
-- in user space with three queues linked through `next` (ready, blocked by a
-- join, blocked by a semaphore), and semaphores in a fourth.
--   * Threads/Memory: the store.  A thread's address is its place in the
--     store, so two queues can share a node, as they do in the source;
--   * Threads/Queues: insertNode, the insertions and the searches;
--   * Threads/Semaphores: creation, lookup, deletion, signal and wait;
--   * Threads/Schedule: create, yield and join; Threads/Unblock: the moves that
--     unblock and the controller that runs when a thread ends;
--   * Threads/Chain, Grow, Order, Block: a queue as the list of its nodes, and
--     what the operations do to it; Threads/Search: the searches;
--     Threads/Count, Counter, Wake: the semaphores.
-- A change of context is the control's going elsewhere: an operation answers
-- with the saved context that runs next.  A walk of a queue has as many rounds as the
-- store has nodes; a queue that is a cycle runs out of them.
--
-- THE HOT POTATO (Potato, Assignment-3/P3/Assignment_3_Backup/Assignment-3/P3/
-- hotpotato).  A master seats the players in a ring of ports and sends one of
-- them a potato with a number of hops; the players pass it on, each adding its
-- number, and the last one sends the trace to the master.
--   * Potato/Master (master.c): the seats and the first potato;
--   * Potato/Player (player.c): one round of a player's loop;
--   * Potato/Game: the whole game, one unit of fuel a hop;
--   * Potato/Ring, Trace, Endless: the ring of ports, which have 16 bits, a game with
--     hops, one without;
--   * Potato/Party: the master and the players side by side, from the first
--     connection to the messages to cease: each step is one of theirs, and a
--     run is any sequence of such turns; Potato/Party/Potatoes, Good, Steps,
--     Runs: its invariant; Potato/Party/Progress: that it does not get stuck.
-- What `%d` prints is a parameter, and so is what `sprintf` leaves in its target
-- where that is one of its arguments too.  The results of rand() are arbitrary, and so
-- is the part of a text that one recv returns; a number of 4 bytes arrives
-- whole.
-- A connection is what is sent over it, in a queue at the port; one to a port
-- where nobody listens yet, or any more, is refused.
--
-- THE MICRO-SHELL (Shell, Assignment-2/Parser/parse.c, parse.h and main1.c).
-- The lexer and the parser of command lines, over the bytes of the standard
-- input that are not read yet, and the driver that runs what they make.
--   * Shell/Token: the tokens, with a word's text, which the source keeps in
--     Word, and the macros that sort them;
--   * Shell/Lexer: nextToken; Shell/Command: the structures, mkWord and newCmd;
--   * Shell/Parser: mkCmd, mkPipe and parse; a NULL that they return is
--     `none`, no_command or the empty list;
--   * Shell/Print and Shell/Grammar: the text of tokens, and the lines that
--     are meant to be accepted, with what they ask for; Shell/RoundTrip joins
--     them to the parser;
--   * Shell/Lexer/Laws, Lines, Sizes and Shell/Parser/Total, Reads, Ends,
--     Parts, Loop, Stages, Piped, Accepts, Missing, Strays: the proofs;
--   * Shell/Descriptors: what a process has open, with close, dup2 and the
--     numbering of new descriptors as POSIX has them;
--   * Shell/System: what the system decides (open, chdir, stat, setpriority,
--     which programs end, what becomes of a child whose behaviour is
--     undefined) is a parameter, and the current directory, `environ` and the
--     priority belong to a process; Shell/Environment:
--     getenv, putenv and unsetenv as the C library has them;
--   * Shell/Process, Shell/Builtins and Shell/Driver (Assignment-2/Parser/
--     main1.c): redirection, the built-in commands, the commands in a child
--     and in the shell, prCmd and prPipe.  What has run or been printed, with
--     the descriptors, is a list of events; a text is an event when it is
--     handed to stdio, whose buffers are left out;
--   * Shell/Driver/Wiring, Inlets, Chain, Wired, Faults: the pipes between commands;
--     Shell/Driver/Files: the files; Shell/Driver/Numerals: is_valid_int;
--     Shell/Driver/Variables, Places: the built-in commands;
--     Shell/Driver/Text: the parser and the driver together;
--   * Shell/Main: restoreIO and a round of main's loop; Shell/Main/Round: the
--     line of a job in it.
-- A command is waited for before the next one starts, so a program that does not
-- end, or fills a pipe that nobody reads yet, keeps the shell waiting: it has
-- no result then.  A fault is undefined behaviour of the shell; what is seen of a child that
-- meets it is a parameter.  What
-- the commands take from the shell's standard input is not followed.
-- A `char` is taken to be signed.  `parse` gets a little more than twice as
-- much fuel as the input has bytes, since a pipe costs two calls.
-- The messages, the freeing of memory, and a malloc, a fork or a pipe() that
-- fails are left out.
--
-- Not modelled: the failures of sockets, printing and the contexts, which the
-- programs only call; the shell's start (backupIO and the start-up file) and
-- its prompt; drafts and copies of the modelled files;
-- FUSE's own sources, which are a copy of another project.
pub mod Base
pub mod Potato
pub mod Ramdisk
pub mod Run
pub mod Shell
pub mod Threads
