-- ===== src/Lib.antt =====
-- A verification library for the programs of this repository, the operating-system labs of CS 111.
--
-- The repository holds several programs that share no code but some library functions. Modelled:
--   * weensyos1, MiniprocOS (Miniproc and below): the process table of mpos-kern.h as a function
--     from indices to records; `start`, `interrupt` with its five system calls, `do_fork`,
--     `copy_stack` and `schedule` of mpos-kern.c as functions of those names; `memcpy` of lib.c.
--     A trap is a step of the relation `Reach`; between two traps the processes change memory and
--     their registers in any way, but not the kernel's own data, and fork with a stack pointer in
--     their own stack: nothing isolates the processes, and a stack copied to or from elsewhere could
--     overwrite `proc_array`, which is kept apart from the memory here.
--   * weensyos2, SchedOS (Schedos and below): `start`, `interrupt` and `schedule` of schedos-kern.c
--     with the three scheduling algorithms; an interrupt is a step of the relation `Run`.
--   * lab3, OSPFS (Ospfs and below): the disk as a function from addresses of 32-bit words, laid out
--     as ospfs.h says; of ospfsmod.c the bit vectors and the free-block bitmap (Ospfs.Bitmap), the
--     block index (Ospfs.Index), the change of a file's size (Ospfs.Size), the directories (Ospfs.Dir),
--     `ospfs_follow_link` (Ospfs.Links), `ospfs_read` and `ospfs_write` (Ospfs.Files) and
--     `ospfs_dir_readdir` (Ospfs.Readdir), the last four over the disk as bytes (Ospfs.Bytes).
--   * lab2, the ramdisk (Osprd and below): the critical sections of `osprd_ioctl` and
--     `osprd_close_last` of osprd.c as functions on the device; their interleavings by any number of
--     agents, with the reads of CONDITION outside of the mutex one by one, as the step relation of
--     Osprd.System; and `osprd_process_request` (Osprd.Transfer).
--   * project1, the shell timetrash (Shell and below): the commands of command-internals.h
--     (Shell.Command); of main.c the dependency graph of the time-travel mode and its execution, as
--     the log of the forks and waits of the parent process (Shell.Graph); of execute-command.c all
--     functions, with the calls of the system as the record `Os`, where dup, dup2 and fork do not fail
--     (Shell.Execute); and of read-command.c `make_command`, which builds a command from tokens with
--     two stacks (Shell.Parse), and `tokenize`, `make_simple_command`, the checks of `validate` and the
--     way from the texts of a script to its commands (Shell.Read).
--
-- Numbers are native natural numbers, with the wrap-around of 32-bit words written out; a negative
-- C number is the pattern of its word. A pointer into an array is an index.
--
-- Loops without a bound in the source run on fuel. `next_runnable` has 16 rounds: after those it is
-- back where it began, and with no runnable process it finds none for any number of rounds. The same
-- holds for the 5 rounds of `next_ready` and `priority_loop` of SchedOS.
-- `fork_slot` has 17 rounds, one for each descriptor and one more. The loops of `change_size` have a
-- number of rounds as an argument, and more rounds than the new size has blocks are enough to grow.
-- A loop over a directory has a round for each entry and two more; `strlen` stops behind the length that
-- its result is compared with. A loop over `count` bytes of a file has `count / 1024 + 3` rounds, one
-- for each block that the bytes can touch and one more. `read_command` has a depth of parentheses as an
-- argument; a script without parentheses needs 1.
--
-- Not modelled: boot loaders, consoles, keyboards and interrupt tables (hardware), the calls of Linux
-- that lab2 and lab3 make for registration and bookkeeping, and the applications of the kernels;
-- `ospfs_notify_change` and `ospfs_dir_lookup` in lab3/ospfsmod.c; lab4; and of project1 the splitting of
-- a script into texts at empty lines (`makeSeparation`). The shell tests no index of an array. For a token
-- of 64 characters or more, for 128 tokens and for 100 texts, where the source writes behind the end, the
-- result is `none` or the verdict `overrun`. The memory got for a token is taken to be large enough, though
-- `make_token` asks for the size of a pointer; its arrays of names and commands in main.c, of 1024 places,
-- are lists without a bound.
pub mod Prelude
pub mod Miniproc
pub mod Ospfs
pub mod Osprd
pub mod Schedos
pub mod Shell
