-- ===== src/Lib.antt =====
-- A model of the kernel of LinuxOS/student-distrib, a small operating system for 32-bit x86 with
-- three terminals, a read-only file system and up to six processes, and the theorems that make it
-- correct.
--
-- The kernel is booted by LinuxOS/student-distrib/kernel.c, which initialises the interrupt
-- controller, the interrupt table, the clock, the keyboard, paging and the timer, and starts the
-- first shell. From then on interrupts drive it: the keyboard handler edits a line per terminal,
-- echoes it and opens the other terminals, the timer's handler switches between the terminals in
-- use, the terminal driver hands finished lines to programs and prints what they write, and
-- programs read files and the directory of the boot image, start other programs and end.
--
-- Strings, Memory and Printf model the functions of lib.c on strings, on memory (with the children
-- Sets, Copies and Moves) and printf. FileSystem models filesys.c: the boot image with its
-- directory, inodes and data blocks, and the functions that look up names and read bytes; its
-- children are Valid (well-formed images), Lookup (names), Read (bytes), Bytes (the bytes of a
-- file), Found (a name that the directory has), Boundary and Ends (block and file ends), Total (no
-- access outside the image) and Listing (the directory). Paging models paging.c, with map_memory
-- and vidmap of sysCalls.c. Console models the screens of lib.c, Keyboard the flags and lines of
-- keyboard.c, Pic models i8259.c, Rtc models rtc.c, Terminal models terminal.c and Idt models
-- idt.c, with the child Expected for what the vectors are for and Gates for the gates.
--
-- Process models the control blocks and descriptors of sysCalls.c, with sys_open, sys_close,
-- sys_read, sys_write, getargs, read_f and read_d; its children are Pids, Slots (single
-- descriptors), Descriptors, Reads and Tree (parents and the processes in front of the terminals).
-- Machine is the state of the whole kernel, which is what the remaining modules act on: Command
-- (how execute_terminal takes a command line apart), Execute (check_executable, set_prog_eip,
-- execute_terminal and sys_execute; its children are Refused, Loads, Starts and Outcomes), Halt
-- (sys_halt), Drivers (sys_read and sys_write with the drivers they reach), Scheduler
-- (scheduler.c, with the children Turns and Switch) and Interrupts (keyboard_handler). Lifecycle
-- puts the calls and the interrupts together as the steps of one relation on machines; its
-- children are Blocks, Calls, Interrupts, Keys and Boot. Base has the shared helpers: tests and
-- conditionals, faults as Option, lists, arrays as functions, and integers over the native
-- numbers. Examples runs the code on concrete inputs.
--
-- User models the programs of LinuxOS/syscalls that run on the kernel: Support is ece391support.c,
-- Programs has cat, ls, hello, testprint, counter and shell, and Errors is syserr, the program
-- that tests how the kernel refuses calls. They take the system calls as a record, whose
-- operations User.Kernel fills with the calls of the modelled kernel behind systemCallHandler.S.
-- Copies says what cat and ls rely on and what they then print; Descriptors, Files, Names and
-- Directory show that the kernel keeps it for files and for the directory, CatFile, CatName and
-- Directory what follows for the two programs, and Refusals and Unopened what the kernel answers
-- to the tests of syserr. Agree compares ece391support.c with lib.c.
--
-- A function of the source has its name in the model. Globals are the fields of a record that the
-- function takes and returns; an out-parameter is returned next to the result. Two-dimensional
-- arrays such as kb_buffer are flat, with the terminal's number times the row's size as the
-- offset, so that a write past a row is seen in the next one. An access outside a whole array or a
-- string is a fault, which is none; terminal_write makes one behind the last row of term_buffer.
-- A port write is an entry of a list, the value and the port.
-- 32-bit arithmetic is written out with its modulus where it can wrap. putc and putc_display are
-- one body each, for a cursor and the address of a screen, since the source repeats the body for
-- the two cases. Code that leaves for user code or for another stack has an Outcome: the address
-- or the registers that the processor goes on with. What uninitialised local variables hold, what
-- a port reads, the memory behind a string, the words of a variadic call and the addresses that
-- the linker chooses are arguments.
--
-- Loops are structural recursion on the rounds that the source's bound allows: 63 directory
-- entries, six descriptors, six pids, three terminals, the count of a read, a set or a copy, the
-- 2000 cells of a screen. The search of pit_handler for a terminal in use has three rounds, after
-- which it would begin again, and is none there. The loops of terminal_read and rtc_read wait for
-- an interrupt, and take the interrupts to come as a list; when it ends without the awaited one
-- the result is none.
--
-- The loops of cat, ls and shell have rounds as an argument, and a program that has used them up
-- is still running; the theorems give a number of rounds after which cat and ls have ended. itoa
-- has 33 rounds, one more than a 32-bit number has digits in base 2.
--
-- Not modelled: the assembly entry points but the comparisons of the system calls, the boot code
-- of kernel.c before the first shell, the hand-run tests, the demo in LinuxOS/fish, and the
-- programs grep, pingpong, sigtest and emulate. The instructions cli and sti, the loading of the
-- page directory and the flush of the address cache have no effect on the modelled state, and the
-- stacks of the processes are known by their registers only. A program that execute runs for
-- another program is a parameter.
pub mod Base
pub mod Strings
pub mod Memory
pub mod FileSystem
pub mod Paging
pub mod Console
pub mod Printf
pub mod Idt
pub mod Keyboard
pub mod Pic
pub mod Rtc
pub mod Terminal
pub mod Process
pub mod Machine
pub mod Command
pub mod Drivers
pub mod Execute
pub mod Halt
pub mod Scheduler
pub mod Interrupts
pub mod Lifecycle
pub mod Boot
pub mod User
pub mod Examples
