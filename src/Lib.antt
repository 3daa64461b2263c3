-- ===== src/Lib.antt =====
-- LiebeOS: the kernel's memory, files, programs, interrupts, disk, keyboard and terminal.
--
-- The kernel is a 32-bit one for the x86. Its allocator (src/memory/heap) hands out blocks of 4096
-- bytes; page tables (src/memory/paging) and processes take their memory from it. fopen
-- (src/fs/file.c) parses a path (src/fs/pparser.c), finds the disk (src/disk/disk.c) and calls the
-- functions of its filesystem, which is FAT16 (src/fs/fat/fat16.c), which reads the disk through
-- streams of bytes (src/disk/streamer.c). A program is loaded from a file (src/loader/formats,
-- src/task/process.c) and runs as a task (src/task/task.c), which calls the kernel by an interrupt
-- (src/idt, src/isr80h). The keyboard's interrupt (src/keyboard) pushes characters into the buffer
-- of the current process, and programs print to the terminal (src/kernel/kernel.c).
--
-- * Prelude holds the Boolean tests on numbers, lists with numbers as indices, int results
--   (status.h), functions as memory, and bits.
-- * Heap is heap.c: create, malloc and free with their loops. The table is a function on all
--   indices and the table's size, so that a write behind the table is an update like any other, and
--   one before it changes the bytes below it, which are another function. Heap.Scan is about the
--   search, Heap.Mark about the loops that mark, Heap.Alloc about malloc and free together,
--   Heap.Sound about the invariant and what goes wrong without it. Heap.Kernel is kheap.c.
-- * Paging is paging.c. Memory is a function from addresses to 32-bit words. Paging.Map,
--   Paging.Range and Paging.Region are about the tables as a map; Paging.Fill, Paging.Fresh and
--   Paging.Identity are about the directory that create_new_page_directory makes, with Heap.Single
--   about allocations of one block after another; Paging.Freeing and Paging.Release are about its
--   end by paging_free_4gb, with Heap.Lent about blocks that are freed in another order than they
--   were taken.
-- * Memory and Text are memory.c and string.c, with Memory.Blocks, Text.Compare and Text.Copy about
--   them.
-- * PathParser is pparser.c, and PathParser.RoundTrip is about the parts of a joined path.
-- * Disk is disk.c and streamer.c. The streams take the block read as a parameter; Disk.Reads
--   states what they deliver where every sector can be read. Disk.Controller is disk_read_sector
--   over the ports of the controller, which are a parameter; Disk.Controller.Ata names what a drive
--   documents of them (IsAta); Disk.Controller.Words and Disk.Controller.Sectors are about the
--   loops and the whole read.
-- * Fat16 is the lookup and the reading of clusters, Fat16.Directory directories and names,
--   Fat16.Files the functions that the file layer calls. Fat16.Chain, Fat16.Delivered and
--   Fat16.Content are about the reads.
-- * File is file.c, over any type of state on which the filesystems' functions work.
--   File.Descriptors and File.Open are about the table of descriptors. File.Mount is
--   disk_search_and_init, with the filesystem that the disk gets.
-- * Interrupts is idt.c (src/idt): the gates, the callbacks and the dispatch of system calls;
--   Interrupts.Syscalls is the commands of src/isr80h. Interrupts.Gates is about the tables after
--   the start, Interrupts.Dispatch about which command a number calls, and Interrupts.Returns and
--   Interrupts.Handlers about the page directory that a handler leaves loaded.
-- * Start is kernel_main (src/kernel/kernel.c), in the steps that it takes; Start.Setup is about
--   the state in which it loads the first program, Start.Leaves about its end. What the mount of
--   the disk leaves of the kernel's heap is a parameter, which may say that it never comes back.
--   Gdt.Kernel is the table of segments.
-- * Stdlib is the library of the programs (programs/stdlib/src): itoa, which Stdlib.Decimal reads
--   back; Stdlib.Readline the lines from the keyboard, against an editor of lists in
--   Stdlib.Readline.Edit, with Stdlib.Readline.Store and Stdlib.Readline.Read about them;
--   Stdlib.Strtok the tokens, with Stdlib.Strtok.Token about its loops, Stdlib.Strtok.Quoted about
--   tokens and quotes, and Stdlib.Strtok.Plain about texts without quotes; Stdlib.Command the
--   commands, with Stdlib.Command.Plain about those without quotes; Stdlib.Printf printf, with
--   Stdlib.Printf.Format about the texts of formats. The calls of the kernel are parameters there:
--   the values that getkey returns, as chars, are a list, and malloc is a function of the number of
--   the call. Programs is the shell (programs/shell) and echo (programs/echo); Programs.Shell is
--   about a round of the shell, from the keys to the arguments.
-- * Keyboard is keyboard.c and classic.c, Keyboard.Queue the buffer as a queue. Terminal is the
--   part of kernel.c that prints. Gdt is gdt.c, and Gdt.Decode reads an entry back as the processor
--   does.
-- * Task is the list of tasks of task.c (src/task), the switches between them and their saved
--   registers, and Task.Copy the copy of a text out of a task's memory. Task.Chain and Task.Removal
--   are about the list as a chain of pointers both ways, Task.Rounds about the turns that task_next
--   gives, and Task.Texts about the copy.
-- * Elf is elf.h and elfloader.c (src/loader/formats): the headers as they lie in memory, the
--   checks of them and the span of the segments; Elf.Load is elf_load over the file layer and the
--   heap. Elf.Span, Elf.Widen and Elf.Segments are about the span, Elf.Valid about the checks, and
--   Elf.Leak about the blocks that a failed load keeps.
-- * Process is process.c (src/task). Process itself holds the allocations of a process,
--   Process.Program what the kernel keeps of a process with its slots, Process.Mapping the pages of
--   a program, Process.Load the loading, Process.Arguments the arguments, and Process.End the
--   termination. Process.Calls and Process.Ownership are about the allocations, Process.Image about
--   the memory that a program finds, Process.Entering, Process.Slots and Process.Unlink about the
--   slots, and Process.Counting about the count of arguments.
--
-- Unsigned 32-bit arithmetic wraps where the code's does. An int that is a count or an index is a
-- natural number, and one that is negative has a case of its own. The position of a stream and the
-- sector of a cluster are the 32 bits of an int; reads at a negative position are not modelled.
-- Loops over a range take the number of rounds that are left; the loop of diskstreamer_read has
-- fuel for one round for each sector and one more, which is enough on every input, and the reads of
-- clusters have fuel for one call for each byte; that of itoa has fuel for ten digits, which is
-- enough for every int, and that of a line one round for each value of getkey and one more. The
-- waits for the disk take fuel that is an argument, which is enough above the count of reads after
-- which the drive is ready, and so do strtok and printf. strlen and strcpy take fuel that is an
-- argument, as do the count of a directory's items and that of a process's arguments, which need
-- not end.
--
-- The bytes of memory and the words of page directories and tables are two functions of the
-- address, and tasks, processes and the structures of ELF files are records at an address: that a
-- program's data, a table and a structure do not overlap is what the heap gives, and is not read
-- back from the bytes. A handler of the kernel returns, leaves for user mode, or stops in a panic.
--
-- Not modelled: assembly and what it loads into the processor, and the functions of the programs'
-- library that repeat the kernel's or only call it. The buffer of a path's part is not memory: the
-- parser tells whether a part overran it. Allocations of small objects in the parsers and the
-- filesystem are taken to succeed there, and freeing these objects is left out.
pub mod Prelude
pub mod Disk
pub mod Elf
pub mod Fat16
pub mod File
pub mod Gdt
pub mod Heap
pub mod Interrupts
pub mod Keyboard
pub mod Memory
pub mod Paging
pub mod PathParser
pub mod Process
pub mod Programs
pub mod Start
pub mod Stdlib
pub mod Task
pub mod Terminal
pub mod Text
