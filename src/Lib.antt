-- ===== src/Lib.antt =====
-- The JOS kernel of jos-lab4, the last of the labs in the repository: its boot loader, memory,
-- environments, scheduler, traps, system calls, lock and console, and the part of its library that
-- programs build on: strings, formats, line input and fork.
--
-- The kernel is a set of C functions on global arrays: `pages` (one PageInfo for each physical page,
-- the free ones linked into a list), page directories and page tables that live in physical pages,
-- and `envs` (1024 environments). kern/pmap.c hands out pages and edits page tables; kern/env.c
-- builds environments and their address spaces from them; kern/sched.c chooses the environment that
-- runs next; kern/syscall.c lets an environment act on itself, on its children, and send messages;
-- kern/trap.c brings every system call, page fault and interrupt to them, under one lock.
-- lib/string.c, lib/printfmt.c and lib/readline.c are linked into the kernel; the programs have the first
-- two, and lib/fork.c, which builds copy-on-write fork from system calls.
--
-- Files, with the code that each models (paths below jos-lab4):
--   Machine        inc/mmu.h, inc/memlayout.h, inc/types.h, inc/env.h: constants and address macros;
--                  Machine/Laws: the bits of a page table entry.
--   Kernel         the structs (inc/memlayout.h, inc/trap.h, inc/env.h, kern/cpu.h), the globals as
--                  one record `Kernel`, and the commands: a function of the kernel is a `Cmd`, which
--                  returns a value and a state, or leaves the kernel (panic, iret, halt, monitor).
--   Pages          kern/pmap.c: page_init, page_alloc, page_free, page_decref; kern/pmap.h.
--                  Pages/FreeList: the free list as a list; Pages/Alloc, Pages/Init.
--   Vm             kern/pmap.c: pgdir_walk, boot_map_region, page_lookup, page_remove, page_insert,
--                  tlb_invalidate, mmio_map_region, user_mem_check, check_va2pa. Vm/Space: a directory
--                  as a map from addresses to entries (`entry_of`) and what makes it sound (`Space`);
--                  Vm/Walk, Vm/Remove, Vm/Unmap, Vm/Insert, Vm/Mapping, Vm/Replace, Vm/Regions,
--                  Vm/Access; Vm/Separate: two directories whose tables below UTOP are apart;
--                  Vm/Contents: a write to a page of data.
--   Envs           kern/env.c: envid2env, env_init, env_setup_vm, env_alloc, region_alloc, env_free.
--                  Envs/Ids, Envs/Lookup, Envs/Boot, Envs/Create.
--   Sched          kern/env.c: env_run, env_pop_tf, env_destroy; kern/sched.c; user_mem_assert.
--                  Sched/Probe: the search for a runnable environment; Sched/Yield.
--   Syscalls       kern/syscall.c, all calls and the dispatcher. Syscalls/Status, Syscalls/Memory,
--                  Syscalls/Fork, Syscalls/Ipc, Syscalls/Mapping.
--   User           lib/syscall.c, lib/pgfault.c and lib/fork.c: the system calls as a program makes them,
--                  duppage, fork and pgfault. User/Sharing: duppage; User/Copying, User/Fault,
--                  User/Private and User/Handling: pgfault; User/Printf: lib/printf.c.
--   UserMemory     a store of the kernel through a user address, byte by byte, into physical pages.
--   Traps          kern/trap.c: trap, trap_dispatch, page_fault_handler; kern/spinlock.h, lock_kernel.
--                  Traps/Timer, Traps/Return, Traps/Upcall.
--   Loader         kern/env.c: load_icode, env_create; inc/elf.h. Loader/Segments.
--   Boot           kern/pmap.c: i386_detect_memory, boot_alloc, mem_init, mem_init_mp.
--                  Boot/Allocator, Boot/Stacks, Boot/Mappings.
--   Locks          kern/spinlock.c on several CPUs, one access to the lock a step. Locks/Exclusion.
--   Console        kern/console.c: cons_intr, cons_getc. Console/Queue.
--   Debug          kern/kdebug.c: stab_binsearch. Debug/Search, Debug/Bracket.
--   Display        kern/console.c: cons_putc, cga_putc. Display/Screen.
--   Readline       lib/readline.c. Readline/Editing.
--   Multiprocessor kern/mpconfig.c. Multiprocessor/Search, Multiprocessor/Entries and
--                  Multiprocessor/Processors.
--   BootLoader     boot/main.c. BootLoader/Sectors.
--   EntryTables    kern/entrypgdir.c.
--   Strings        lib/string.c. Strings/Terminated, Strings/Copying, Strings/Comparing,
--                  Strings/Blocks.
--   Numbers        lib/string.c, strtol, and lib/printfmt.c, printnum. Numbers/Digits, Numbers/RoundTrip.
--   Format         lib/printfmt.c: vprintfmt, vsnprintf. Format/Pieces, Format/Rendering, Format/Buffer.
--   Base           tests, updates, lists and bits that the parts share.
--   Examples       machines of sixteen pages, on which the results are applied.
--
-- State: a pointer into `pages` or `envs` is an index, NULL is `none`; a page table is the number of
-- its physical page, and `mem n i` is word `i` of page `n`. Words have 32 bits and wrap around, a
-- reference count has 16. The state is what one CPU sees while it holds the big kernel lock, so that
-- system calls are sequences of commands; the lock is a flag that is set by a trap and cleared on the
-- way to user mode. Only Locks has several CPUs. The C library works on a memory of bytes of its own.
--
-- Loops: each is recursion on the number of rounds left, which the code computes before it starts
-- (pages in a range, slots of an array, bytes of a block), so that no fuel is chosen. Only the loops
-- that end at a NUL or a character and the search in the debugging tables take fuel and return `none` without
-- it; a string's length and one are enough, a region's length and two, and 64 for the digits of a number. The spinning of spin_lock is a step that leaves its
-- CPU where it is.
--
-- Not modelled: start-up code, the monitor, the keyboard, the local APIC and the other devices, the
-- trap entry and the descriptor tables, ipc_send and ipc_recv of the library, and the user programs.
-- What the code reads from there is an argument: the key of cons_getc in `syscall`, what
-- the drivers deliver in `cons_getc` and `readline`, the disk's sectors, the bytes of low memory, the registers and the monitor in `Inputs`, the linker's
-- addresses and the CMOS bytes in `Image`, the bytes of the programs that are linked into the
-- kernel, and the addresses of printfmt.c's own strings in `Texts`.
pub mod Base
pub mod Machine
pub mod Kernel
pub mod Pages
pub mod Vm
pub mod UserMemory
pub mod Envs
pub mod Boot
pub mod Sched
pub mod Syscalls
pub mod Traps
pub mod Locks
pub mod Strings
pub mod Examples
pub mod Numbers
pub mod Format
pub mod Loader
pub mod Console
pub mod User
pub mod Readline
pub mod Multiprocessor
pub mod Debug
pub mod Display
pub mod BootLoader
pub mod EntryTables
