-- ===== src/Lib.antt =====
-- Myria: a small x86-64 kernel. This library models the parts of os/kernel/ that hold its logic.
--
-- The frame allocator, os/kernel/mm/pmm_simple.c, is Pmm.antt: `Pmm` is the record of its static
-- variables and each function of the file has the name it has in C. Pmm/Stack, Pmm/Invariant,
-- Pmm/Balance, Pmm/Runs and Pmm/Session hold its invariant and what follows from it. Memory.antt is
-- physical memory, byte by byte, with the little-endian words that C code reads and writes and the
-- two loops that clear a frame. Frames.antt is the interface through which paging code uses the
-- frame allocator (`pmm_alloc_page` of os/kernel/include/myria/kapi.h); Frames/Simple shows that
-- pmm_simple.c implements it.
--
-- Bitmap.antt is os/kernel/mm/pmm.c, an earlier allocator with a bitmap, which the build does not link:
-- Bitmap/Bytes and Bitmap/Pages read the bytes as a set of pages, Bitmap/FirstFit and Bitmap/Free have
-- its operations.
--
-- Paging.antt has the page table macros that os/kernel/mm/vmm.c, user_as.c, user_mapping.c and
-- paging.c share. Its children have what is common to all walks: tables that form a tree
-- (Paging/Trees), the linking of fresh tables (Paging/Growth, Paging/Fresh, Paging/Machine), a walk
-- of three steps (Paging/Walk) and the writing of a last-level entry (Paging/Leaf). Vmm.antt is
-- os/kernel/mm/vmm.c over any frame allocator; `Vmm.vmm_map_page` and its neighbours have the names
-- of the C functions, `get_or_create` is the block that vmm_map_page repeats three times. A call
-- takes the machine, memory and allocator state together, and returns the new one.
--
-- UserAs.antt is os/kernel/mm/user_as.c, the address spaces for user mode; UserAs/Clone is about the
-- half that each shares with the kernel, UserAs/Refine about the mapping of user pages, UserAs/Process,
-- UserAs/Create and UserAs/Launch about `create_user_process`. UserMapping.antt is
-- os/kernel/mm/user_mapping.c, which maps user pages in the tables that CR3 names: UserMapping/Refine
-- has the mapping, UserMapping/UserBits, UserMapping/Large,
-- UserMapping/Fresh and UserMapping/Failure when it fails, UserMapping/Executable the change of a code page, UserMapping/Space and
-- UserMapping/Protection the whole set-up, UserMapping/Copy the copy of the code. Vmm/Descend,
-- Vmm/Refusal and Vmm/Three carry the walks, the reasons for which they stop and the sequences of
-- three mappings of all these files.
--
-- KernelPages.antt is os/kernel/mm/paging.c: the walk down to a leaf of any size, the loop that makes
-- the kernel's writable sections writable (KernelPages/Walks, KernelPages/Sections) and the clearing of
-- .bss (KernelPages/Bss). Its walks need no well-formed tree.
--
-- Klog.antt is os/kernel/util/klog.c, whose serial functions os/kernel/util/serial.c repeats: the
-- serial port is the list of bytes sent, format strings are bytes of memory and the variable
-- arguments 64-bit slots. Klog/Numbers is about `kprint_uint`, Klog/Strings about strings,
-- Klog/Formats about `kprintf`.
--
-- Threads.antt is os/kernel/sched/thread.c: control blocks in a store, linked both ways into the ready
-- queue. Threads/Segments has segments of such queues, Threads/Queues the queue as a list,
-- Threads/Turns, Threads/Ticks, Threads/Table and Threads/Spawn the yields, ticks, the thread table and
-- creations. A use of NULL is a
-- fault, `none`.
--
-- Heap.antt is kmalloc and kfree of os/kernel/mm/vmm.c. Sched.antt is
-- os/kernel/sched/thread_minimal.c, with its types and initialisation in Sched/State and
-- `thread_create` in Sched/Create, whose outcomes are in Sched/Search, Sched/Names and Sched/Slots; thread
-- functions are a parameter, as is the address of
-- `thread_wrapper`. Syscall.antt is os/kernel/syscall/syscalls.c on the scheduler and the heap; a
-- call returns a word or halts the processor. Gdt.antt is os/kernel/arch/x86_64/gdt.c and msr.c,
-- Idt.antt is os/kernel/arch/x86_64/idt_minimal.c; the addresses of static objects and of assembly
-- stubs are parameters, and what the processor reads from descriptors and gates is written down
-- independently in their children.
--
-- The abstract view of a table tree is the function `lookup` from addresses to entries, as the
-- processor walks the tables. The theorems on mapping assume a well-formed tree, `Tree`: tables are
-- page-aligned, reached by one path only, not free, and every present entry above the last level
-- leads to one; a predicate `slot` says which of the 512 top-level entries belong to the tree, so that the
-- kernel's boot-time mappings with large pages may stand beside it. The operations keep it.
--
-- Loops over a C counter recurse on the number of rounds left, which the caller gives exactly, so
-- no fuel can run out. Other loops run on fuel, with `none` at its end: 64 rounds for the digits of a
-- word, the number of pages for the loop over sections, the number of 4 KB chunks for .bss; theorems
-- show that these are enough. Only for strings the caller names the fuel, which has to exceed their
-- length. Numbers are natural numbers with the wrap-around of the C type written out
-- (`u8`, `u32`, `u64`).
--
-- Pointers to tables stand for the physical addresses behind the linear window
-- (`phys + KERNEL_VMA_BASE`). Log output, TLB flushes and the bits that hardware sets in entries
-- are not modelled, nor are the files that only drive devices or print. Not modelled:
-- os/kernel/arch/x86_64/gdt_idt.c, which the build does not link; the smaller variants and the boot-time tests; device registers; kmain.c and user_init.c, which call
-- the other parts in order.
pub mod Base
pub mod Pmm
pub mod Memory
pub mod Frames
pub mod Paging
pub mod Vmm
pub mod Bitmap
pub mod Gdt
pub mod Heap
pub mod Idt
pub mod KernelPages
pub mod Klog
pub mod Sched
pub mod Syscall
pub mod Threads
pub mod UserAs
pub mod UserMapping
