-- ===== src/Lib.antt =====
-- COCONUT-SVSM: a model of parts of the kernel, the secure VM service module that runs below a guest
-- operating system in a confidential virtual machine.
--
-- Parts and files. `Util` and `Address` are the arithmetic that everything else uses: rounding and
-- page sizes (kernel/src/utils/util.rs, kernel/src/types.rs) and physical and virtual addresses
-- (kernel/src/address.rs). `MemoryRegion` is a range of addresses over either kind of address
-- (kernel/src/utils/memory_region.rs). `Bitmap` is the bitmap allocator
-- (kernel/src/utils/bitmap_allocator.rs): `Bitmap/Interface` is the trait `BitmapAllocator` with the
-- contract that its users rely on, `Bitmap/Word` and `Bitmap/Tree` are the two implementations with
-- proofs of the contract, and `Bitmap/Alloc` is `alloc_aligned`, which knows the trait only.
-- `VirtualRange` hands out virtual pages from a tree of 1024 entries
-- (kernel/src/mm/virtualrange.rs). `PageAlloc` is the page allocator (kernel/src/mm/alloc.rs). The
-- parent has the 64-bit word that is kept for a page; `PageAlloc/Region` is a `HeapMemoryRegion`
-- with its addresses, its counts and the words of its pages, `PageAlloc/Take` allocates (taking the
-- first block of a list, splitting, refilling) and `PageAlloc/Give` frees (taking a given block off
-- its list, merging, the counts of file pages) and sets a region up. `PageAlloc/Lists` has the
-- invariant: the free lists are chains through the words of the pages, without a page twice, with
-- counts that agree. `Allocating`, `Choosing`, `Returning`, `FilePages` and `Setup` there have what
-- the operations do to it, and `Total` how many pages are free. `Locking` has the ticket lock
-- (kernel/src/locking/spinlock.rs, in `Locking/SpinLock`) and the reader-writer lock
-- (kernel/src/locking/rwlock.rs, in `Locking/RwLock`): the place of each thread in the code, a step
-- for each access to a shared word, and the systems that steps lead to; `Locking/SpinRuns` has the
-- runs of the ticket lock under a schedule, and when one is fair. `IrqState` is the nesting of
-- disabled interrupts and the task priority of a CPU (kernel/src/cpu/irq_state.rs). `Apic` is the
-- local APIC that is emulated for the guest (kernel/src/cpu/apic.rs), with the part of
-- `PerCpuShared` that carries inter-processor interrupts (kernel/src/cpu/percpu.rs), the calling
-- area (kernel/src/requests.rs), the doorbell page (kernel/src/sev/hv_doorbell.rs) and the guest CPU
-- as an interface (kernel/src/platform/guest_cpu.rs). `Base` and `Bits` are shared helpers: numbers,
-- lists, runs that may panic, and the bits of numbers.
--
-- State and operations. A structure is a record with the names of its fields, and a method is a
-- function of the same name that takes the record and returns the new one. A machine word is a
-- number, and an operation that can leave the word writes out `% 2 ^ 64`. `Util` and `Address` wrap
-- as the release build does; `Bitmap` uses exact sums and its assertions refuse what would not fit.
-- A panic (`assert!`, `unwrap`, an index out of range) is `Run.panic`; `Option` and `Result` are
-- values. The words of the pages of a region are a function of the page's number, which an operation
-- that leaves the region panics on.
--
-- Bounds and fuel. The search of `alloc_aligned` runs on fuel that its theorem proves to be enough;
-- `signal_several_interrupts` runs on 32 rounds, one for each bit of a word, and panics if they are
-- not enough, which its theorem excludes, and the loops over the children of a tree run over the 16
-- children. The walk along a free list has one round more than the region has pages, and merging has
-- one round for each of the 6 orders; both are proved to be enough. A bitmap has at most 2^63
-- entries and a region fewer than 2^52 - 1 pages. The tickets of a spin lock are distinct for fewer
-- than 2^64 steps, and the halves of the word of a reader-writer lock hold the counts of fewer than
-- 2^32 - 1 threads.
--
-- Outside the model. In `Apic`, `disable_apic_emulation` and the composition of
-- `present_interrupts`: `consume_host_interrupts`, `receive_ipis` and `present_update` are its
-- parts. The hypervisor's stores to the doorbell status between two accesses are an argument; the
-- guest CPU is any implementation of the trait, and whether the host takes a specific EOI is a
-- parameter. In `VirtualRange`, the per-CPU ranges of `VRangeAlloc`. In `PageAlloc`, the slabs, the
-- references to pages, and the functions that take the lock of the global region and zero what they
-- return. In `Locking`, the memory ordering, as each access is one step, the data behind a lock, and
-- the interrupts that it may keep off while it is held. In `IrqState`, the guards, and the event
-- that the hypervisor may send as interrupts are enabled. In `Address` and `Util`, pointers, slices
-- and raw memory. Page tables, file systems, tasks, protocols, devices, boot code and tools are not
-- modelled.
pub mod Base
pub mod Bits
pub mod Util
pub mod Address
pub mod MemoryRegion
pub mod Bitmap
pub mod VirtualRange
pub mod Apic
pub mod IrqState
pub mod Locking
pub mod PageAlloc
