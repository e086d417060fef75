-- ===== src/Lib.antt =====
-- zuzu is a microkernel for ARM with its user services. Spaces hold address spaces and handle tables,
-- tasks run in spaces and block on ports and events, and services such as netd talk to drivers over
-- rings in shared memory. This library models parts of the kernel, of netd and of the file
-- service fsd as functions on explicit states and proves what they promise.
--
-- Parts, and the files that model them (paths from the root of the repository):
--   Base      tests, lists as C arrays and the bits of a machine word; used by all other modules.
--   Bitmap    include/bitmap.h: BitmapTest is `test`, BitmapSet `put`, BitmapClr `clr`,
--             BitmapFindFirstZero `find_first_zero`. The word width is a parameter, 32 in the kernel.
--   Klib      klib/bsearch.c: `bsearch` over a comparator given as a function of the index. klib/string.c
--             in Str, Digits and Fmt, klib/snprintf.c in Fmt/Bounded and klib/mem.c in Mem, one function
--             for each of theirs. A C string is the list of its characters before the NUL. vstrfmt is
--             `vstrfmt`: a format and a list of arguments to the characters that it emits; its parser is
--             in Fmt/Directive, its integer and text fields in Fmt/Field, %f, %e and %g in Fmt/Double.
--             Doubles are a parameter, since their arithmetic is the compiler's.
--   Vmm       kernel/mm/vmm/vmm_region.c: an AddressSpace is the list of its regions and the capacity
--             of their vector; VmmAddRegion is `add_region`, VmmFindRegion `find_region`,
--             VmmFindFreeVa `find_free_va`, VmmRemoveRegion `remove_region`, VmmRegionProt
--             `region_prot`, VmmRegionLimitProt `region_limit_prot`. The lookups go through Klib. A
--             valid list is sorted and free of overlaps, and its regions are not empty and end a page
--             before the end of the address space or earlier, so that no end wraps.
--   Pmm       kernel/mm/pmm: the frame allocator with its bitmap, the free list through the frames as two
--             functions of the address, and the pressure signals. PmmAllocFrame is `alloc_frame`,
--             PmmFreeFrame `free_frame`, PmmMarkRange `mark_range`, PmmUnmarkRange `unmark_range`,
--             PmmAllocFramesContig `alloc_frames_contig`, PmmAllocFramesContigAligned
--             `alloc_frames_contig_aligned`, PmmAllocFramesScattered `alloc_frames_scattered`. In a
--             consistent state the free list holds the frames with a clear bit, each once.
--   Handle    kernel/space/handle.h and handle.c: a HandleTable is its sixteen blocks of 64 entries and
--             its bitmap; HandleTableLookup is `lookup`, HandleCopyInto `copy_into`, HandleRelease
--             `release`. The bitmap's search is Bitmap's. A consistent table has a bit set exactly for
--             each live entry.
--   Sched     kernel/sched/sched.c: the run queues as lists of task numbers, the ready mask and the
--             wait queues; SchedEnqueue is `enqueue`, SchedPickNext `pick_next`, SchedRemoveRunQueue
--             `remove_run_queue`, SchedAnyCpuTakers `any_takers`, SchedWaitQueueAdd and
--             SchedWaitQueueAddTask `wait_queue_add`. A consistent state has a mask bit set exactly for
--             each level with a task, and a task stands in one queue at most, once.
--   Space     kernel/space/space.c: SpidAlloc is `spid_alloc`, over the cursor and the table of spaces.
--   Mmu       arch/arm/mmu/asid.c: AsidAlloc is `asid_alloc`, AsidFree `asid_free`; the bitmaps are
--             Bitmap's with bytes for words. A state keeps ASID 0 back where its bit is set or the
--             cursor is not 0.
--   Ipc       kernel/ipc/event.c: EventTake is `event_take`, EventBindBit `bind_bit`, EventUnbindBit
--             `unbind_bit`.
--             kernel/ipc/msg.c and port.c, the calls of kernel/svc and the parts of kernel/task/task.c and
--             kernel/sched/sched.c that they use are in Ipc/Calls: SvcCall is `svc_call`, PortReceive
--             `port_receive`, SvcReply `svc_reply`, SvcHold `svc_hold`, PortHoldCurrent
--             `port_hold_current`, PortTakeHeld `port_take_held`, PortKill `port_kill`, TaskCancelCall
--             `cancel_call`, SchedWakeTimedOut `wake_timed_out`. Tasks, ports and spaces are numbers, and a
--             state holds what each stands for; a granted handle goes through Handle's tables. Ipc/Links
--             is about the place of each caller, Ipc/Receivers about the tasks that wait to receive,
--             Ipc/Tickets about the tickets of held calls, and Ipc/Interleaving about the operations in
--             any order; the end of a task is not one of them.
--   Shm       include/zuzu/shm_ring.c: ShmRingPush is `ring_push`, ShmRingPop `ring_pop`, ShmRingWriteAt
--             `write_at`, ShmRingReadAt `read_at`. The counters are words of 32 bits, and the size, a
--             power of two, divides their range.
--   Fsd       user/services/fsd/tables.c: FileOpen is `file_open`, FileGet `file_get`, FileClose
--             `file_close`, ClientRegister `client_register`, ClientFind `client_find`, ClientDrop
--             `client_drop`, ClientsReapDead `clients_reap_dead`.
--   Net       include/net/packetring.c in Net/Frames and user/services/netd/transport/port.c in
--             Net/Ports, one function for each of theirs.
--
-- State and calls: a call that leaves the modelled part (page tables, object destructors, the slice
-- timer) is recorded in a list of calls, in the order of the code. Memory that an allocation asks for
-- may be refused: the answer is an argument `memory`. Machine words are natural numbers with the
-- wrap-around written out; a null pointer or -1 is `none`.
--
-- Bounds and fuel: the loop of `bsearch` has as much fuel as there are elements and one round more,
-- which is enough since each round shortens the range; so has the search in `add_region`. The loops
-- over the slots of a handle table, the levels of the scheduler, the ASIDs and the ephemeral ports are
-- recursions on the number of turns that the code makes; so are those over the queues of a port, its
-- slots for held calls and the tables of fsd. The scan for a space ID has 1024 rounds, of which 512 are
-- enough where the cursor does not wrap. bsearch is about fewer than 2^31 elements, so that `lo + hi`
-- does not wrap. vstrfmt has a turn for each character of its format and one more, which is enough by
-- Fmt/Fuel; utoa_ull has 64 turns, one for each bit. The loops that scale a double have as many turns
-- as a bound on its exponent, a field of the parameter. A loop that would go on beyond its turns is an
-- outcome of its own, `out_of_fuel`, and Fmt/Scale is about the arithmetic that rules it out. `p + 1`
-- of %e for the precision INT_MAX, which overflows, is undefined behaviour in the model.
--
-- Not modelled: page tables and interrupts, the creation and the last release of a port, the end of a
-- task, priority inheritance, observers, the sleep wheel, the kernel heap, TCP
-- and the other services, drivers, the shell and applications; and libfdt, kconfiglib and FatFs,
-- which are copies of other projects. Memory barriers and concurrent access are not modelled either.
pub mod Base
pub mod Bitmap
pub mod Klib
pub mod Vmm
pub mod Pmm
pub mod Handle
pub mod Sched
pub mod Space
pub mod Mmu
pub mod Shm
pub mod Ipc
pub mod Fsd
pub mod Net
