-- ===== src/Lib.antt =====
-- Verification library of the 2kOS kernel: models of the kernel's C code under Kernel/Source, and
-- theorems about them.
--
-- Conventions. A C function is a function of the same name in snake case, without the prefix that
-- its file gives all its functions. A function that writes through a pointer or to a static
-- object takes the state and returns the new one. Integers are natural numbers with the
-- wrap-around of the C type written out (% 2 ^ 32, % 2 ^ 64). A C array is a list. A counted loop
-- whose body may break or return is for_loop (Prelude/Loops), so that every loop ends by
-- construction; its rule carries an invariant through all the ways to leave it. A spin lock that
-- is held for the whole of a call makes the call one step.
--
-- Parts:
--
--   Prelude: shared names, tests on numbers, arrays, bits of bytes and words, masks, counting.
--   Mem/Bitmap and Mem/PhysAlloc: Kernel/Source/Mem/PhysAlloc.c, the bitmap allocator of physical
--     pages. Pages has the well-formedness of the bitmap and its count; Search the three searches
--     for free runs; Ops the allocations, releases and reservations; Aligned the allocations of
--     an aligned range, Carve is about the one below a limit, Attempts has
--     PhysAllocAllocateAligned with its 16 attempts; Start has PhysAllocInit, whose parameters
--     are the memory map, the offset of the direct map and the addresses of the kernel: Loops and
--     Fills are about its loops over pages, Area about the place of the bitmap, Extent about the
--     area that is found, Map and Free about the pages that are free at the end.
--   Mem/LowMem: Kernel/Source/Mem/LowMem.c, the bump allocator for legacy DMA below 16 MiB.
--   Mem/Heap: Kernel/Source/Mem/Allocator.c, the heap, a list of blocks with headers. Tiling is
--     about the list of the blocks of one region, Requests about MemoryAllocate and Freeing about
--     MemoryFree; what stands in front of a pointer where no block does is a parameter; Api has
--     the other functions, Account what the statistics add up to; Aligned has the aligned
--     variants and, in Blocks, what becomes of a block of theirs; a free that clears bytes
--     outside of its block is an outcome of its own, behind which nothing is modelled. The loop
--     of MemoryAllocate runs on fuel of two rounds, since a block that has been added for a
--     request fits it.
--   Mem/PageCache: Kernel/Source/Mem/PageCache.c, the cache of disk pages. Transfer has
--     PCacheRead and PCacheWrite, Control the other calls. The driver of a disk, the heap and the
--     timer are a Machine, a parameter; IsHealthy (State) names what the theorems rely on in it:
--     that reads and writes of sectors that the disk has succeed, answer what is stored and store
--     what is given. Table is about the list of pages as a map, Victim, Room and Ensure about
--     eviction, Held and Fetch about PCacheGetPage, Front, Stores, Overwrites, Reads, Writes,
--     Cleans, Flushes and Drops about the calls, Durable about one after the other, Rounds about
--     start, end and the writeback thread. The loops of PCacheRead and PCacheWrite run on fuel of
--     one round for each byte, since a round moves a byte at least, that of PCacheInvalidate on
--     one round more than there are sectors; where its page wraps around 2^64 it does not end,
--     and the model has no result.
--   Fs/FdTable: Kernel/Source/Fs/FdTable.c, the descriptors of a task. Calls on files and objects
--     are listed in order.
--   KObj: Kernel/Source/KObj/KObj.c, the tree of kernel objects. Objects is about KObjCreate and
--     the children of an object, Release about KObjUnref; Walk has the search by path and the
--     reading of directories, Paths is about paths put together; Handles has the handles of a
--     task, Table is about them. KObjBuildPath follows 16 parents at most, as the code does.
--   Network/Buf: the packet buffers of Kernel/Source/Network/Network.c. Windows is about the
--     pointers into a buffer, Copies about NetworkBufClone.
--   Network/Arp: Kernel/Source/Network/Arp.c, the cache of hardware addresses and the queue of
--     packets that wait for one. Input has the packets that are sent and received, on the buffers
--     of Network/Buf. View reads the cache as a map from addresses to entries; Slots is about the
--     choice of a slot, Cache about the functions on the map, Flush about the queue, Exchange
--     about requests and replies.
--   Network/IpV4: Kernel/Source/Network/IpV4.c. IpV4.antt itself has the checksum of a header,
--     Checksum is about it; folding a sum of 32 bits takes two rounds at most. Routes has the
--     list of routes, Best is about the choice of one; Address has addresses as text and their
--     kinds, RoundTrip is about the text of an address. Header has the header in the bytes of a
--     buffer, Fields is about its fields; Receive has IpV4Input and the table of protocols,
--     Datagram says what it promises and Verdict that it does; Send has IpV4Output on the buffers
--     of Network/Buf and the cache and queue of Network/Arp, Build and Datagrams are about the
--     packet that it makes, Unresolved about the answers of the ARP layer, Outcome about what
--     becomes of the buffer, and its RoundTrip about IpV4Input of such a packet. What
--     EthernetOutput and MemoryAllocate answer and the times are arguments (Surroundings).
--   Strings/Memory: the functions of Kernel/Source/Lib/String.c on blocks of memory, where memory
--     is a function from addresses to bytes. Moves is about MemMove and MemCpy, Fills about
--     MemSet. Each loop runs on fuel, one round for each byte that is left at its start, and
--     every round takes a byte off at least.
--   Strings/Text: its functions that read strings, as lists of characters, and the conversions
--     between numbers and digits (Numbers). Tokens has StrTokR, Pieces is about repeated calls of
--     it.
--   Time/Subscribers: Kernel/Source/Time/TimerSubscriber.c, the callbacks that the timer runs.
--     Rounds is about one tick, Periods about the ticks of an interval, Counts about the number
--     of subscribers.
--   Time/Calendar: Kernel/Source/Time/BcdToUnix.c, dates and seconds since 1970. The loop that
--     takes off years runs on fuel, as many rounds as there are days.
--
-- Not modelled: the subsystems that no part above names (scheduler, file systems, paging, TCP and
-- the protocols on it, system calls, drivers, boot, shell); the functions of the files above that
-- their modules do not name, among them KObjDestroy, which acquires its lock twice; the contents
-- of the pages and blocks that the allocators hand out; messages on the console; the acquisition
-- of the locks.
pub mod Fs
pub mod KObj
pub mod Mem
pub mod Network
pub mod Prelude
pub mod Strings
pub mod Time
