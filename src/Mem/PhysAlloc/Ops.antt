-- ===== src/Mem/PhysAlloc/Ops.antt =====
-- The operations of Kernel/Source/Mem/PhysAlloc.c under the lock. The functions of the same names
-- without `Locked` take the lock, call these and release it.
--
-- `hhdm` is the offset of the direct map of physical memory that the boot loader reports
-- (LimineGetHHDMOffset). The bytes of the pages are not modelled: a result carries the range that
-- MemSet clears.
pub mod Page
pub mod Range
pub mod Release
pub mod Reserve
use k_os.Prelude.{
  ℕ, zero, suc, ◌+◌, ◌-◌, ◌*◌, ◌/◌, ◌%◌, ◌^◌, Bool, true, false, not, ◌||◌, ◌&&◌, Option, none,
  some, ltb, leb, ◌==◌, if◌then◌else◌, bit_and, set,
}
use k_os.Prelude.Bits.{test_bit, set_bit}
use k_os.Prelude.Words.{page_mask}
use k_os.Prelude.Loops.{Flow, next, ret, Outcome, fell, returned, for_loop, resume}
use k_os.Mem.PhysAlloc.{
  PhysAlloc, byte_at, bitmap_bytes, add_32, page_size, page_addr, nullptr, no_page, mark_page,
  mark_range_locked,
}
use k_os.Mem.PhysAlloc.Search.{
  page_idx, find_continuous_pages_locked, find_continuous_pages_below_locked, pmm_end, AlignedRun,
  no_run, find_aligned_byte,
}

-- Kernel/Include/Mem/Paging.h, PhysToVirt and VirtToPhys
abbrev pub phys_to_virt : ℕ → ℕ → ℕ
phys_to_virt hhdm phys = (phys + hhdm) % 2 ^ 64

abbrev pub virt_to_phys : ℕ → ℕ → ℕ
virt_to_phys hhdm virt = (virt + 2 ^ 64 - hhdm) % 2 ^ 64

-- What an allocation gives back: the allocator, the address, and the address and length that
-- MemSet is called with, if it is.
pub record Grant : Type 0 where
  pub alloc : PhysAlloc
  pub addr : ℕ
  pub cleared : Option (ℕ × ℕ)

abbrev pub refused : PhysAlloc → Grant
refused p = record { alloc = p; addr = nullptr; cleared = none }

-- PhysAllocAllocatePageLocked: the inner loop, on the bits of a byte.
unfoldable pub take_bit : ℕ → ℕ → PhysAlloc → Flow PhysAlloc Grant
take_bit b bit p =
    if not (test_bit (byte_at p b) bit)
    then (let taken = record p { bitmap = set p.bitmap b (set_bit (byte_at p b) bit) } in
        if ltb (page_idx b bit) p.total_pages
        then ret (record {
          alloc = record taken { used_pages = add_32 p.used_pages 1 };
          addr = page_addr p (page_idx b bit);
          cleared = none;
        })
        else next taken)
    else next p

unfoldable pub take_in_byte : ℕ → PhysAlloc → Flow PhysAlloc Grant
take_in_byte b p =
    if not (byte_at p b == 0xff) then resume (for_loop 8 0 (take_bit b) p) else next p

unfoldable pub take_byte : ℕ → PhysAlloc → Flow PhysAlloc Grant
take_byte b p =
    if byte_at p b == 0
    then (let taken = record p { bitmap = set p.bitmap b 1 } in
        if ltb (page_idx b 0) p.total_pages
        then ret (record {
          alloc = record taken { used_pages = add_32 p.used_pages 1 };
          addr = page_addr p (page_idx b 0);
          cleared = none;
        })
        else take_in_byte b taken)
    else take_in_byte b p

abbrev pub grant_of : Outcome PhysAlloc Grant → Grant
grant_of (fell p) = refused p
grant_of (returned g) = g

unfoldable pub allocate_page_locked : PhysAlloc → Grant
allocate_page_locked p =
    if p.bitmap_ptr == 0 then refused p else grant_of (for_loop (bitmap_bytes p) 0 take_byte p)

-- The page of a pointer: (PageAddr - P->BaseAddr) / PAGE_SIZE, cut to UINT32.
abbrev pub page_of : PhysAlloc → ℕ → ℕ
page_of p page_start = (page_start + 2 ^ 64 - p.base_addr) % 2 ^ 64 / page_size % 2 ^ 32

unfoldable pub free_page_locked : PhysAlloc → ℕ → PhysAlloc
free_page_locked p addr =
    if p.bitmap_ptr == 0 || addr == 0
    then p
    else if ltb (page_mask addr) p.base_addr
    then p
    else if leb p.total_pages (page_of p (page_mask addr))
    then p
    else mark_page p (page_of p (page_mask addr)) false

-- `MemSet(VirtAddr, 0, PageCount * PAGE_SIZE)` multiplies on UINT32.
unfoldable pub allocate_range_locked : ℕ → PhysAlloc → ℕ → Grant
allocate_range_locked hhdm p count =
    if count == 0
    then refused p
    else (let start = find_continuous_pages_locked p count in
        if start == no_page then refused p else record {
          alloc = mark_range_locked p start count true;
          addr = phys_to_virt hhdm (page_addr p start);
          cleared = some (phys_to_virt hhdm (page_addr p start), count * page_size % 2 ^ 32);
        })

unfoldable pub free_range_locked : PhysAlloc → ℕ → ℕ → PhysAlloc
free_range_locked p addr count =
    if addr == 0 || count == 0
    then p
    else if ltb (page_mask addr) p.base_addr
    then p
    else if leb p.total_pages (page_of p (page_mask addr))
    then p
    else mark_range_locked p (page_of p (page_mask addr)) count false

-- The answer is a physical address here.
unfoldable pub allocate_page_below_locked : ℕ → PhysAlloc → ℕ → Grant
allocate_page_below_locked hhdm p limit =
    if p.bitmap_ptr == 0
    then refused p
    else (let start = find_continuous_pages_below_locked p 1 limit in
        if start == no_page then refused p else record {
          alloc = mark_range_locked p start 1 true;
          addr = page_addr p start;
          cleared = some (phys_to_virt hhdm (page_addr p start), page_size);
        })

unfoldable pub allocate_range_below_locked : ℕ → PhysAlloc → ℕ → ℕ → Grant
allocate_range_below_locked hhdm p count limit =
    if count == 0
    then refused p
    else (let start = find_continuous_pages_below_locked p count limit in
        if start == no_page then refused p else record {
          alloc = mark_range_locked p start count true;
          addr = phys_to_virt hhdm (page_addr p start);
          cleared = some (phys_to_virt hhdm (page_addr p start), count * page_size % 2 ^ 64);
        })

-- PhysAllocAllocateAlignedRange: from the end of its search on.
unfoldable pub aligned_grant : ℕ → PhysAlloc → ℕ → Outcome AlignedRun ℕ → Grant
aligned_grant hhdm p count (fell _) = refused p
aligned_grant hhdm p count (returned start) = record {
  alloc = mark_range_locked p start count true;
  addr = phys_to_virt hhdm (page_addr p start);
  cleared = some (phys_to_virt hhdm (page_addr p start), count * page_size % 2 ^ 32);
}

unfoldable pub allocate_aligned_range : ℕ → PhysAlloc → ℕ → ℕ → Grant
allocate_aligned_range hhdm p count alignment =
    if count == 0 || alignment == 0
    then refused p
    else if not (bit_and alignment (alignment - 1) == 0)
    then refused p
    else aligned_grant hhdm p count (
        for_loop (bitmap_bytes p) 0 (find_aligned_byte p count alignment)
          (record { run = no_run; in_aligned = false }))

-- PhysAllocReserveRangeLocked: StartPage and PageCount, from the start and the end of the range.
abbrev pub reserve_start : PhysAlloc → ℕ → ℕ
reserve_start p phys_addr = page_of p (page_mask phys_addr)

abbrev pub reserve_count : PhysAlloc → ℕ → ℕ → ℕ
reserve_count p phys_addr end =
    let end' = if ltb (pmm_end p) end then pmm_end p else end in
    (page_mask ((end' + page_size - 1) % 2 ^ 64) + 2 ^ 64 - page_mask phys_addr)
    % 2 ^ 64
    / page_size
    % 2 ^ 32

unfoldable pub reserve_range_locked : PhysAlloc → ℕ → ℕ → PhysAlloc
reserve_range_locked p phys_addr size =
    if p.bitmap_ptr == 0 || size == 0
    then p
    else if ltb phys_addr p.base_addr
    then p
    else if leb (pmm_end p) phys_addr
    then p
    else (let start = reserve_start p phys_addr in
        let count = reserve_count p phys_addr ((phys_addr + size) % 2 ^ 64) in
        if leb p.total_pages start
        then p
        else mark_range_locked p start
            (if ltb p.total_pages (add_32 start count) then p.total_pages - start else count) true)
