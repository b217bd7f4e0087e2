-- ===== src/Mem/PhysAlloc/Aligned/Attempts.antt =====
-- Kernel/Source/Mem/PhysAlloc.c: PhysAllocAllocateAligned, which takes a longer range and gives the pages
-- before and behind the aligned part back by their virtual addresses. Its calls take the lock one by one; no
-- other task runs between them here.
use k_os.Prelude.{
  ℕ, suc, ◌+◌, ◌-◌, ◌*◌, ◌/◌, ◌%◌, ◌^◌, bit_and, not, ◌||◌, Option, none, some, ltb, leb, ◌==◌,
  if◌then◌else◌,
}
use k_os.Prelude.Loops.{Flow, next, ret, Outcome, fell, returned, for_loop}
use k_os.Mem.PhysAlloc.{PhysAlloc, page_size, add_32}
use k_os.Mem.PhysAlloc.Ops.{phys_to_virt, virt_to_phys, allocate_range_locked, free_range_locked}
use k_os.Mem.PhysAlloc.Aligned.{aligned_up, align_pages, tail_pages}

-- The physical address that is answered, and what is stored at VirtOut.
pub record AlignedGrant : Type 0 where
  pub alloc : PhysAlloc
  pub addr : ℕ
  pub virt_out : Option ℕ

-- The allocator and TotalPages.
pub record Attempt : Type 0 where
  pub alloc : PhysAlloc
  pub total_pages : ℕ

-- TotalPages after a range that was not given.
abbrev pub fewer_pages : ℕ → ℕ → ℕ → ℕ
fewer_pages pages align i =
    let total = add_32 pages (align_pages align / 2 ^ suc i) in
    if ltb total pages then pages else total

-- The range at the virtual address `virt`, of which the aligned part is kept.
abbrev pub trim_range : PhysAlloc → ℕ → ℕ → ℕ → ℕ → PhysAlloc
trim_range p virt total head pages =
    let tail = tail_pages total head pages in
    let without_head = if ltb 0 head then free_range_locked p virt head else p in
    if ltb 0 tail
    then free_range_locked without_head ((virt + add_32 head pages * page_size % 2 ^ 32) % 2 ^ 64)
        tail
    else without_head

unfoldable pub try_range : ℕ → ℕ → ℕ → ℕ → Attempt → Flow Attempt AlignedGrant
try_range hhdm pages align i s =
    let range = allocate_range_locked hhdm s.alloc s.total_pages in
    let phys = virt_to_phys hhdm range.addr in
    let aligned = aligned_up align phys in
    let offset = (aligned + 2 ^ 64 - phys) % 2 ^ 64 in
    if range.addr == 0
    then next (record { alloc = range.alloc; total_pages = fewer_pages pages align i })
    else if leb ((offset + pages * page_size) % 2 ^ 64) (s.total_pages * page_size)
    then ret (record {
      alloc = trim_range range.alloc range.addr s.total_pages (offset / page_size % 2 ^ 32) pages;
      addr = aligned;
      virt_out = some (phys_to_virt hhdm aligned);
    })
    else next (record {
      alloc = free_range_locked range.alloc range.addr s.total_pages;
      total_pages = add_32 s.total_pages (align_pages align);
    })

abbrev pub last_attempt : Outcome Attempt AlignedGrant → AlignedGrant
last_attempt (fell s) = record { alloc = s.alloc; addr = 0; virt_out = none }
last_attempt (returned g) = g

abbrev pub page_alignment : ℕ → ℕ
page_alignment align =
    if align == 0 || not (bit_and align (align - 1) == 0) || ltb align page_size
    then page_size
    else align

unfoldable pub allocate_aligned_pages : ℕ → PhysAlloc → ℕ → ℕ → AlignedGrant
allocate_aligned_pages hhdm p pages align =
    let a = page_alignment align in
    last_attempt (
      for_loop 16 0 (try_range hhdm pages a)
        (record { alloc = p; total_pages = add_32 pages (align_pages a) }))
