-- ===== src/Mem/PhysAlloc/Aligned.antt =====
-- Kernel/Source/Mem/PhysAlloc.c: PhysAllocAllocateAlignedBelowLocked, which takes a run that is longer by
-- the alignment and gives the pages before and behind the aligned part back.
pub mod Carve
pub mod Attempts
use k_os.Prelude.{
  ℕ, ◌+◌, ◌-◌, ◌*◌, ◌/◌, ◌%◌, ◌^◌, max, bit_and, true, false, not, some, ltb, ◌==◌, if◌then◌else◌,
}
use k_os.Mem.PhysAlloc.{PhysAlloc, page_addr, page_size, no_page, add_32, mark_range_locked}
use k_os.Mem.PhysAlloc.Search.{find_continuous_pages_below_locked}
use k_os.Mem.PhysAlloc.Ops.{Grant, refused, phys_to_virt}

-- (PhysBase + Align - 1) & ~((UINT64)Align - 1)
abbrev pub aligned_up : ℕ → ℕ → ℕ
aligned_up align phys = bit_and ((phys + align - 1) % 2 ^ 64) (2 ^ 64 - align)

-- HeadPages and TailPages, of a run of `request` pages at `phys`.
abbrev pub head_pages : ℕ → ℕ → ℕ
head_pages aligned phys = (aligned + (2 ^ 64 - phys)) % 2 ^ 64 / page_size % 2 ^ 32

abbrev pub tail_pages : ℕ → ℕ → ℕ → ℕ
tail_pages request head pages = (request + (2 ^ 32 - head) + (2 ^ 32 - pages)) % 2 ^ 32

-- The three calls of PhysAllocMarkRangeLocked.
unfoldable pub carve : PhysAlloc → ℕ → ℕ → ℕ → ℕ → ℕ → PhysAlloc
carve p start request head pages tail =
    let taken = mark_range_locked p start request true in
    let without_head = if ltb 0 head then mark_range_locked taken start head false else taken in
    if ltb 0 tail
    then mark_range_locked without_head (add_32 (add_32 start head) pages) tail false
    else without_head

-- What is done with the run at `start`.
unfoldable pub carved_grant : ℕ → PhysAlloc → ℕ → ℕ → ℕ → ℕ → Grant
carved_grant hhdm p pages align request start =
    let phys = page_addr p start in
    let aligned = aligned_up align phys in
    let head = head_pages aligned phys in
    if ltb ((phys + request * page_size) % 2 ^ 64) ((aligned + pages * page_size) % 2 ^ 64)
    then refused p
    else record {
      alloc = carve p start request head pages (tail_pages request head pages);
      addr = aligned;
      cleared = some (phys_to_virt hhdm aligned, pages * page_size % 2 ^ 64);
    }

abbrev pub align_pages : ℕ → ℕ
align_pages align = max (align / page_size % 2 ^ 32) 1

unfoldable pub allocate_aligned_below_locked : ℕ → PhysAlloc → ℕ → ℕ → ℕ → Grant
allocate_aligned_below_locked hhdm p pages align limit =
    let a = if ltb align page_size then page_size else align in
    let request = (pages + align_pages a + (2 ^ 32 - 1)) % 2 ^ 32 in
    let start = find_continuous_pages_below_locked p request limit in
    if not (bit_and a (a - 1) == 0)
    then refused p
    else if start == no_page
    then refused p
    else carved_grant hhdm p pages a request start
