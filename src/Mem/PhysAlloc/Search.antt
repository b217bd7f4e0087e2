-- ===== src/Mem/PhysAlloc/Search.antt =====
-- The three searches of Kernel/Source/Mem/PhysAlloc.c for a run of free pages. Each goes through the
-- bytes of the bitmap, skips a byte of eight used pages, and counts free pages in the others.
pub mod Runs
pub mod Steps
pub mod First
pub mod Aligned
use k_os.Prelude.{
  ℕ, ◌+◌, ◌-◌, ◌*◌, ◌/◌, ◌%◌, ◌^◌, Bool, true, false, not, ◌||◌, ◌&&◌, ltb, leb, ◌==◌,
  if◌then◌else◌, bit_and, min,
}
use k_os.Prelude.Bits.{test_bit}
use k_os.Prelude.Loops.{Flow, next, break, ret, Outcome, fell, returned, for_loop, resume}
use k_os.Mem.PhysAlloc.{PhysAlloc, byte_at, bitmap_bytes, add_32, page_size, no_page}

-- The variables Continuous and StartPage.
pub record Run : Type 0 where
  pub continuous : ℕ
  pub start_page : ℕ

abbrev pub no_run : Run
no_run = record { continuous = 0; start_page = 0 }

abbrev pub answer : Outcome Run ℕ → ℕ
answer (fell r) = no_page
answer (returned page) = page

-- ByteIdx * 8 + Bit on UINT32.
abbrev pub page_idx : ℕ → ℕ → ℕ
page_idx b bit = add_32 (b * 8) bit

-- What the searches do with one page.
unfoldable pub scan_page : ℕ → ℕ → Bool → Run → Flow Run ℕ
scan_page count page used r =
    if not used
    then (let start = if r.continuous == 0 then page else r.start_page in
        let longer = add_32 r.continuous 1 in
        if longer == count
        then ret start
        else next (record { continuous = longer; start_page = start }))
    else next (record r { continuous = 0 })

unfoldable pub find_bit : PhysAlloc → ℕ → ℕ → ℕ → Run → Flow Run ℕ
find_bit p count b bit r =
    let page = page_idx b bit in
    if leb p.total_pages page then break r else scan_page count page (test_bit (byte_at p b) bit) r

unfoldable pub find_byte : PhysAlloc → ℕ → ℕ → Run → Flow Run ℕ
find_byte p count b r =
    if byte_at p b == 0xff
    then next (record r { continuous = 0 })
    else resume (for_loop 8 0 (find_bit p count b) r)

unfoldable pub find_continuous_pages_locked : PhysAlloc → ℕ → ℕ
find_continuous_pages_locked p count =
    if count == 0 || ltb p.total_pages count
    then no_page
    else answer (for_loop (bitmap_bytes p) 0 (find_byte p count) no_run)

unfoldable pub find_below_bit : PhysAlloc → ℕ → ℕ → ℕ → ℕ → Run → Flow Run ℕ
find_below_bit p count max_page b bit r =
    let page = page_idx b bit in
    if leb p.total_pages page
    then ret no_page
    else if leb max_page page
    then ret no_page
    else scan_page count page (test_bit (byte_at p b) bit) r

unfoldable pub find_below_byte : PhysAlloc → ℕ → ℕ → ℕ → Run → Flow Run ℕ
find_below_byte p count max_page b r =
    if byte_at p b == 0xff
    then next (record r { continuous = 0 })
    else resume (for_loop 8 0 (find_below_bit p count max_page b) r)

-- P->BaseAddr + (UINT64)P->TotalPages * PAGE_SIZE
abbrev pub pmm_end : PhysAlloc → ℕ
pmm_end p = (p.base_addr + p.total_pages * page_size) % 2 ^ 64

-- MaxPageIdx, where PhysLimit is above BaseAddr.
abbrev pub max_page_idx : PhysAlloc → ℕ → ℕ
max_page_idx p limit =
    let max_addr = if ltb (pmm_end p) limit then pmm_end p else limit in
    (max_addr + 2 ^ 64 - p.base_addr) % 2 ^ 64 / page_size % 2 ^ 32

unfoldable pub find_continuous_pages_below_locked : PhysAlloc → ℕ → ℕ → ℕ
find_continuous_pages_below_locked p count limit =
    if count == 0 || ltb p.total_pages count
    then no_page
    else if leb limit p.base_addr
    then no_page
    else if max_page_idx p limit == 0
    then no_page
    else answer
        (for_loop (bitmap_bytes p) 0 (find_below_byte p count (max_page_idx p limit)) no_run)

-- PhysAllocAllocateAlignedRange has the flag InAligned too.
pub record AlignedRun : Type 0 where
  pub run : Run
  pub in_aligned : Bool

-- `continue` at an unaligned page outside a run; a free page starts or extends a run.
unfoldable pub scan_aligned_page : ℕ → ℕ → ℕ → Bool → AlignedRun → Flow AlignedRun ℕ
scan_aligned_page count alignment page used a =
    if not a.in_aligned && not (page % alignment == 0)
    then next a
    else if not used
    then (let fresh = a.run.continuous == 0 in
        let start = if fresh then page else a.run.start_page in
        let longer = add_32 a.run.continuous 1 in
        if longer == count
        then ret start
        else next (record {
          run = record { continuous = longer; start_page = start };
          in_aligned = if fresh then true else a.in_aligned;
        }))
    else next (record {
      run = record { continuous = 0; start_page = a.run.start_page };
      in_aligned = false;
    })

unfoldable pub find_aligned_bit : PhysAlloc → ℕ → ℕ → ℕ → ℕ → AlignedRun → Flow AlignedRun ℕ
find_aligned_bit p count alignment b bit a =
    let page = page_idx b bit in
    if leb p.total_pages page
    then break a
    else scan_aligned_page count alignment page (test_bit (byte_at p b) bit) a

unfoldable pub find_aligned_byte : PhysAlloc → ℕ → ℕ → ℕ → AlignedRun → Flow AlignedRun ℕ
find_aligned_byte p count alignment b a =
    if byte_at p b == 0xff
    then next (record {
      run = record { continuous = 0; start_page = a.run.start_page };
      in_aligned = false;
    })
    else resume (for_loop 8 0 (find_aligned_bit p count alignment b) a)
