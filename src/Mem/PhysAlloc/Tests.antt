-- ===== src/Mem/PhysAlloc/Tests.antt =====
-- The page allocator at a small bitmap: 12 pages from 1 MiB on, of which 0, 1 and 5 are used.
use k_os.Prelude.{ℕ, ◌^◌, ◌+◌, ◌≡◌, ◌⊎◌, refl, [], ◌∷◌, arith}
use k_os.Prelude.Bits.{test_bit, set_bit}
use k_os.Prelude.Counting.{count_below}
use k_os.Prelude.Words.{page_mask}
use k_os.Prelude.Loops.{for_loop}
use k_os.Mem.Bitmap.{bit_at, set_at}
use k_os.Mem.PhysAlloc.Aligned.{allocate_aligned_below_locked}
use k_os.Mem.PhysAlloc.Aligned.Carve.{Takes, allocate_aligned_below_lem}
use k_os.Mem.PhysAlloc.{PhysAlloc, page_used, mark_page, mark_body, mark_range_locked, no_page}
use k_os.Mem.PhysAlloc.Pages.{IsValid}
use k_os.Mem.PhysAlloc.Search.{
  scan_page, find_bit, find_byte, find_continuous_pages_locked, find_below_bit, find_below_byte,
  find_continuous_pages_below_locked, scan_aligned_page, find_aligned_bit, find_aligned_byte,
}
use k_os.Mem.PhysAlloc.Search.Runs.{NoRun}
use k_os.Mem.PhysAlloc.Search.First.{any_page, pages_below}
use k_os.Mem.PhysAlloc.Ops.{
  refused, take_bit, take_in_byte, take_byte, allocate_page_locked, allocate_range_locked,
  free_range_locked, aligned_grant, allocate_aligned_range, reserve_range_locked,
}
use k_os.Mem.PhysAlloc.Ops.Page.{TakesFirst, Full, allocate_page_lem}
use k_os.Mem.PhysAlloc.Ops.Release.{Restored, free_range-allocate_range}

abbrev small : PhysAlloc
small = record {
  bitmap_ptr = 0xffff800000001000;
  bitmap = 0x23 ∷ 0xf0 ∷ [];
  base_addr = 0x100000;
  total_pages = 12;
  used_pages = 3;
}

abbrev hhdm : ℕ
hhdm = 0xffff800000000000

small-IsValid : IsValid small
unfolding count_below bit_at test_bit
small-IsValid = record {
  small = omega arith;
  room = omega arith;
  bytes = omega arith;
  aligned = refl;
  no_wrap = omega arith;
  counted = refl;
}

three_pages : find_continuous_pages_locked small 3 ≡ 2
unfolding find_continuous_pages_locked find_byte find_bit scan_page for_loop test_bit
three_pages = refl

six_pages : find_continuous_pages_locked small 6 ≡ 6
unfolding find_continuous_pages_locked find_byte find_bit scan_page for_loop test_bit
six_pages = refl

seven_pages : find_continuous_pages_locked small 7 ≡ no_page
unfolding find_continuous_pages_locked find_byte find_bit scan_page for_loop test_bit
seven_pages = refl

below_limit : find_continuous_pages_below_locked small 3 0x104fff ≡ no_page
unfolding find_continuous_pages_below_locked find_below_byte find_below_bit scan_page for_loop
    test_bit
below_limit = refl

aligned_pages : (allocate_aligned_range hhdm small 2 4).addr ≡ hhdm + 0x106000 + 0x2000
unfolding allocate_aligned_range aligned_grant find_aligned_byte find_aligned_bit scan_aligned_page
    for_loop test_bit
aligned_pages = refl

first_page : (allocate_page_locked small).addr ≡ 0x102000
unfolding allocate_page_locked take_byte take_in_byte take_bit for_loop test_bit
first_page = refl

two_reserved : (reserve_range_locked small 0x102fff 2).bitmap ≡ 0x2f ∷ 0xf0 ∷ []
unfolding reserve_range_locked mark_range_locked mark_body mark_page for_loop set_at bit_at test_bit
    set_bit page_mask
two_reserved = refl

allocate_page_example :
    TakesFirst small (allocate_page_locked small)
    ⊎ (((allocate_page_locked small).addr ≡ 0) × Full small (allocate_page_locked small).alloc)
allocate_page_example = allocate_page_lem small small-IsValid (λ e. omega arith)

-- The same pages from 1 MiB + 4 KiB on: not a multiple of 16 KiB.
abbrev shifted : PhysAlloc
shifted = record small { base_addr = 0x101000 }

shifted-IsValid : IsValid shifted
unfolding count_below bit_at test_bit
shifted-IsValid = record {
  small = omega arith;
  room = omega arith;
  bytes = omega arith;
  aligned = refl;
  no_wrap = omega arith;
  counted = refl;
}

free_range_example : Restored small (
    free_range_locked
      (allocate_range_locked hhdm small 3).alloc
      (allocate_range_locked hhdm small 3).addr
      3)
free_range_example =
    free_range-allocate_range small small-IsValid hhdm 3 (omega arith) refl (omega arith)
      (omega arith)

-- The address of the first page is no multiple of 8 KiB.
allocate_aligned_below_example :
    Takes shifted 2
      (2 ^ 13)
      (pages_below shifted 0x10a000)
      (allocate_aligned_below_locked hhdm shifted 2 (2 ^ 13) 0x10a000)
    ⊎ (NoRun (page_used shifted) any_page 3 (pages_below shifted 0x10a000)
        × (allocate_aligned_below_locked hhdm shifted 2 (2 ^ 13) 0x10a000 ≡ refused shifted))
allocate_aligned_below_example =
    allocate_aligned_below_lem hhdm shifted 2 13 0x10a000 shifted-IsValid (omega arith)
      (omega arith) (omega arith) (omega arith) (omega arith)
