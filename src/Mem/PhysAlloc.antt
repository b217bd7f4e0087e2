-- ===== src/Mem/PhysAlloc.antt =====
-- Kernel/Source/Mem/PhysAlloc.c: the physical page allocator, a bitmap with one bit for each page.
--
-- A function that writes `*P` returns the new allocator beside its result. `P` itself is never NULL:
-- callers pass `PhysAllocGet()`, the address of a static object. The spin lock is taken by the public
-- functions for the whole of one call, so that a call is one step; it is not a field.
-- The fields BitmapSize and LegacyDma* are read by no function of the file and are left out.
pub mod Pages
pub mod Search
pub mod Ops
pub mod Aligned
pub mod Start
mod Tests
use k_os.Prelude.{
  ℕ, zero, suc, ◌+◌, ◌-◌, ◌*◌, ◌/◌, ◌%◌, ◌^◌, Bool, true, false, not, ◌||◌, ◌&&◌, List, bit_and,
  ltb, leb, ◌==◌, if◌then◌else◌, get_or, set,
}
use k_os.Mem.Bitmap.{bit_at, set_at, clear_at}
use k_os.Prelude.Words.{page_mask}
use k_os.Prelude.Loops.{Flow, next, break, ret, Outcome, fell, returned, for_loop}

pub record PhysAlloc : Type 0 where
  -- The pointer; 0 is NULLPTR.
  pub bitmap_ptr : ℕ
  -- The bytes at that address.
  pub bitmap : List ℕ
  pub base_addr : ℕ
  pub total_pages : ℕ
  pub used_pages : ℕ

abbrev pub page_size : ℕ
page_size = 4096

abbrev pub nullptr : ℕ
nullptr = 0

-- `(UINT32)-1`, the answer of a search that fails.
abbrev pub no_page : ℕ
no_page = 2 ^ 32 - 1

-- Sums on UINT32 and UINT64.
abbrev pub add_32 : ℕ → ℕ → ℕ
add_32 a b = (a + b) % 2 ^ 32

abbrev pub add_64 : ℕ → ℕ → ℕ
add_64 a b = (a + b) % 2 ^ 64

abbrev pub byte_at : PhysAlloc → ℕ → ℕ
byte_at p b = get_or p.bitmap b 0

-- (TotalPages + 7) / 8 on UINT32.
abbrev pub bitmap_bytes : PhysAlloc → ℕ
bitmap_bytes p = add_32 p.total_pages 7 / 8

-- P->BaseAddr + (UINT64)Page * PAGE_SIZE
abbrev pub page_addr : PhysAlloc → ℕ → ℕ
page_addr p page = (p.base_addr + page * page_size) % 2 ^ 64

-- P->Bitmap[Page / 8] & (1 << Page % 8)
abbrev pub page_used : PhysAlloc → ℕ → Bool
page_used p page = bit_at p.bitmap page

-- The body of the loop of PhysAllocMarkRangeLocked, on a page inside the bitmap.
unfoldable pub mark_page : PhysAlloc → ℕ → Bool → PhysAlloc
mark_page p page used =
    if used
    then (if page_used p page
        then p
        else record p { bitmap = set_at p.bitmap page; used_pages = add_32 p.used_pages 1 })
    else (if page_used p page
        then record p {
          bitmap = clear_at p.bitmap page;
          used_pages = add_32 p.used_pages (2 ^ 32 - 1);
        }
        else p)

unfoldable pub mark_body : ℕ → Bool → ℕ → PhysAlloc → Flow PhysAlloc (Unit {0})
mark_body start used i p =
    let page = add_32 start i in
    if leb p.total_pages page then break p else next (mark_page p page used)

-- The state at the end of a loop that does not return.
abbrev pub final : Outcome PhysAlloc (Unit {0}) → PhysAlloc → PhysAlloc
final (fell p) q = p
final (returned _) q = q

unfoldable pub mark_range_locked : PhysAlloc → ℕ → ℕ → Bool → PhysAlloc
mark_range_locked p start count used = final (for_loop count 0 (mark_body start used) p) p
