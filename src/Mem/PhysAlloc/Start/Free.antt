-- ===== src/Mem/PhysAlloc/Start/Free.antt =====
-- PhysAllocInit: which pages can be handed out.
use k_os.Prelude.{ℕ, ◌+◌, ◌-◌, ◌*◌, ◌/◌, ◌%◌, ◌^◌, ◌≤◌, ◌<◌, ◌≡◌, ◌≢◌, not, some, List, All}
use k_os.Mem.LowMem.{MemmapEntry}
use k_os.Mem.PhysAlloc.{PhysAlloc, page_used, bitmap_bytes}
use k_os.Mem.PhysAlloc.Pages.{IsValid}
use k_os.Mem.PhysAlloc.Start.{Boot, with_size, bitmap_address}
use k_os.Mem.PhysAlloc.Start.Loops.{addr_of}
use k_os.Mem.PhysAlloc.Start.Fills.{Apart}
use k_os.Mem.PhysAlloc.Start.Area.{IsEntry, IsInside}
use k_os.Mem.PhysAlloc.Start.Extent.{area_of, IsExtent}
use k_os.Mem.PhysAlloc.Start.Map.{is_left_free}

abbrev pub start_of : List MemmapEntry → PhysAlloc → PhysAlloc
start_of es p = with_size (area_of es) p

abbrev pub bitmap_place : List MemmapEntry → PhysAlloc → ℕ
bitmap_place es p = bitmap_address (bitmap_bytes (start_of es p)) es

-- The boot loader reports entries that are apart, an offset of the direct map and less than 16 TiB, in which
-- there is a place for the bitmap.
pub record IsBoot (boot : Boot) (es : List MemmapEntry) (p : PhysAlloc) : Type 0 where
  pub listed : boot.entries ≡ some es
  pub entries : All IsEntry es
  pub apart : Apart es
  pub ordered : (area_of es).0 ≤ (area_of es).1
  pub few : ((area_of es).1 - (area_of es).0) / 4096 + 8 ≤ 2 ^ 32
  pub place : bitmap_place es p ≢ 0
  pub hhdm : boot.hhdm ≢ 0
  pub kernel : (boot.kernel_start < 2 ^ 64) × (boot.kernel_end < 2 ^ 64)

pub record IsStarted (boot : Boot) (es : List MemmapEntry) (p q : PhysAlloc) : Type 0 where
  pub valid : IsValid q
  pub area : IsExtent q.base_addr (q.base_addr + q.total_pages * 4096) es
  pub mapped : q.bitmap_ptr ≡ (bitmap_place es p + boot.hhdm) % 2 ^ 64
  pub bitmap : IsInside (bitmap_place es p) (bitmap_bytes (start_of es p)) es
  pub pages :
      (j : ℕ)
      → j < q.total_pages
      → page_used q j
        ≡ not
            (is_left_free boot es (bitmap_place es p) (bitmap_bytes (start_of es p)) (addr_of q j))
