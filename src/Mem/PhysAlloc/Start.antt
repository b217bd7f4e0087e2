-- ===== src/Mem/PhysAlloc/Start.antt =====
-- Kernel/Source/Mem/PhysAlloc.c: PhysAllocInit.
--
-- What the boot loader and the linker report is an argument (Boot): the memory map, `none` where it is
-- missing, the offset of the direct map, and the addresses of the kernel. A loop over the pages from one
-- address to another runs as many rounds as there are pages between the two.
pub mod Loops
pub mod Fills
pub mod Area
pub mod Map
pub mod Extent
pub mod Free
mod Tests
use k_os.Prelude.{
  ℕ, zero, suc, ◌+◌, ◌-◌, ◌*◌, ◌/◌, ◌%◌, ◌^◌, Bool, true, not, ◌&&◌, ◌||◌, Option, none, some, List,
  [], ◌∷◌, ltb, leb, ◌==◌, if◌then◌else◌, length, replicate,
}
use k_os.Prelude.Words.{page_mask}
use k_os.Mem.Bitmap.{clear_at}
use k_os.Mem.LowMem.{MemmapEntry}
use k_os.Mem.PhysAlloc.{PhysAlloc, add_32, bitmap_bytes, mark_page, page_size}

pub record Boot : Type 0 where
  pub entries : Option (List MemmapEntry)
  pub hhdm : ℕ
  pub kernel_start : ℕ
  pub kernel_end : ℕ

abbrev pub is_usable_entry : MemmapEntry → Bool
is_usable_entry e = e.kind == 0

abbrev pub page_up : ℕ → ℕ
page_up x = page_mask ((x + 4095) % 2 ^ 64)

abbrev pub region_end : MemmapEntry → ℕ
region_end e = (e.base + e.length) % 2 ^ 64

-- The whole pages of an entry.
abbrev pub first_whole : MemmapEntry → ℕ
first_whole e = page_up e.base

abbrev pub last_whole : MemmapEntry → ℕ
last_whole e = page_mask (region_end e)

-- LowestAddr and HighestAddr.
unfoldable pub extent : ℕ × ℕ → List MemmapEntry → ℕ × ℕ
extent x [] = x
extent x (e ∷ es) =
    extent
      (if is_usable_entry e
        then (
          if ltb e.base x.0 then e.base else x.0,
          if ltb x.1 (region_end e) then region_end e else x.1,
        )
        else x)
      es

abbrev pub whole_pages : ℕ × ℕ → ℕ × ℕ
whole_pages x = (
  if not (x.0 % 4096 == 0) then page_up x.0 else x.0,
  if not (x.1 % 4096 == 0) then page_mask x.1 else x.1,
)

-- FindBitmapMemory, with BestAddr and BestSize.
unfoldable pub find_bitmap_loop : ℕ → ℕ × ℕ → List MemmapEntry → ℕ
find_bitmap_loop needed best [] = best.0
find_bitmap_loop needed best (e ∷ es) =
    let size = (last_whole e + (2 ^ 64 - first_whole e)) % 2 ^ 64 in
    find_bitmap_loop needed
      (if is_usable_entry e
          && (leb needed size && ltb best.1 size)
          && (best.0 == 0 || ltb (first_whole e) best.0)
        then (first_whole e, size)
        else best)
      es

-- The loop that is tried where FindBitmapMemory has answered 0.
unfoldable pub fallback_loop : ℕ → List MemmapEntry → ℕ
fallback_loop needed [] = 0
fallback_loop needed (e ∷ es) =
    let rest = fallback_loop needed es in
    if is_usable_entry e && leb ((first_whole e + needed) % 2 ^ 64) (region_end e)
    then first_whole e
    else rest

unfoldable pub bitmap_address : ℕ → List MemmapEntry → ℕ
bitmap_address needed es =
    let found = find_bitmap_loop needed (0, 0) es in
    if found == 0 then fallback_loop needed es else found

-- for (Addr = addr; Addr < addr + rounds * PAGE_SIZE; Addr += PAGE_SIZE)
unfoldable pub each_page : ℕ → ℕ → (ℕ → PhysAlloc → PhysAlloc) → PhysAlloc → PhysAlloc
each_page zero addr body p = p
each_page (suc rounds) addr body p =
    each_page rounds ((addr + page_size) % 2 ^ 64) body (body addr p)

-- The rounds of such a loop.
abbrev pub pages_between : ℕ → ℕ → ℕ
pages_between start end = (end - start) / 4096

-- (Addr - BaseAddr) / PAGE_SIZE, cut to UINT32
abbrev pub page_index : PhysAlloc → ℕ → ℕ
page_index p addr = (addr + (2 ^ 64 - p.base_addr)) % 2 ^ 64 / 4096 % 2 ^ 32

-- BitmapPhysAddr and BitmapEnd.
abbrev pub in_area : ℕ × ℕ → ℕ → Bool
in_area (start, end) addr = leb start addr && ltb addr end

-- The body of the loop over the pages of an entry.
unfoldable pub free_at : ℕ × ℕ → ℕ → ℕ → PhysAlloc → PhysAlloc
free_at bitmap highest addr p =
    let page = page_index p addr in
    if in_area bitmap addr
    then p
    else if leb p.base_addr addr && ltb addr highest
    then (if ltb page p.total_pages
        then record p {
          bitmap = clear_at p.bitmap page;
          used_pages = add_32 p.used_pages (2 ^ 32 - 1);
        }
        else p)
    else p

unfoldable pub free_entries : ℕ × ℕ → ℕ → List MemmapEntry → PhysAlloc → PhysAlloc
free_entries bitmap highest [] p = p
free_entries bitmap highest (e ∷ es) p = free_entries bitmap highest es (
    if is_usable_entry e
    then each_page (pages_between (first_whole e) (last_whole e)) (first_whole e)
        (free_at bitmap highest) p
    else p)

-- The body of each of the loops that reserve.
unfoldable pub reserve_at : ℕ → PhysAlloc → PhysAlloc
reserve_at addr p =
    let page = page_index p addr in
    if leb p.base_addr addr && ltb addr ((p.base_addr + p.total_pages * page_size) % 2 ^ 64)
    then (if ltb page p.total_pages then mark_page p page true else p)
    else p

abbrev pub reserve_pages : ℕ → ℕ → PhysAlloc → PhysAlloc
reserve_pages start end p = each_page (pages_between start end) start reserve_at p

-- Every page used.
abbrev pub full_map : Boot → ℕ → PhysAlloc → PhysAlloc
full_map boot addr p = record p {
  bitmap_ptr = (addr + boot.hhdm) % 2 ^ 64;
  bitmap = replicate (bitmap_bytes p) 0xff;
  used_pages = p.total_pages;
}

-- BitmapEnd, and BitmapEndAligned.
abbrev pub bitmap_end : ℕ → ℕ → ℕ
bitmap_end addr size = (addr + (size + 4095) / 4096 * 4096) % 2 ^ 64

-- From the memory for the bitmap on.
unfoldable pub fill_map : Boot → List MemmapEntry → ℕ → ℕ → PhysAlloc → PhysAlloc
fill_map boot es highest addr p =
    let full = full_map boot addr p in
    let freed = free_entries (addr, bitmap_end addr (bitmap_bytes p)) highest es full in
    let low = reserve_pages 0 0x100000 freed in
    let kernel = reserve_pages (page_mask boot.kernel_start) (page_up boot.kernel_end) low in
    reserve_pages (page_mask addr) (page_up ((addr + bitmap_bytes p) % 2 ^ 64)) kernel

abbrev pub with_size : ℕ × ℕ → PhysAlloc → PhysAlloc
with_size (lowest, highest) p = record p {
  base_addr = lowest;
  total_pages = (highest + (2 ^ 64 - lowest)) % 2 ^ 64 / 4096 % 2 ^ 32;
  used_pages = 0;
}

-- From the pointer to the entries on.
unfoldable pub init_from : Boot → List MemmapEntry → PhysAlloc → PhysAlloc
init_from boot es p =
    let x = whole_pages (extent (2 ^ 64 - 1, 0) es) in
    let q = with_size x p in
    let addr = bitmap_address (bitmap_bytes q) es in
    if length es == 0
    then p
    else if addr == 0
    then q
    else if boot.hhdm == 0
    then q
    else fill_map boot es x.1 addr q

abbrev pub init_listed : Boot → Option (List MemmapEntry) → PhysAlloc → PhysAlloc
init_listed boot none p = p
init_listed boot (some es) p = init_from boot es p

unfoldable pub phys_init : Boot → PhysAlloc → PhysAlloc
phys_init boot p = init_listed boot boot.entries p
