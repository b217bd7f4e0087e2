-- ===== src/Mem/PhysAlloc/Ops/Reserve.antt =====
-- PhysAllocReserveRange takes exactly the pages that the range touches.
use k_os.Prelude.{
  ℕ, ◌+◌, ◌-◌, ◌*◌, ◌/◌, ◌%◌, ◌^◌, ◌≤◌, ◌<◌, ◌≡◌, ◌≢◌, ◌∙◌, Bool, true, ◌||◌, ◌&&◌, arith, ltb,
  if◌then◌else◌, ne→==, le→ltb, lt→leb, min,
}
use k_os.Prelude.Words.{page_mask_lem}
use k_os.Mem.PhysAlloc.{PhysAlloc, page_used, add_32, page_size}
use k_os.Mem.PhysAlloc.Pages.{IsValid, mark_range_lem}
use k_os.Mem.PhysAlloc.Search.{pmm_end}
use k_os.Mem.PhysAlloc.Ops.{reserve_start, reserve_count, reserve_range_locked}

-- The page `j` has a byte of the range.
abbrev pub touches : PhysAlloc → ℕ → ℕ → ℕ → Bool
touches p phys_addr size j =
    ltb (p.base_addr + j * 4096) (phys_addr + size) && ltb phys_addr (p.base_addr + j * 4096 + 4096)

module _ (p : PhysAlloc) (phys_addr size : ℕ) (v : IsValid p) (some_bytes : 0 < size)
    (no_wrap : phys_addr + size < 2 ^ 64) (above : p.base_addr ≤ phys_addr)
    (below : phys_addr < p.base_addr + p.total_pages * 4096) where
  abbrev last_byte : ℕ
  last_byte = min (phys_addr + size) (p.base_addr + p.total_pages * 4096)

  start_lem : reserve_start p phys_addr ≡ (phys_addr - p.base_addr) / 4096
  start_lem = let m = page_mask_lem phys_addr (omega arith) in omega (arith, v.aligned, v.small, m)

  abbrev cut_end : ℕ
  cut_end =
      if ltb (pmm_end p) ((phys_addr + size) % 2 ^ 64)
      then pmm_end p
      else (phys_addr + size) % 2 ^ 64

  cut_end_lem : cut_end ≡ last_byte
  cut_end_lem = ground (arith, v.no_wrap)

  count_lem :
      reserve_start p phys_addr + reserve_count p phys_addr ((phys_addr + size) % 2 ^ 64)
      ≡ (last_byte - p.base_addr + 4095) / 4096
  count_lem =
      let room : last_byte + 4095 < 2 ^ 64 = omega (arith, v.no_wrap, v.aligned) in
      let whole : (last_byte + page_size - 1) % 2 ^ 64 ≡ last_byte + 4095 = omega arith in
      let s = page_mask_lem phys_addr (omega arith) in
      let e = page_mask_lem (last_byte + 4095) room in
      rw (start_lem, cut_end_lem, whole) (omega (arith, v.aligned, v.small, s, e))

  -- The pages that have a byte of the range are used afterwards, the others are as before.
  pub reserve_range_lem :
      p.bitmap_ptr ≢ 0
      → IsValid (reserve_range_locked p phys_addr size)
        × ((j : ℕ)
            → j < p.total_pages
            → page_used (reserve_range_locked p phys_addr size) j
              ≡ (touches p phys_addr size j || page_used p j))
  unfolding reserve_range_locked
  reserve_range_lem mapped =
      let start = reserve_start p phys_addr in
      let count = reserve_count p phys_addr ((phys_addr + size) % 2 ^ 64) in
      let inside : start < p.total_pages = omega (arith, start_lem) in
      let end : start + count ≤ p.total_pages = omega (arith, count_lem, v.aligned) in
      let m = mark_range_lem p start count true v (omega (arith, v.small)) in
      rw
        (
          ne→== p.bitmap_ptr 0 mapped,
          ne→== size 0 (omega arith),
          le→ltb phys_addr p.base_addr above,
          lt→leb (pmm_end p) phys_addr (omega (arith, v.no_wrap)),
          lt→leb p.total_pages start inside,
          le→ltb p.total_pages (add_32 start count) (omega (arith, v.small)),
        )
        (m.valid, λ j h. m.pages j h ∙ ground (arith, start_lem, count_lem, v.aligned, v.no_wrap))
