-- ===== src/Mem/PageCache/Offsets.antt =====
-- Kernel/Source/Mem/PageCache.c: the page, the offset in it and the chunk that a round of PCacheRead or
-- PCacheWrite computes.
use k_os.Prelude.{ℕ, ◌+◌, ◌*◌, ◌/◌, ◌%◌, ◌^◌, ◌≤◌, ◌<◌, ◌≡◌, sym, ap, ◌∙◌, arith}
use native.Mathlib.Nat.{add-mul, mul-div_cancel, mul-le-mul_right, le-mul_of_pos_right}
use k_os.Mem.PageCache.{Machine, page_size, spp}
use k_os.Mem.PageCache.Transfer.{
  page_lba, page_start, in_page_off, chunk, byte_offset, byte_count, end_byte,
}
use k_os.Mem.PageCache.State.{IsDisk}
use k_os.Mem.PageCache.Disk.{page_start_eq, spp_pos}
use k_os.Mem.PageCache.Fetch.{IsPage}

pub record IsChunk (off left n : ℕ) : Type 0 where
  pub some_bytes : 0 < n
  pub in_page : off + n ≤ page_size
  pub in_range : n ≤ left

pub chunk_lem :
    (off left : ℕ) → off < page_size → 0 < left → left < 2 ^ 32 → IsChunk off left (chunk off left)
chunk_lem off left a b c = record {
  some_bytes = ground arith;
  in_page = ground arith;
  in_range = ground arith;
}

module _ {W : Type 0} (m : Machine W) (contents : W → ℕ → ℕ → ℕ) (capacity : ℕ → ℕ) (d : ℕ)
    (disk : IsDisk m contents capacity d) where
  -- The bytes of the disk fill pages.
  disk_end : capacity d * m.sector_size d ≡ capacity d / spp m d * page_size
  disk_end =
      ap (λ x. x * m.sector_size d) disk.filled
      ∙ page_start_eq (capacity d / spp m d) (spp m d) (m.sector_size d) disk.whole

  module _ (cur : ℕ) (below : cur < capacity d * m.sector_size d) where
    next_page_fits : (cur / page_size + 1) * spp m d ≤ capacity d
    next_page_fits =
        let k = capacity d / spp m d in
        let le : cur / page_size + 1 ≤ k = omega (arith, below, disk_end) in
        let scaled = mul-le-mul_right (spp m d) le in omega (arith, scaled, disk.filled)

    fits : cur / page_size * spp m d + spp m d ≤ capacity d
    fits = grind (arith, next_page_fits)

    pub page_lba_lem : page_lba m d cur ≡ cur / page_size * spp m d
    page_lba_lem =
        let small = le-mul_of_pos_right (capacity d) disk.sized in
        omega (arith, fits, small, disk.addressed)

    pub page_start_lem : page_start m d cur ≡ cur / page_size * page_size
    page_start_lem =
        let e = page_start_eq (cur / page_size) (spp m d) (m.sector_size d) disk.whole in
        rw (page_lba_lem, e) (omega (arith, below, disk.addressed))

    pub in_page_off_lem : in_page_off (page_start m d cur) cur ≡ cur % page_size
    in_page_off_lem = rw page_start_lem (omega (arith, below, disk.addressed))

    pub page_lba-IsPage : IsPage m contents capacity d (page_lba m d cur)
    page_lba-IsPage = record {
      disk = disk;
      aligned = rw page_lba_lem (
          ap (λ x. x * spp m d)
            (sym (mul-div_cancel (cur / page_size) (spp_pos m contents capacity d disk))));
      fits = rw page_lba_lem fits;
    }

  -- The range that a call computes, for sectors that the disk has.
  module _ (l n : ℕ) (sectors : l + n ≤ capacity d) (short : n * m.sector_size d < 2 ^ 32) where
    pub range_below : l * m.sector_size d + n * m.sector_size d ≤ capacity d * m.sector_size d
    range_below =
        let scaled = mul-le-mul_right (m.sector_size d) sectors in
        omega (arith, scaled, add-mul l n (m.sector_size d))

    pub byte_offset_lem : byte_offset m d l ≡ l * m.sector_size d
    byte_offset_lem = omega (arith, range_below, disk.addressed, short)

    pub byte_count_lem : byte_count m d n ≡ n * m.sector_size d
    byte_count_lem = omega (arith, short)

    pub end_byte_lem : end_byte m d l n ≡ l * m.sector_size d + n * m.sector_size d
    end_byte_lem = omega (arith, byte_offset_lem, byte_count_lem, range_below, disk.addressed)
