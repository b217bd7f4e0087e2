-- ===== src/Mem/LowMem/Bump.antt =====
-- The region that LowMem.c picks, and the addresses it hands out from it.
use k_os.Prelude.{
  ℕ, ◌+◌, ◌-◌, ◌*◌, ◌/◌, ◌%◌, ◌^◌, ◌≤◌, ◌<◌, ◌≡◌, refl, ◌⊎◌, inl, inr, true, false, not, some, List,
  [], ◌∷◌, arith, ltb, ltb→lt, ltb→le, le→ltb, ne→==, Bool-cases, All,
}
use k_os.Prelude.Words.{align_mask_lem}
use k_os.Mem.LowMem.{
  MemmapEntry, LowMemState, Grant, refused, entry_start, entry_fits, find_region, rounded, allocate,
  phys,
}

-- The entry's bytes end, and can be rounded up, below 2^64.
abbrev pub NoWrap : MemmapEntry → Type 0
NoWrap e = e.base + e.length + 0x10000 < 2 ^ 64

-- 256 KiB from `r` on lie in usable memory of the entry, below 16 MiB, and `r` is aligned.
pub record Holds (e : MemmapEntry) (r : ℕ) : Type 0 where
  pub is_usable : e.kind ≡ 0
  pub above : e.base ≤ r
  pub inside : r + 0x40000 ≤ e.base + e.length
  pub low : r + 0x40000 ≤ 0x1000000
  pub aligned : r % 0x10000 ≡ 0

-- Some entry of the list holds the region.
abbrev pub Backed : List MemmapEntry → ℕ → Type 0
Backed [] r = ⊥
Backed (e ∷ es) r = Holds e r ⊎ Backed es r

entry_fits-Holds : (e : MemmapEntry) → NoWrap e → entry_fits e ≡ true → Holds e (entry_start e)
unfolding entry_fits
entry_fits-Holds e nw h =
    let mask = align_mask_lem 16 ((e.base + 0x10000 - 1) % 2 ^ 64) (omega arith) (omega arith) in
    record {
      is_usable = ground arith;
      above = omega (arith, mask);
      inside = ground (arith, mask);
      low = ground (arith, mask);
      aligned = omega (arith, mask);
    }

-- LowMemFindRegion answers 0, or an aligned region of 256 KiB below 16 MiB that lies inside a usable
-- entry of the memory map, where no entry wraps around.
pub find_region-Backed :
    (es : List MemmapEntry) → All NoWrap es → (find_region es ≡ 0) ⊎ Backed es (find_region es)
unfolding find_region
find_region-Backed [] nw = inl refl
find_region-Backed (e ∷ es) nw = elim (Bool-cases (entry_fits e)) [
  | inl y ↦ rw y (inr (inl (entry_fits-Holds e nw.0 y)))
  | inr n ↦ rw n (elim (find_region-Backed es nw.1) [ inl z ↦ inl z | inr b ↦ inr (inr b) ])
]

-- The state after a successful LowMemInit and any calls of LowMemAllocate that do not wrap.
pub record IsValid (s : LowMemState) : Type 0 where
  pub ready : s.initialized ≡ true
  pub total : s.total_pages ≡ 64
  pub used : s.used_pages ≤ 64
  pub grain : s.used_pages % 16 ≡ 0
  pub virt : s.virt_base + 0x40000 < 2 ^ 64
  pub virt_pos : 0 < s.virt_base
  pub phys_low : s.phys_base + 0x40000 ≤ 0x1000000
  pub phys_aligned : s.phys_base % 0x10000 ≡ 0

rounded_lem :
    (count : ℕ)
    → count ≤ 2 ^ 32 - 16
    → (count ≤ rounded count) × (rounded count < count + 16) × (rounded count % 16 ≡ 0)
unfolding rounded
rounded_lem count h =
    let mask = align_mask_lem 4 (count + 16 - 1) (omega arith) (omega arith) in
    (omega (arith, mask), omega (arith, mask), omega (arith, mask))

rounded_wraps : (count : ℕ) → 2 ^ 32 - 16 < count → count < 2 ^ 32 → rounded count ≡ 0
unfolding rounded
rounded_wraps count h k =
    let mask = align_mask_lem 4 (count + 16 - 1) (omega arith) (omega arith) in omega (arith, mask)

-- The call takes the next pages, `n` of them, rounded up to a multiple of 16.
pub record Bumps (s : LowMemState) (count : ℕ) (g : Grant) : Type 0 where
  pub valid : IsValid g.state
  pub enough : s.used_pages + count ≤ g.state.used_pages
  pub tight : g.state.used_pages < s.used_pages + count + 16
  pub addr : g.addr ≡ s.virt_base + s.used_pages * 4096
  pub cleared : g.cleared ≡ some (g.addr, (g.state.used_pages - s.used_pages) * 4096)
  -- LowMemPhys gives the physical address of the grant, a multiple of 64 KiB.
  pub phys_addr : phys g.state g.addr ≡ s.phys_base + s.used_pages * 4096
  pub phys_grain : phys g.state g.addr % 0x10000 ≡ 0

module _ (s : LowMemState) (v : IsValid s) (count : ℕ) where
  bump-Bumps :
      (n : ℕ)
      → 0 < n
      → count ≤ n
      → n < count + 16
      → n % 16 ≡ 0
      → s.used_pages + n ≤ 64
      → Bumps s count (record {
        state = record s { used_pages = (s.used_pages + n) % 2 ^ 32 };
        addr = (s.virt_base + s.used_pages * 4096) % 2 ^ 64;
        cleared = some ((s.virt_base + s.used_pages * 4096) % 2 ^ 64, n * 4096);
      })
  unfolding phys
  bump-Bumps n pos le lt grain fits =
      let here : (s.virt_base + s.used_pages * 4096) % 2 ^ 64 ≡ s.virt_base + s.used_pages * 4096 =
        omega (arith, v.virt) in
      let span : (s.used_pages + n) % 2 ^ 32 - s.used_pages ≡ n = omega arith in
      let next_valid : IsValid (record s { used_pages = (s.used_pages + n) % 2 ^ 32 }) = record {
        ready = v.ready;
        total = v.total;
        used = omega arith;
        grain = omega (arith, v.grain);
        virt = v.virt;
        virt_pos = v.virt_pos;
        phys_low = v.phys_low;
        phys_aligned = v.phys_aligned;
      } in
      let at : phys (record s { used_pages = (s.used_pages + n) % 2 ^ 32 })
            ((s.virt_base + s.used_pages * 4096) % 2 ^ 64)
          ≡ s.phys_base + s.used_pages * 4096 =
        rw here (ground (arith, v.ready, v.total, v.virt, v.virt_pos, v.phys_low)) in
      record {
        valid = next_valid;
        enough = omega arith;
        tight = omega arith;
        addr = here;
        cleared = rw span refl;
        phys_addr = at;
        phys_grain = rw at (omega (arith, v.grain, v.phys_aligned));
      }

  -- LowMemAllocate of 1 to 2^31 pages takes the next pages of the region, a multiple of 16 pages and
  -- at least as many as asked; their virtual and physical addresses follow those of the pages that
  -- are taken. Where they do not fit it answers NULLPTR and changes nothing.
  pub allocate_lem :
      0 < count
      → count ≤ 2 ^ 31
      → Bumps s count (allocate s count)
        ⊎ ((64 < s.used_pages + (count + 15) / 16 * 16) × (allocate s count ≡ refused s))
  unfolding allocate
  allocate_lem pos small =
      let (le, lt, grain) = rounded_lem count (omega arith) in
      let ready : not s.initialized ≡ false = rw v.ready refl in
      let asked = ne→== count 0 (omega arith) in
      elim (Bool-cases (ltb s.total_pages ((s.used_pages + rounded count) % 2 ^ 32))) [
        | inl y ↦
            let over = ltb→lt _ _ y in
            inr (omega (arith, v.used, v.total), rw (ready, asked, y) refl)
        | inr n ↦
            let fits = ltb→le _ _ n in
            inl (
              rw (ready, asked, n)
                (bump-Bumps (rounded count) (omega arith) le lt grain
                  (omega (arith, v.used, v.total))))
      ]

  -- LowMemAllocate of more than 2^32 - 16 pages wraps around to none: it answers the address of the
  -- next grant and takes no page, so that every such call and the next one answer the same address.
  pub allocate_wraps :
      2 ^ 32 - 16 < count
      → count < 2 ^ 32
      → ((allocate s count).addr ≡ s.virt_base + s.used_pages * 4096)
        × ((allocate s count).state ≡ s)
  unfolding allocate
  allocate_wraps big small =
      let none_taken = rounded_wraps count big small in
      let same : (s.used_pages + 0) % 2 ^ 32 ≡ s.used_pages = omega (arith, v.used) in
      let fits : ltb s.total_pages s.used_pages ≡ false =
        le→ltb _ _ (omega (arith, v.used, v.total)) in
      let ready : not s.initialized ≡ false = rw v.ready refl in
      let here : (s.virt_base + s.used_pages * 4096) % 2 ^ 64 ≡ s.virt_base + s.used_pages * 4096 =
        omega (arith, v.virt, v.used) in
      rw (ready, ne→== count 0 (omega arith), none_taken, same, fits) (here, refl)
