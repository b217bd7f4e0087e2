-- ===== src/Mem/PhysAlloc/Ops/Release.antt =====
-- Giving pages back, and what happens to a virtual address that is given back as it is.
use k_os.Prelude.{
  ℕ, ◌+◌, ◌*◌, ◌/◌, ◌%◌, ◌^◌, ◌≤◌, ◌<◌, ◌≡◌, ◌≢◌, inl, inr, refl, sym, ap, ◌∙◌, true, false, arith,
  Bool-cases, ne→==, le→ltb, lt→leb,
}
use k_os.Prelude.Counting.{count_below, count_below_same}
use k_os.Prelude.Words.{page_mask, page_mask_lem}
use k_os.Mem.PhysAlloc.{PhysAlloc, page_used, mark_range_locked, mark_page}
use k_os.Mem.PhysAlloc.Pages.{IsValid, Marks, Marks-step, Marks-refl, in_range, mark_range_lem}
use k_os.Mem.PhysAlloc.Search.First.{any_page}
use k_os.Mem.PhysAlloc.Ops.{
  Grant, phys_to_virt, page_of, allocate_page_locked, free_page_locked, allocate_range_locked,
  free_range_locked,
}
use k_os.Mem.PhysAlloc.Ops.Page.{Taken, Full, allocate_page_lem}
use k_os.Mem.PhysAlloc.Ops.Range.{TakesRun, allocate_range_lem}

-- The same pages are used.
abbrev pub SamePages : PhysAlloc → PhysAlloc → Type 0
SamePages p q = (j : ℕ) → j < p.total_pages → page_used q j ≡ page_used p j

-- The counts of two allocators with the same pages agree.
used_pages-SamePages :
    (p q : PhysAlloc)
    → IsValid p
    → IsValid q
    → q.total_pages ≡ p.total_pages
    → SamePages p q
    → q.used_pages ≡ p.used_pages
used_pages-SamePages p q v w e same =
    w.counted
    ∙ ap (λ n. count_below n (page_used q)) e
    ∙ count_below_same p.total_pages (page_used p) (page_used q) same
    ∙ sym v.counted

-- What comes back is as good as `p`: it is well formed, and the same pages are used.
pub record Restored (p q : PhysAlloc) : Type 0 where
  pub valid : IsValid q
  pub same_pages : SamePages p q
  pub same_count : q.used_pages ≡ p.used_pages

Restored-refl : (p : PhysAlloc) → IsValid p → Restored p p
Restored-refl p v = record { valid = v; same_pages = λ j h. refl; same_count = refl }

unchanged : (p : PhysAlloc) → IsValid p → (q : PhysAlloc) → Marks p 0 0 true q → Restored p q
unchanged p v q m =
    let same : SamePages p q = λ j h. ground (arith, m.pages j h) in
    record {
      valid = m.valid;
      same_pages = same;
      same_count = used_pages-SamePages p q v m.valid m.frame.same_total same;
    }

free_page_null : (q : PhysAlloc) → free_page_locked q 0 ≡ q
unfolding free_page_locked
free_page_null q = ground arith

module _ (q : PhysAlloc) (addr start : ℕ) where
  -- An address whose page lies inside is freed from that page on.
  free_range_at :
      (count : ℕ)
      → addr ≢ 0
      → count ≢ 0
      → q.base_addr ≤ page_mask addr
      → page_of q (page_mask addr) ≡ start
      → start < q.total_pages
      → free_range_locked q addr count ≡ mark_range_locked q start count false
  unfolding free_range_locked
  free_range_at count a c above e inside =
      rw (ne→== addr 0 a, ne→== count 0 c, le→ltb _ _ above, e, lt→leb _ _ inside)

  free_page_at :
      addr ≢ 0
      → q.bitmap_ptr ≢ 0
      → q.base_addr ≤ page_mask addr
      → page_of q (page_mask addr) ≡ start
      → start < q.total_pages
      → free_page_locked q addr ≡ mark_page q start false
  unfolding free_page_locked
  free_page_at a m above e inside =
      rw (ne→== addr 0 a, ne→== q.bitmap_ptr 0 m, le→ltb _ _ above, e, lt→leb _ _ inside)

module _ (p : PhysAlloc) (v : IsValid p) where
  -- The address of a page, given back through the direct map: the page that it is taken for is
  -- `hhdm / 4096` further on, cut to 32 bits.
  pub page_of_virtual :
      (hhdm r : ℕ)
      → hhdm % 4096 ≡ 0
      → hhdm + p.base_addr + p.total_pages * 4096 < 2 ^ 64
      → r < p.total_pages
      → (page_mask (phys_to_virt hhdm (p.base_addr + r * 4096)) ≡ p.base_addr + r * 4096 + hhdm)
        × (page_of p (page_mask (phys_to_virt hhdm (p.base_addr + r * 4096)))
            ≡ (hhdm / 4096 + r) % 2 ^ 32)
  page_of_virtual hhdm r aligned fits h =
      let addr : phys_to_virt hhdm (p.base_addr + r * 4096) ≡ p.base_addr + r * 4096 + hhdm =
        omega arith in
      let mask : page_mask (p.base_addr + r * 4096 + hhdm) ≡ p.base_addr + r * 4096 + hhdm =
        omega (arith, page_mask_lem (p.base_addr + r * 4096 + hhdm) (omega arith), v.aligned) in
      rw (addr, mask) (refl, omega arith)

module _ (p : PhysAlloc) (v : IsValid p) where
  -- Pages marked and unmarked again.
  unmarked :
      (r count : ℕ) (q q' : PhysAlloc)
      → Marks p r count true q
      → Marks q r count false q'
      → ((k : ℕ) → r ≤ k → k < r + count → page_used p k ≡ false)
      → Restored p q'
  unmarked r count q q' m m' free = record {
    valid = m'.valid;
    same_pages = same;
    same_count =
        used_pages-SamePages p q' v m'.valid (m'.frame.same_total ∙ m.frame.same_total) same;
  }
    where
      same : SamePages p q'
      same j h = elim (Bool-cases (in_range r count j)) [
        | inl inside ↦
            m'.pages j (omega (arith, m.frame.same_total))
            ∙ rw inside (sym (free j (ground arith) (ground arith)))
        | inr outside ↦
            m'.pages j (omega (arith, m.frame.same_total)) ∙ rw outside (m.pages j h ∙ rw outside)
      ]

  -- PhysAllocAllocateRange followed by PhysAllocFreeRange of its answer restores the allocator,
  -- where the offset of the direct map is a multiple of 2 ^ 44.
  pub free_range-allocate_range :
      (hhdm count : ℕ)
      → 0 < hhdm
      → hhdm % 2 ^ 44 ≡ 0
      → hhdm + p.base_addr + p.total_pages * 4096 < 2 ^ 64
      → 0 < count
      → Restored p (
          free_range_locked
            (allocate_range_locked hhdm p count).alloc
            (allocate_range_locked hhdm p count).addr
            count)
  free_range-allocate_range hhdm count hpos high fits pos =
      elim (allocate_range_lem hhdm p v count pos) [
        | inl (r, taken, addr, _) ↦ given_back (allocate_range_locked hhdm p count) r taken addr
        | inr (_, nothing) ↦ rw nothing (unfold free_range_locked in Restored-refl p v)
      ]
    where
      given_back :
          (g : Grant) (r : ℕ)
          → TakesRun p any_page count p.total_pages r g.alloc
          → g.addr ≡ phys_to_virt hhdm (p.base_addr + r * 4096)
          → Restored p (free_range_locked g.alloc g.addr count)
      given_back g r taken addr =
          let q = g.alloc in
          let w = taken.marks.valid in
          let same_base = taken.marks.frame.same_base in
          let same_total = taken.marks.frame.same_total in
          let inside : r < q.total_pages = omega (arith, taken.run.fits) in
          let fits' : hhdm + q.base_addr + q.total_pages * 4096 < 2 ^ 64 = omega arith in
          let at = page_of_virtual q w hhdm r (omega arith) fits' inside in
          let here : g.addr ≡ phys_to_virt hhdm (q.base_addr + r * 4096) = rw same_base addr in
          let freed =
            free_range_at q (phys_to_virt hhdm (q.base_addr + r * 4096)) r count (omega arith)
              (omega arith) (omega (arith, at.0)) (omega (arith, at.1)) inside in
          rw (here, freed)
            (unmarked r count q (mark_range_locked q r count false) taken.marks
              (mark_range_lem q r count false w (omega (arith, w.small))) taken.run.free)

  -- PhysAllocAllocatePage followed by PhysAllocFreePage of its answer restores the allocator; the
  -- page at physical address 0, whose address is NULLPTR, is left out.
  pub free_page-allocate_page :
      p.bitmap_ptr ≢ 0
      → 0 < p.base_addr
      → Restored p (free_page_locked (allocate_page_locked p).alloc (allocate_page_locked p).addr)
  free_page-allocate_page mapped low = elim (allocate_page_lem p v mapped) [
    | inl (i, taken) ↦ given_back (allocate_page_locked p) i taken
    | inr (null, full) ↦ not_given (allocate_page_locked p) null full
  ]
    where
      given_back : (g : Grant) (i : ℕ) → Taken p i g → Restored p (free_page_locked g.alloc g.addr)
      given_back g i taken =
          let q = g.alloc in
          let w = taken.marks.valid in
          let frame = taken.marks.frame in
          let inside : i < q.total_pages = omega (arith, taken.inside) in
          let at = page_of_virtual q w 0 i (omega arith) (omega (arith, w.no_wrap)) inside in
          let here : g.addr ≡ phys_to_virt 0 (q.base_addr + i * 4096) =
            omega (arith, taken.addr, w.no_wrap) in
          let freed =
            free_page_at q (phys_to_virt 0 (q.base_addr + i * 4096)) i (omega (arith, w.no_wrap))
              (rw frame.same_ptr mapped) (omega (arith, at.0)) (omega (arith, at.1, w.small))
              inside in
          rw (here, freed)
            (unmarked i 1 q (mark_page q i false) taken.marks
              (Marks-step q i 0 false q (Marks-refl q i false w) i (omega arith) inside)
              (λ k lo hi. let e : k ≡ i = omega arith in rw e taken.was_free))

      not_given :
          (g : Grant) → g.addr ≡ 0 → Full p g.alloc → Restored p (free_page_locked g.alloc g.addr)
      not_given g null full = rw (null, free_page_null g.alloc) (unchanged p v g.alloc full.1)
