-- ===== src/Mem/PhysAlloc/Pages.antt =====
-- What marking one page, or a range of pages, does to the allocator.
use k_os.Prelude.{
  ℕ, suc, ◌+◌, ◌*◌, ◌%◌, ◌^◌, ◌≤◌, ◌<◌, ◌≡◌, ◌⊎◌, inl, inr, refl, Bool, ◌&&◌, arith, ltb, leb, ◌==◌,
  if◌then◌else◌, Bool-cases, ◌∙◌, leb→le, leb→lt, length,
}
use k_os.Prelude.Counting.{count_below, count_below-le}
use k_os.Mem.Bitmap.{
  IsBytes, bit_at-set_at, bit_at-clear_at, set_at-IsBytes, clear_at-IsBytes, length-set_at,
  length-clear_at, count-set_at, count-clear_at,
}
use k_os.Mem.PhysAlloc.{
  PhysAlloc, page_used, mark_page, add_32, mark_body, mark_range_locked, final,
}
use k_os.Prelude.Loops.{FlowPost, Post, Outcome, fell, returned, for_loop, for_loop_rule}

-- The allocator is well formed: no index of a page wraps, the bitmap has a byte for each page,
-- no address of a page wraps, and UsedPages counts the pages whose bit is set.
pub record IsValid (p : PhysAlloc) : Type 0 where
  pub small : p.total_pages + 8 ≤ 2 ^ 32
  pub room : p.total_pages ≤ 8 * length p.bitmap
  pub bytes : IsBytes p.bitmap
  pub aligned : p.base_addr % 4096 ≡ 0
  pub no_wrap : p.base_addr + p.total_pages * 4096 < 2 ^ 64
  pub counted : p.used_pages ≡ count_below p.total_pages (page_used p)

-- What no operation changes.
pub record SameFrame (p q : PhysAlloc) : Type 0 where
  pub same_ptr : q.bitmap_ptr ≡ p.bitmap_ptr
  pub same_base : q.base_addr ≡ p.base_addr
  pub same_total : q.total_pages ≡ p.total_pages
  pub same_length : length q.bitmap ≡ length p.bitmap

module _ (p : PhysAlloc) (page : ℕ) (used : Bool) where
  pub mark_page-SameFrame : SameFrame p (mark_page p page used)
  unfolding mark_page
  mark_page-SameFrame = ground (arith, length-set_at p.bitmap page, length-clear_at p.bitmap page)

  module _ (v : IsValid p) (h : page < p.total_pages) where
    pub page_used-mark_page :
        (j : ℕ) → page_used (mark_page p page used) j ≡ (if page == j then used else page_used p j)
    unfolding mark_page
    page_used-mark_page j =
        ground
          (arith, bit_at-set_at p.bitmap v.bytes page j, bit_at-clear_at p.bitmap v.bytes page j)

    pub mark_page-counted :
        (mark_page p page used).used_pages
        ≡ count_below p.total_pages (page_used (mark_page p page used))
    unfolding mark_page
    mark_page-counted = ground (
      arith,
      v.counted,
      v.small,
      v.room,
      count_below-le p.total_pages (page_used p),
      count-set_at p.bitmap v.bytes p.total_pages page,
      count-clear_at p.bitmap v.bytes p.total_pages page,
    )

    mark_page-IsBytes : IsBytes (mark_page p page used).bitmap
    unfolding mark_page
    mark_page-IsBytes = ground (
      arith,
      v.bytes,
      set_at-IsBytes p.bitmap v.bytes page,
      clear_at-IsBytes p.bitmap v.bytes page,
    )

    pub mark_page-IsValid : IsValid (mark_page p page used)
    mark_page-IsValid =
        let f : SameFrame p (mark_page p page used) = mark_page-SameFrame in
        record {
          small = omega (arith, v.small, f.same_total);
          room = omega (arith, v.room, f.same_total, f.same_length);
          bytes = mark_page-IsBytes;
          aligned = omega (arith, v.aligned, f.same_base);
          no_wrap = omega (arith, v.no_wrap, f.same_base, f.same_total);
          counted = rw f.same_total mark_page-counted;
        }

-- `start <= j && j < start + n`
abbrev pub in_range : ℕ → ℕ → ℕ → Bool
in_range start n j = leb start j && ltb j (start + n)

-- The allocator `q` is `p` with `n` pages from `start` on marked.
pub record Marks (p : PhysAlloc) (start n : ℕ) (used : Bool) (q : PhysAlloc) : Type 0 where
  pub valid : IsValid q
  pub frame : SameFrame p q
  pub pages :
      (j : ℕ)
      → j < p.total_pages
      → page_used q j ≡ (if in_range start n j then used else page_used p j)

-- One more page.
pub Marks-step :
    (p : PhysAlloc) (start i : ℕ) (used : Bool) (q : PhysAlloc)
    → Marks p start i used q
    → (page : ℕ) → page ≡ start + i
    → page < q.total_pages
    → Marks p start (suc i) used (mark_page q page used)
Marks-step p start i used q m page e lt =
    let f : SameFrame q (mark_page q page used) = mark_page-SameFrame q page used in
    record {
      valid = mark_page-IsValid q page used m.valid lt;
      frame = record {
        same_ptr = f.same_ptr ∙ m.frame.same_ptr;
        same_base = f.same_base ∙ m.frame.same_base;
        same_total = f.same_total ∙ m.frame.same_total;
        same_length = f.same_length ∙ m.frame.same_length;
      };
      pages = λ j hj. ground (arith, page_used-mark_page q page used m.valid lt j, m.pages j hj, e);
    }

-- No page marked: from wherever the count starts.
pub Marks-none :
    (p : PhysAlloc) (start start' : ℕ) (used used' : Bool) (q : PhysAlloc)
    → Marks p start 0 used q
    → Marks p start' 0 used' q
Marks-none p start start' used used' q m = record {
  valid = m.valid;
  frame = m.frame;
  pages = λ j hj. ground (arith, m.pages j hj);
}

pub Marks-refl : (p : PhysAlloc) (start : ℕ) (used : Bool) → IsValid p → Marks p start 0 used p
Marks-refl p start used v = record {
  valid = v;
  frame = record { same_ptr = refl; same_base = refl; same_total = refl; same_length = refl };
  pages = λ j hj. ground arith;
}

module _ (p : PhysAlloc) (start count : ℕ) (used : Bool) (v : IsValid p) (s : start < 2 ^ 32) where
  -- Before round `i`: `i` pages are marked, all of them inside.
  abbrev Round : ℕ → PhysAlloc → Type 0
  Round i q = Marks p start i used q × ((i ≡ 0) ⊎ (start + i ≤ p.total_pages))

  mark_body-Round :
      (i : ℕ) (q : PhysAlloc)
      → i < count
      → Round i q
      → FlowPost (Round (suc i)) (Marks p start count used) (λ _. ⊥) (mark_body start used i q)
  unfolding mark_body
  mark_body-Round i q h (m, inside) = elim (Bool-cases (leb q.total_pages (add_32 start i))) [
    | inl out ↦
        let end = leb→le _ _ out in
        rw out (record {
          valid = m.valid;
          frame = m.frame;
          pages = λ j hj. ground (arith, m.pages j hj, m.frame.same_total, v.small);
        })
    | inr fits ↦
        let lt = leb→lt _ _ fits in
        rw fits (
          Marks-step p start i used q m (add_32 start i) (omega (arith, v.small)) lt,
          inr (omega arith),
        )
  ]

  pub mark_range_lem : Marks p start count used (mark_range_locked p start count used)
  unfolding mark_range_locked
  mark_range_lem = finish (for_loop count 0 (mark_body start used) p) (
      for_loop_rule Round (Marks p start count used) (λ _. ⊥) (mark_body start used) count
        mark_body-Round (λ q r. r.0) count 0 p (omega arith) (Marks-refl p start used v, inl refl))
    where
      finish :
          (o : Outcome PhysAlloc (Unit {0}))
          → Post (Marks p start count used) (λ _. ⊥) o
          → Marks p start count used (final o p)
      finish (fell q) m = m
      finish (returned r) m = absurd m
