-- ===== src/Mem/PhysAlloc/Start/Loops.antt =====
-- The loops of PhysAllocInit over the pages of an area.
use k_os.Prelude.{
  ℕ, zero, suc, ◌+◌, ◌-◌, ◌*◌, ◌/◌, ◌%◌, ◌^◌, ◌≤◌, ◌<◌, ◌≡◌, refl, sym, ap, subst, ◌∙◌, ◌⊎◌, inl,
  inr, Bool, true, false, not, ◌&&◌, ◌||◌, arith, ltb, leb, ◌==◌, if◌then◌else◌, lt→ltb, ==→eq,
  Bool-cases,
}
use native.Mathlib.Decide.{ℕ_discrete}
use k_os.Mem.Bitmap.{clear_at}
use k_os.Mem.PhysAlloc.{PhysAlloc, page_used, mark_page, add_32}
use k_os.Mem.PhysAlloc.Pages.{
  IsValid, SameFrame, mark_page-SameFrame, mark_page-IsValid, page_used-mark_page,
}
use k_os.Mem.PhysAlloc.Start.{each_page, page_index, in_area, free_at, reserve_at}

-- The address of a page.
abbrev pub addr_of : PhysAlloc → ℕ → ℕ
addr_of p j = p.base_addr + j * 4096

pub each_page_rule :
    (P : ℕ → PhysAlloc → Type 0) (body : ℕ → PhysAlloc → PhysAlloc) (start last : ℕ)
    → start + last * 4096 < 2 ^ 64
    → ((i : ℕ) (q : PhysAlloc) → i < last → P i q → P (suc i) (body (start + i * 4096) q))
    → (rounds i : ℕ) (q : PhysAlloc) → i + rounds ≡ last
    → P i q
    → P last (each_page rounds (start + i * 4096) body q)
unfolding each_page
each_page_rule P body start last fits keep zero i q e h = subst (λ k. P k q) (omega arith) h
each_page_rule P body start last fits keep (suc rounds) i q e h =
    let following : (start + i * 4096 + 4096) % 2 ^ 64 ≡ start + suc i * 4096 = omega arith in
    rw following (
      each_page_rule P body start last fits keep rounds (suc i) (body (start + i * 4096) q)
        (omega arith) (keep i q (omega arith) h))

-- `q` is `p` with the page bits `f`.
pub record Sets (p : PhysAlloc) (f : ℕ → Bool) (q : PhysAlloc) : Type 0 where
  pub valid : IsValid q
  pub frame : SameFrame p q
  pub pages : (j : ℕ) → j < p.total_pages → page_used q j ≡ f j

pub SameFrame-trans : {p q r : PhysAlloc} → SameFrame p q → SameFrame q r → SameFrame p r
SameFrame-trans f g = record {
  same_ptr = g.same_ptr ∙ f.same_ptr;
  same_base = g.same_base ∙ f.same_base;
  same_total = g.same_total ∙ f.same_total;
  same_length = g.same_length ∙ f.same_length;
}

pub Sets-same :
    (p q : PhysAlloc) (f g : ℕ → Bool)
    → Sets p f q
    → ((j : ℕ) → j < p.total_pages → g j ≡ f j)
    → Sets p g q
Sets-same p q f g s e = record {
  valid = s.valid;
  frame = s.frame;
  pages = λ j lt. s.pages j lt ∙ sym (e j lt);
}

Sets-mark :
    (p q : PhysAlloc) (f : ℕ → Bool) (page : ℕ) (used : Bool)
    → Sets p f q
    → page < p.total_pages
    → Sets p (λ j. if page == j then used else f j) (mark_page q page used)
Sets-mark p q f page used s lt =
    let inside : page < q.total_pages = omega (arith, s.frame.same_total) in
    record {
      valid = mark_page-IsValid q page used s.valid inside;
      frame = SameFrame-trans s.frame (mark_page-SameFrame q page used);
      pages = λ j h.
          page_used-mark_page q page used s.valid inside j
          ∙ ap (λ b. if page == j then used else b) (s.pages j h);
    }

-- The number of a page of the allocator.
page_index-addr :
    (q : PhysAlloc) (j : ℕ)
    → IsValid q
    → j < q.total_pages
    → page_index q (q.base_addr + j * 4096) ≡ j
page_index-addr q j v lt = omega (arith, v.small, v.no_wrap)

mark_page-clears :
    (q : PhysAlloc) (page : ℕ)
    → page_used q page ≡ true
    → mark_page q page false
      ≡ record q { bitmap = clear_at q.bitmap page; used_pages = add_32 q.used_pages (2 ^ 32 - 1) }
unfolding mark_page
mark_page-clears q page y = rw y refl

module _ (p : PhysAlloc) (v : IsValid p) (start : ℕ) (aligned : start % 4096 ≡ 0) where
  abbrev pub in_pages : ℕ → ℕ → Bool
  in_pages n j = leb start (addr_of p j) && ltb (addr_of p j) (start + n * 4096)

  -- A round about an address that is none of a page.
  elsewhere :
      (i : ℕ)
      → (start + i * 4096 < p.base_addr) ⊎ (p.base_addr + p.total_pages * 4096 ≤ start + i * 4096)
      → (j : ℕ) → j < p.total_pages
      → in_pages (suc i) j ≡ in_pages i j
  elsewhere i (inl below) j lt = ground (arith, aligned, v.aligned)
  elsewhere i (inr above) j lt = ground (arith, aligned, v.aligned)

  -- A round about a page.
  here :
      (i page : ℕ)
      → start + i * 4096 ≡ addr_of p page
      → (j : ℕ) → in_pages (suc i) j ≡ (if page == j then true else in_pages i j)
  here i page e j = ground (arith, e)

  outside_or :
      (a : ℕ)
      → ((a < p.base_addr) ⊎ (p.base_addr + p.total_pages * 4096 ≤ a))
        ⊎ ((p.base_addr ≤ a) × (a < p.base_addr + p.total_pages * 4096))
  outside_or a = ground arith

  or_if : (c x y : Bool) → (x || (if c then true else y)) ≡ (if c then true else (x || y))
  or_if true x y = ground arith
  or_if false x y = refl

  pub reserve_at-Sets :
      (f : ℕ → Bool) (i : ℕ) (q : PhysAlloc)
      → start + i * 4096 < 2 ^ 64
      → Sets p (λ j. f j || in_pages i j) q
      → Sets p (λ j. f j || in_pages (suc i) j) (reserve_at (start + i * 4096) q)
  unfolding reserve_at
  reserve_at-Sets f i q fits s =
      let a = start + i * 4096 in
      let page = (a - p.base_addr) / 4096 in
      let whole : (q.base_addr + q.total_pages * 4096) % 2 ^ 64
          ≡ q.base_addr + q.total_pages * 4096 =
        omega (arith, s.valid.no_wrap) in
      elim (outside_or a) [
        | inl out ↦
            let skipped : (leb q.base_addr a && ltb a (q.base_addr + q.total_pages * 4096))
                ≡ false =
              ground (arith, s.frame.same_base, s.frame.same_total) in
            rw (whole, skipped)
              (Sets-same p q (λ j. f j || in_pages i j) (λ j. f j || in_pages (suc i) j) s
                (λ j lt. ap (λ b. f j || b) (elsewhere i out j lt)))
        | inr (least, less) ↦
            let taken : (leb q.base_addr a && ltb a (q.base_addr + q.total_pages * 4096)) ≡ true =
              ground (arith, s.frame.same_base, s.frame.same_total) in
            let place : a ≡ addr_of p page = omega (arith, aligned, v.aligned) in
            let lt : page < p.total_pages = omega arith in
            let number : page_index q a ≡ page =
              omega
                (arith, s.valid.no_wrap, s.frame.same_base, s.frame.same_total, v.small, fits) in
            rw (whole, taken, number, lt→ltb page q.total_pages (omega (arith, s.frame.same_total)))
              (Sets-same p (mark_page q page true)
                (λ j. if page == j then true else (f j || in_pages i j))
                (λ j. f j || in_pages (suc i) j)
                (Sets-mark p q (λ j. f j || in_pages i j) page true s lt)
                (λ j _.
                  ap (λ b. f j || b) (here i page place j)
                  ∙ or_if (page == j) (f j) (in_pages i j)))
      ]

  -- The pages of the area that are not of the bitmap.
  module _ (bitmap : ℕ × ℕ) (highest : ℕ) (top : highest ≡ p.base_addr + p.total_pages * 4096) where
    abbrev pub freed_pages : ℕ → ℕ → Bool
    freed_pages n j = in_pages n j && not (in_area bitmap (addr_of p j))

    not_here :
        (i : ℕ)
        → in_area bitmap (start + i * 4096) ≡ true
        → (j : ℕ) → freed_pages (suc i) j ≡ freed_pages i j
    not_here i y j = elim (ℕ_discrete (addr_of p j) (start + i * 4096)) [
      | yes e ↦
          let covered : in_area bitmap (addr_of p j) ≡ true = rw e y in
          rw covered (both_false (in_pages (suc i) j) (in_pages i j))
      | no ne ↦
          let same : in_pages (suc i) j ≡ in_pages i j = ground (arith, aligned, v.aligned) in
          rw same refl
    ]
      where
        both_false : (x y : Bool) → (x && false) ≡ (y && false)
        both_false true true = refl
        both_false true false = refl
        both_false false true = refl
        both_false false false = refl

    still_used :
        (f : ℕ → Bool) (i page : ℕ)
        → start + i * 4096 ≡ addr_of p page
        → f page ≡ true
        → (f page && not (freed_pages i page)) ≡ true
    still_used f i page e y =
        let ahead : in_pages i page ≡ false = ground (arith, e) in rw (y, ahead) refl

    freed_here :
        (f : ℕ → Bool) (i page : ℕ)
        → start + i * 4096 ≡ addr_of p page
        → in_area bitmap (start + i * 4096) ≡ false
        → (j : ℕ)
        → (f j && not (freed_pages (suc i) j))
          ≡ (if page == j then false else (f j && not (freed_pages i j)))
    freed_here f i page e n j = elim (Bool-cases (page == j)) [
      | inl y ↦
          let outside : in_area bitmap (addr_of p j) ≡ false =
            ap (λ k. in_area bitmap (addr_of p k)) (sym (==→eq page j y))
            ∙ ap (in_area bitmap) (sym e)
            ∙ n in
          rw (here i page e j, y, outside) (and_false (f j))
      | inr other ↦ rw (here i page e j, other) refl
    ]
      where
        and_false : (x : Bool) → (x && false) ≡ false
        and_false true = refl
        and_false false = refl

    pub free_at-Sets :
        (f : ℕ → Bool) (i : ℕ) (q : PhysAlloc)
        → start + i * 4096 < 2 ^ 64
        → ((j : ℕ) → j < p.total_pages → addr_of p j ≡ start + i * 4096 → f j ≡ true)
        → Sets p (λ j. f j && not (freed_pages i j)) q
        → Sets p
            (λ j. f j && not (freed_pages (suc i) j))
            (free_at bitmap highest (start + i * 4096) q)
    unfolding free_at
    free_at-Sets f i q fits used s =
        let a = start + i * 4096 in
        elim (Bool-cases (in_area bitmap a)) [
          | inl y ↦ rw y (
              Sets-same p q (λ j. f j && not (freed_pages i j))
                (λ j. f j && not (freed_pages (suc i) j)) s
                (λ j _. ap (λ b. f j && not b) (not_here i y j)))
          | inr n ↦ elim (outside_or a) [
            | inl out ↦
                let skipped : (leb q.base_addr a && ltb a highest) ≡ false =
                  ground (arith, s.frame.same_base, top) in
                rw (n, skipped)
                  (Sets-same p q (λ j. f j && not (freed_pages i j))
                    (λ j. f j && not (freed_pages (suc i) j)) s
                    (λ j lt.
                      ap (λ b. f j && not (b && not (in_area bitmap (addr_of p j))))
                        (elsewhere i out j lt)))
            | inr (least, less) ↦
                let page = (a - p.base_addr) / 4096 in
                let taken : (leb q.base_addr a && ltb a highest) ≡ true =
                  ground (arith, s.frame.same_base, top) in
                let place : a ≡ addr_of p page = omega (arith, aligned, v.aligned) in
                let lt : page < p.total_pages = omega arith in
                let number : page_index q a ≡ page =
                  omega (
                    arith, s.valid.no_wrap, s.frame.same_base, s.frame.same_total, v.small, fits,
                  ) in
                let set : page_used q page ≡ true =
                  s.pages page lt ∙ still_used f i page place (used page lt (sym place)) in
                rw
                  (
                    n,
                    taken,
                    number,
                    lt→ltb page q.total_pages (omega (arith, s.frame.same_total)),
                    ← mark_page-clears q page set,
                  )
                  (Sets-same p (mark_page q page false)
                    (λ j. if page == j then false else (f j && not (freed_pages i j)))
                    (λ j. f j && not (freed_pages (suc i) j))
                    (Sets-mark p q (λ j. f j && not (freed_pages i j)) page false s lt)
                    (λ j _. freed_here f i page place n j))
          ]
        ]
