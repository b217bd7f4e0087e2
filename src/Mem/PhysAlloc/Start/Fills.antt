-- ===== src/Mem/PhysAlloc/Start/Fills.antt =====
-- What the loops of PhysAllocInit make of the bitmap.
use k_os.Prelude.{
  ℕ, ◌+◌, ◌*◌, ◌%◌, ◌^◌, ◌<◌, ◌≡◌, refl, sym, ap, ◌∙◌, inl, inr, Bool, true, false, not, ◌&&◌, ◌||◌,
  List, [], ◌∷◌, arith, true≢false, Bool-cases, All,
}
use k_os.Prelude.Words.{page_mask, page_mask_lem}
use k_os.Mem.LowMem.{MemmapEntry}
use k_os.Mem.PhysAlloc.{PhysAlloc}
use k_os.Mem.PhysAlloc.Pages.{IsValid}
use k_os.Mem.PhysAlloc.Start.{
  is_usable_entry, region_end, first_whole, last_whole, each_page, pages_between, in_area, free_at,
  free_entries, reserve_at, reserve_pages,
}
use k_os.Mem.PhysAlloc.Start.Loops.{
  addr_of, each_page_rule, Sets, Sets-same, in_pages, reserve_at-Sets, freed_pages, free_at-Sets,
}

-- An address in a whole page of a usable entry, and of one of them.
abbrev pub in_entry : ℕ → MemmapEntry → Bool
in_entry a e = is_usable_entry e && in_area (first_whole e, last_whole e) a

unfoldable pub in_entries : ℕ → List MemmapEntry → Bool
in_entries a [] = false
in_entries a (e ∷ es) = let rest = in_entries a es in in_entry a e || rest

-- No page is in two usable entries.
abbrev pub Apart : List MemmapEntry → Type 0
Apart [] = Unit
Apart (e ∷ es) = ((a : ℕ) → in_entry a e ≡ true → in_entries a es ≡ false) × Apart es

pub page_mask-aligned : (x : ℕ) → x < 2 ^ 64 → (page_mask x % 4096 ≡ 0) × (page_mask x < 2 ^ 64)
page_mask-aligned x lt = let e = page_mask_lem x lt in (omega (arith, e), omega (arith, e))

pub between :
    (start end : ℕ)
    → start % 4096 ≡ 0
    → end % 4096 ≡ 0
    → start < 2 ^ 64
    → end < 2 ^ 64
    → start + pages_between start end * 4096 < 2 ^ 64
between start end s e ls le = omega arith

module _ (p : PhysAlloc) (v : IsValid p) (start end : ℕ) (s : start % 4096 ≡ 0) (e : end % 4096 ≡ 0)
    (ls : start < 2 ^ 64) (le : end < 2 ^ 64) where
  in_pages-area :
      (j : ℕ)
      → in_pages p v start s (pages_between start end) j ≡ in_area (start, end) (addr_of p j)
  in_pages-area j = ground (arith, v.aligned, s, e)

  pub reserve_pages-Sets :
      (f : ℕ → Bool) (q : PhysAlloc)
      → Sets p f q
      → Sets p (λ j. f j || in_area (start, end) (addr_of p j)) (reserve_pages start end q)
  reserve_pages-Sets f q h =
      let rounds = pages_between start end in
      let fits = between start end s e ls le in
      let here : start + 0 * 4096 ≡ start = omega arith in
      Sets-same p (reserve_pages start end q) (λ j. f j || in_pages p v start s rounds j)
        (λ j. f j || in_area (start, end) (addr_of p j))
        (rw here at (
          each_page_rule (λ i r. Sets p (λ j. f j || in_pages p v start s i j) r) reserve_at start
            rounds fits (λ i r lt g. reserve_at-Sets p v start s f i r (omega arith) g) rounds 0 q
            (omega arith)
            (Sets-same p q f (λ j. f j || in_pages p v start s 0 j) h (λ j _. ground (arith, e)))))
        (λ j _. ap (λ b. f j || b) (sym (in_pages-area j)))

  pub free_area-Sets :
      (bitmap : ℕ × ℕ) (highest : ℕ) (f : ℕ → Bool) (q : PhysAlloc)
      → highest ≡ p.base_addr + p.total_pages * 4096
      → ((j : ℕ) → j < p.total_pages → in_area (start, end) (addr_of p j) ≡ true → f j ≡ true)
      → Sets p f q
      → Sets p
          (λ j.
            f j && not (in_area (start, end) (addr_of p j) && not (in_area bitmap (addr_of p j))))
          (each_page (pages_between start end) start (free_at bitmap highest) q)
  free_area-Sets bitmap highest f q top used h =
      let rounds = pages_between start end in
      let fits = between start end s e ls le in
      let here : start + 0 * 4096 ≡ start = omega arith in
      let freed : ℕ → ℕ → Bool =
        λ i j. f j && not (freed_pages p v start s bitmap highest top i j) in
      Sets-same p (each_page rounds start (free_at bitmap highest) q) (freed rounds)
        (λ j. f j && not (in_area (start, end) (addr_of p j) && not (in_area bitmap (addr_of p j))))
        (rw here at (
          each_page_rule (λ i r. Sets p (freed i) r) (free_at bitmap highest) start rounds fits
            (λ i r lt g.
              free_at-Sets p v start s bitmap highest top f i r (omega arith)
                (λ j inside place. used j inside (ground (arith, place, s, e))) g)
            rounds 0 q (omega arith) (Sets-same p q f (freed 0) h (λ j _. nothing_freed f j))))
        (λ j _.
          ap (λ b. f j && not (b && not (in_area bitmap (addr_of p j)))) (sym (in_pages-area j)))
    where
      nothing_freed :
          (g : ℕ → Bool) (j : ℕ)
          → (g j && not (freed_pages p v start s bitmap highest top 0 j)) ≡ g j
      nothing_freed g j = ground arith

and_true : (x : Bool) → (x && true) ≡ x
and_true true = refl
and_true false = refl

or_true : (x : Bool) → (x || true) ≡ true
or_true true = refl
or_true false = refl

not_either : (f x y c : Bool) → (f && not ((x || y) && c)) ≡ ((f && not (x && c)) && not (y && c))
not_either true true y true = refl
not_either true true y false = ground arith
not_either true false y c = refl
not_either false x y c = refl

apart_here :
    (a : ℕ) (e : MemmapEntry) (es : List MemmapEntry)
    → ((b : ℕ) → in_entry b e ≡ true → in_entries b es ≡ false)
    → in_entries a es ≡ true
    → is_usable_entry e ≡ true
    → in_area (first_whole e, last_whole e) a ≡ false
apart_here a e es apart y usable = elim (Bool-cases (in_area (first_whole e, last_whole e) a)) [
  | inr n ↦ n
  | inl both ↦ absurd (true≢false (sym y ∙ apart a (rw (usable, both) refl)))
]

-- The addresses of an entry do not wrap.
abbrev pub IsMap : List MemmapEntry → Type 0
IsMap = All (λ e. e.base + e.length + 4095 < 2 ^ 64)

module _ (p : PhysAlloc) (v : IsValid p) (bitmap : ℕ × ℕ) (highest : ℕ)
    (top : highest ≡ p.base_addr + p.total_pages * 4096) where
  abbrev kept : ℕ → List MemmapEntry → Bool
  kept j es = not (in_entries (addr_of p j) es && not (in_area bitmap (addr_of p j)))

  pub free_entries-Sets :
      (es : List MemmapEntry) (f : ℕ → Bool) (q : PhysAlloc)
      → IsMap es
      → Apart es
      → ((j : ℕ) → j < p.total_pages → in_entries (addr_of p j) es ≡ true → f j ≡ true)
      → Sets p f q
      → Sets p (λ j. f j && kept j es) (free_entries bitmap highest es q)
  unfolding free_entries in_entries
  free_entries-Sets [] f q m apart used h =
      Sets-same p q f (λ j. f j && kept j []) h (λ j _. and_true (f j))
  free_entries-Sets (e ∷ es) f q m apart used h = elim (Bool-cases (is_usable_entry e)) [
    | inr n ↦ rw n (free_entries-Sets es f q m.1 apart.1 (λ j lt y. used j lt (rw n y)) h)
    | inl y ↦
        let first = page_mask-aligned ((e.base + 4095) % 2 ^ 64) (omega arith) in
        let last = page_mask-aligned (region_end e) (omega arith) in
        let mine : ℕ → Bool = λ j. in_area (first_whole e, last_whole e) (addr_of p j) in
        let g : ℕ → Bool = λ j. f j && not (mine j && not (in_area bitmap (addr_of p j))) in
        let once : Sets p g (
            each_page (pages_between (first_whole e) (last_whole e)) (first_whole e)
              (free_at bitmap highest) q) =
          free_area-Sets p v (first_whole e) (last_whole e) first.0 last.0 first.1 last.1 bitmap
            highest f q top (λ j lt z. used j lt (rw (y, z) refl)) h in
        rw y (
          Sets-same p _ (λ j. g j && kept j es) _
            (free_entries-Sets es g _ m.1 apart.1
              (λ j lt z.
                still j (used j lt (rw z (or_true (is_usable_entry e && mine j))))
                  (apart_here (addr_of p j) e es apart.0 z y))
              once)
            (λ j _.
              not_either (f j) (mine j) (in_entries (addr_of p j) es)
                (not (in_area bitmap (addr_of p j)))))
  ]
    where
      still :
          (j : ℕ)
          → f j ≡ true
          → in_area (first_whole e, last_whole e) (addr_of p j) ≡ false
          → (f j
              && not (
                  in_area (first_whole e, last_whole e) (addr_of p j)
                  && not (in_area bitmap (addr_of p j))))
            ≡ true
      still j s n = rw (s, n) refl
