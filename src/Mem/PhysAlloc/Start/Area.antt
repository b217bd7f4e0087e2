-- ===== src/Mem/PhysAlloc/Start/Area.antt =====
-- FindBitmapMemory and the loop that replaces it: the bitmap stands in the pages of a usable entry.
use k_os.Prelude.{
  ℕ, ◌+◌, ◌-◌, ◌%◌, ◌^◌, ◌≤◌, ◌<◌, ◌≡◌, refl, sym, ◌⊎◌, inl, inr, Bool, true, false, ◌&&◌, ◌||◌,
  List, [], ◌∷◌, arith, ltb, leb, ◌==◌, leb→le, ==→ne, true≢false, Bool-cases, in_branch, All,
}
use k_os.Prelude.Words.{page_mask_lem}
use k_os.Mem.LowMem.{MemmapEntry}
use k_os.Mem.PhysAlloc.Start.{
  is_usable_entry, region_end, first_whole, last_whole, find_bitmap_loop, fallback_loop,
  bitmap_address,
}

-- What the boot protocol promises of an entry: addresses of the machine have 52 bits, and a usable entry
-- consists of whole pages, one at least.
pub record IsEntry (e : MemmapEntry) : Type 0 where
  pub small : e.base + e.length < 2 ^ 52
  pub base : is_usable_entry e ≡ true → e.base % 4096 ≡ 0
  pub length : is_usable_entry e ≡ true → e.length % 4096 ≡ 0

pub first_whole_lem :
    (e : MemmapEntry) → IsEntry e → is_usable_entry e ≡ true → first_whole e ≡ e.base
first_whole_lem e v y =
    omega (arith, v.small, v.base y, page_mask_lem ((e.base + 4095) % 2 ^ 64) (omega arith))

pub last_whole_lem :
    (e : MemmapEntry) → IsEntry e → is_usable_entry e ≡ true → last_whole e ≡ e.base + e.length
last_whole_lem e v y =
    omega (arith, v.small, v.base y, v.length y, page_mask_lem (region_end e) (omega arith))

both_left : (a b : Bool) → (a && b) ≡ true → a ≡ true
both_left true b h = refl
both_left false b h = h

both_right : (a b : Bool) → (a && b) ≡ true → b ≡ true
both_right true b h = h
both_right false b h = absurd (true≢false (sym h))

-- The bytes from an address on are in a usable entry.
abbrev pub IsInside : ℕ → ℕ → List MemmapEntry → Type 0
IsInside addr needed [] = ⊥
IsInside addr needed (e ∷ es) =
    ((is_usable_entry e ≡ true)
      × (addr % 4096 ≡ 0)
      × (e.base ≤ addr)
      × (addr + needed ≤ e.base + e.length))
    ⊎ IsInside addr needed es

pub IsInside-bounds :
    (addr needed : ℕ) (es : List MemmapEntry)
    → All IsEntry es
    → IsInside addr needed es
    → (addr % 4096 ≡ 0) × (addr + needed < 2 ^ 52)
IsInside-bounds addr needed [] v h = absurd h
IsInside-bounds addr needed (e ∷ es) v (inl (_, aligned, _, fits)) =
    (aligned, omega (arith, v.0.small))
IsInside-bounds addr needed (e ∷ es) v (inr h) = IsInside-bounds addr needed es v.1 h

module _ (needed : ℕ) (few : needed < 2 ^ 52) where
  abbrev Serves : MemmapEntry → ℕ → Type 0
  Serves e addr =
      (is_usable_entry e ≡ true)
      × (addr % 4096 ≡ 0)
      × (e.base ≤ addr)
      × (addr + needed ≤ e.base + e.length)

  -- An entry that FindBitmapMemory takes.
  taken :
      (e : MemmapEntry) (x y : Bool) (addr : ℕ)
      → IsEntry e
      → (is_usable_entry e
          && (leb needed ((last_whole e + (2 ^ 64 - first_whole e)) % 2 ^ 64) && x)
          && y)
        ≡ true
      → addr ≡ first_whole e
      → Serves e addr
  taken e x y addr v c same =
      let usable = both_left (is_usable_entry e) _ (both_left _ y c) in
      let fits = leb→le _ _ (both_left _ x (both_right (is_usable_entry e) _ (both_left _ y c))) in
      (
        usable,
        omega (arith, first_whole_lem e v usable, same, v.base usable),
        omega (arith, first_whole_lem e v usable, same),
        omega (arith, first_whole_lem e v usable, last_whole_lem e v usable, v.small, same),
      )

  find_bitmap_loop_lem :
      (best : ℕ × ℕ) (es : List MemmapEntry)
      → All IsEntry es
      → (find_bitmap_loop needed best es ≡ best.0)
        ⊎ IsInside (find_bitmap_loop needed best es) needed es
  unfolding find_bitmap_loop
  find_bitmap_loop_lem best [] v = inl refl
  find_bitmap_loop_lem best (e ∷ es) v =
      in_branch
        (λ b.
          (find_bitmap_loop needed b es ≡ best.0)
          ⊎ IsInside (find_bitmap_loop needed b es) needed (e ∷ es))
        (is_usable_entry e
          && (leb needed ((last_whole e + (2 ^ 64 - first_whole e)) % 2 ^ 64)
              && ltb best.1 ((last_whole e + (2 ^ 64 - first_whole e)) % 2 ^ 64))
          && (best.0 == 0 || ltb (first_whole e) best.0))
        (first_whole e, (last_whole e + (2 ^ 64 - first_whole e)) % 2 ^ 64) best
        (λ y.
          elim (find_bitmap_loop_lem
            (first_whole e, (last_whole e + (2 ^ 64 - first_whole e)) % 2 ^ 64) es v.1) [
              | inl h ↦ inr (inl (taken e _ _ _ v.0 y h))
              | inr h ↦ inr (inr h)
            ])
        (λ _. elim (find_bitmap_loop_lem best es v.1) [ inl h ↦ inl h | inr h ↦ inr (inr h) ])

  fallback_loop_lem :
      (es : List MemmapEntry)
      → All IsEntry es
      → (fallback_loop needed es ≡ 0) ⊎ IsInside (fallback_loop needed es) needed es
  unfolding fallback_loop
  fallback_loop_lem [] v = inl refl
  fallback_loop_lem (e ∷ es) v =
      in_branch (λ x. (x ≡ 0) ⊎ IsInside x needed (e ∷ es))
        (is_usable_entry e && leb ((first_whole e + needed) % 2 ^ 64) (region_end e))
        (first_whole e) (fallback_loop needed es)
        (λ y.
          let usable = both_left _ _ y in
          let fits = leb→le _ _ (both_right (is_usable_entry e) _ y) in
          inr (
            inl (
              usable,
              omega (arith, first_whole_lem e v.0 usable, v.0.base usable),
              omega (arith, first_whole_lem e v.0 usable),
              omega (arith, first_whole_lem e v.0 usable, v.0.small, few),
            )))
        (λ _. elim (fallback_loop_lem es v.1) [ inl h ↦ inl h | inr h ↦ inr (inr h) ])

  pub bitmap_address_lem :
      (es : List MemmapEntry)
      → All IsEntry es
      → (bitmap_address needed es ≡ 0) ⊎ IsInside (bitmap_address needed es) needed es
  unfolding bitmap_address
  bitmap_address_lem es v = elim (Bool-cases (find_bitmap_loop needed (0, 0) es == 0)) [
    | inl z ↦ rw z (fallback_loop_lem es v)
    | inr nz ↦ rw nz (elim (find_bitmap_loop_lem (0, 0) es v) [
      | inl e ↦ absurd (==→ne _ _ nz e)
      | inr h ↦ inr h
    ])
  ]
