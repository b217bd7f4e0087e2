-- ===== src/Mem/Heap/Tiling.antt =====
-- A heap of one region: its blocks follow each other without a gap or an overlap, through every
-- operation on the list.
use k_os.Prelude.{
  ℕ, ◌+◌, ◌-◌, ◌%◌, ◌^◌, ◌≤◌, ◌<◌, ◌≡◌, refl, sym, ap, subst, ◌∙◌, inl, inr, some, List, [], ◌∷◌,
  arith, ltb, ◌==◌, ltb→le, ==→eq, Bool-cases, either-branch,
}
use mathlib.Core.Option.{none-ne-some, some-injective}
use k_os.Mem.Heap.{
  BlockHeader, magic, split_block, merge, coalesce_next, coalesce_prev, update, header_at,
}

-- The block starts at `a`, has a size that is a multiple of 8, and its header is intact.
pub record IsIntact (canary a : ℕ) (b : BlockHeader) : Type 0 where
  pub here : b.addr ≡ a
  pub grain : b.size % 8 ≡ 0
  pub magic_intact : b.magic ≡ magic
  pub canary_intact : b.canary ≡ canary

-- The blocks follow each other from `a` to `z`.
abbrev pub Tiles : ℕ → ℕ → List BlockHeader → ℕ → Type 0
Tiles canary a [] z = a ≡ z
Tiles canary a (b ∷ bs) z = IsIntact canary a b × Tiles canary (a + 48 + b.size) bs z

pub Tiles-le : (c a : ℕ) (bs : List BlockHeader) (z : ℕ) → Tiles c a bs z → a ≤ z
Tiles-le c a [] z t = omega arith
Tiles-le c a (b ∷ bs) z t = omega (arith, Tiles-le c (a + 48 + b.size) bs z t.1)

-- A header of the list stands at its address, from `a` on.
pub header_at-ge :
    (c a : ℕ) (bs : List BlockHeader) (z x : ℕ) (b : BlockHeader)
    → Tiles c a bs z
    → header_at bs x ≡ some b
    → (a ≤ x) × (b.addr ≡ x)
unfolding header_at
header_at-ge c a [] z x b t e = absurd (none-ne-some b e)
header_at-ge c a (d ∷ bs) z x b t e = elim (Bool-cases (d.addr == x)) [
  | inl y ↦
      let at = ==→eq _ _ y in
      let same : d ≡ b = some-injective _ _ (rw y at e) in
      (omega (arith, t.0.here), sym (ap (λ h. h.addr) same) ∙ at)
  | inr n ↦
      let ih = header_at-ge c (a + 48 + d.size) bs z x b t.1 (rw n at e) in
      (omega (arith, ih.0), ih.1)
]

module _ (c z : ℕ) (small : z < 2 ^ 64) where
  -- Writes that keep the size, the address and the guards keep the tiling.
  pub update-Tiles :
      (f : BlockHeader → BlockHeader)
      → ((b : BlockHeader) (a : ℕ) → IsIntact c a b → IsIntact c a (f b))
      → ((b : BlockHeader) → (f b).size ≡ b.size)
      → (a : ℕ) (bs : List BlockHeader) (h : ℕ) → Tiles c a bs z
      → Tiles c a (update bs h f) z
  unfolding update
  update-Tiles f keep same a [] h t = t
  update-Tiles f keep same a (b ∷ bs) h t = elim (Bool-cases (b.addr == h)) [
    | inl y ↦ rw y (keep b a t.0, subst (λ s. Tiles c (a + 48 + s) bs z) (sym (same b)) t.1)
    | inr n ↦ rw n (t.0, update-Tiles f keep same (a + 48 + b.size) bs h t.1)
  ]

  pub split_block-Tiles :
      (a : ℕ) (bs : List BlockHeader) (h req : ℕ)
      → req % 8 ≡ 0
      → req < 2 ^ 63
      → Tiles c a bs z
      → Tiles c a (split_block c bs h req) z
  unfolding split_block
  split_block-Tiles a [] h req grain lt t = t
  split_block-Tiles a (b ∷ bs) h req grain lt t = elim (Bool-cases (b.addr == h)) [
    | inr n ↦ rw n (t.0, split_block-Tiles (a + 48 + b.size) bs h req grain lt t.1)
    | inl y ↦ elim (Bool-cases (ltb b.size ((req + 56) % 2 ^ 64))) [
      | inl no_room ↦ rw (y, no_room) t
      | inr room ↦
          let ge = ltb→le _ _ room in
          let next : a + 48 + req + 48 + (b.size - req - 48) ≡ a + 48 + b.size = omega arith in
          rw (y, room)
            (
              record {
                here = t.0.here;
                grain = grain;
                magic_intact = t.0.magic_intact;
                canary_intact = t.0.canary_intact;
              },
              (
                record {
                  here = omega (arith, t.0.here);
                  grain = omega (arith, t.0.grain);
                  magic_intact = refl;
                  canary_intact = refl;
                },
                subst (λ s. Tiles c s bs z) (sym next) t.1,
              ),
            )
    ]
  ]

  -- Two neighbours become one block.
  merge-Tiles :
      (a : ℕ) (p n : BlockHeader) (bs : List BlockHeader)
      → Tiles c a (p ∷ n ∷ bs) z
      → Tiles c a (merge p n ∷ bs) z
  merge-Tiles a p n bs t =
      let le = Tiles-le c (a + 48 + p.size + 48 + n.size) bs z t.1.1 in
      let whole : (p.size + (48 + n.size)) % 2 ^ 64 ≡ p.size + (48 + n.size) = omega arith in
      let next : a + 48 + (p.size + (48 + n.size)) % 2 ^ 64 ≡ a + 48 + p.size + 48 + n.size =
        omega (arith, whole) in
      (
        record {
          here = t.0.here;
          grain = omega (arith, whole, t.0.grain, t.1.0.grain);
          magic_intact = t.0.magic_intact;
          canary_intact = t.0.canary_intact;
        },
        subst (λ s. Tiles c s bs z) (sym next) t.1.1,
      )

  pub coalesce_next-Tiles :
      (a : ℕ) (bs : List BlockHeader) (h : ℕ) → Tiles c a bs z → Tiles c a (coalesce_next bs h) z
  unfolding coalesce_next
  coalesce_next-Tiles a [] h t = t
  coalesce_next-Tiles a (b ∷ []) h t = t
  coalesce_next-Tiles a (b ∷ n ∷ bs) h t = elim (Bool-cases (b.addr == h)) [
    | inr other ↦ rw other (t.0, coalesce_next-Tiles (a + 48 + b.size) (n ∷ bs) h t.1)
    | inl y ↦ rw y (
        either-branch (λ xs. Tiles c a xs z) n.free (merge b n ∷ bs) (b ∷ n ∷ bs)
          (merge-Tiles a b n bs t) t)
  ]

  pub coalesce_prev-Tiles :
      (a : ℕ) (bs : List BlockHeader) (h : ℕ) → Tiles c a bs z → Tiles c a (coalesce_prev bs h) z
  unfolding coalesce_prev
  coalesce_prev-Tiles a [] h t = t
  coalesce_prev-Tiles a (p ∷ []) h t = t
  coalesce_prev-Tiles a (p ∷ b ∷ bs) h t = elim (Bool-cases (b.addr == h)) [
    | inr other ↦ rw other (t.0, coalesce_prev-Tiles (a + 48 + p.size) (b ∷ bs) h t.1)
    | inl y ↦ rw y (
        either-branch (λ xs. Tiles c a xs z) p.free (merge p b ∷ bs) (p ∷ b ∷ bs)
          (merge-Tiles a p b bs t) t)
  ]

pub header_at-intact :
    (c a : ℕ) (bs : List BlockHeader) (z x : ℕ) (b : BlockHeader)
    → Tiles c a bs z
    → header_at bs x ≡ some b
    → (b.magic ≡ magic) × (b.canary ≡ c)
unfolding header_at
header_at-intact c a [] z x b t e = absurd (none-ne-some b e)
header_at-intact c a (d ∷ bs) z x b t e = elim (Bool-cases (d.addr == x)) [
  | inl y ↦
      let same : d ≡ b = some-injective _ _ (rw y at e) in
      (
        sym (ap (λ h. h.magic) same) ∙ t.0.magic_intact,
        sym (ap (λ h. h.canary) same) ∙ t.0.canary_intact,
      )
  | inr n ↦ header_at-intact c (a + 48 + d.size) bs z x b t.1 (rw n at e)
]
