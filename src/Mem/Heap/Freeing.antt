-- ===== src/Mem/Heap/Freeing.antt =====
-- Kernel/Source/Mem/Allocator.c: what MemoryFree does with any pointer, on a heap of one region.
use k_os.Prelude.{
  ℕ, ◌+◌, ◌-◌, ◌%◌, ◌^◌, ◌<◌, ◌≡◌, refl, sym, ap, ◌∙◌, ◌≢◌, ◌⊎◌, inl, inr, true, false, none, some,
  List, [], ◌∷◌, arith, ◌==◌, ==→eq, ne→==, ==_refl, true≢false, Bool-cases, Option-cases,
  either-branch, All,
}
use mathlib.Core.Option.{none-ne-some, some-injective}
use native.Mathlib.Decide.{ℕ_discrete}
use k_os.Mem.Heap.{
  BlockHeader, Heap, merge, coalesce, coalesce_next, coalesce_prev, update, header_at, release,
  free_header, free_stray, memory_free,
}
use k_os.Mem.Heap.Tiling.{
  Tiles, update-Tiles, coalesce_next-Tiles, coalesce_prev-Tiles, header_at-intact,
}
use k_os.Mem.Heap.Requests.{IsRegion, release-IsIntact}

-- Every block that stands at the address is free.
FreeAt : ℕ → List BlockHeader → Type 0
FreeAt h bs = All (λ b. b.addr ≡ h → b.free ≡ true) bs

above-FreeAt : (c a : ℕ) (bs : List BlockHeader) (z h : ℕ) → Tiles c a bs z → h < a → FreeAt h bs
unfolding FreeAt
above-FreeAt c a [] z h t lt = tt
above-FreeAt c a (b ∷ bs) z h t lt = (
  λ e. absurd (omega (arith, t.0.here)),
  above-FreeAt c (a + 48 + b.size) bs z h t.1 (omega arith),
)

update-FreeAt :
    (c a : ℕ) (bs : List BlockHeader) (z h : ℕ) → Tiles c a bs z → FreeAt h (update bs h release)
unfolding FreeAt update
update-FreeAt c a [] z h t = tt
update-FreeAt c a (b ∷ bs) z h t = elim (Bool-cases (b.addr == h)) [
  | inl y ↦
      let here = ==→eq _ _ y in
      rw y (λ _. refl, above-FreeAt c (a + 48 + b.size) bs z h t.1 (omega (arith, t.0.here)))
  | inr n ↦ rw n (
    λ e. absurd (true≢false (sym (rw e (==_refl h)) ∙ n)),
    update-FreeAt c (a + 48 + b.size) bs z h t.1,
  )
]

coalesce_next-FreeAt : (bs : List BlockHeader) (h : ℕ) → FreeAt h bs → FreeAt h (coalesce_next bs h)
unfolding FreeAt coalesce_next
coalesce_next-FreeAt [] h f = f
coalesce_next-FreeAt (b ∷ []) h f = f
coalesce_next-FreeAt (b ∷ n ∷ bs) h f = elim (Bool-cases (b.addr == h)) [
  | inr other ↦ rw other (f.0, coalesce_next-FreeAt (n ∷ bs) h f.1)
  | inl y ↦ rw y (either-branch (FreeAt h) n.free (merge b n ∷ bs) (b ∷ n ∷ bs) (f.0, f.1.1) f)
]

coalesce_prev-FreeAt : (bs : List BlockHeader) (h : ℕ) → FreeAt h bs → FreeAt h (coalesce_prev bs h)
unfolding FreeAt coalesce_prev
coalesce_prev-FreeAt [] h f = f
coalesce_prev-FreeAt (p ∷ []) h f = f
coalesce_prev-FreeAt (p ∷ b ∷ bs) h f = elim (Bool-cases (b.addr == h)) [
  | inr other ↦ rw other (f.0, coalesce_prev-FreeAt (b ∷ bs) h f.1)
  | inl y ↦ rw y (either-branch (FreeAt h) p.free (merge p b ∷ bs) (p ∷ b ∷ bs) (f.0, f.1.1) f)
]

FreeAt-header_at :
    (bs : List BlockHeader) (h : ℕ) (u : BlockHeader)
    → FreeAt h bs
    → header_at bs h ≡ some u
    → u.free ≡ true
unfolding FreeAt header_at
FreeAt-header_at [] h u f e = absurd (none-ne-some u e)
FreeAt-header_at (b ∷ bs) h u f e = elim (Bool-cases (b.addr == h)) [
  | inl y ↦
      let same : b ≡ u = some-injective _ _ (rw y at e) in
      sym (ap (λ d. d.free) same) ∙ f.0 (==→eq _ _ y)
  | inr n ↦ FreeAt-header_at bs h u f.1 (rw n at e)
]

module _ (stray : ℕ → BlockHeader) (start : ℕ) (g : Heap) (ptr : ℕ) where
  -- Where the header of the pointer stands.
  abbrev place : ℕ
  place = (ptr + 2 ^ 64 - 48) % 2 ^ 64

  -- The pointer is that of a block in use, which is free afterwards or part of another free block.
  pub record IsReleased (b : BlockHeader) (g' : Heap) : Type 0 where
    pub freed : memory_free stray g ptr ≡ some (g', some (ptr, b.size))
    pub region : IsRegion start g'
    pub gone : (u : BlockHeader) → header_at g'.blocks place ≡ some u → u.free ≡ true

  release-IsReleased :
      (b : BlockHeader)
      → IsRegion start g
      → ptr ≢ 0
      → header_at g.blocks place ≡ some b
      → b.free ≡ false
      → (g' : Heap) × IsReleased b g'
  unfolding memory_free free_header coalesce
  release-IsReleased b v ne at used =
      let z = start + g.current_size in
      let marked =
        update-Tiles g.canary z v.1 release (release-IsIntact g.canary) (λ b. refl) start g.blocks
          place v.0 in
      let joined =
        coalesce_prev-Tiles g.canary z v.1 start _ place
          (coalesce_next-Tiles g.canary z v.1 start _ place marked) in
      let (good_magic, good_canary) = header_at-intact g.canary start g.blocks z place b v.0 at in
      (
        record g { blocks = coalesce (update g.blocks place release) place },
        record {
          freed = rw (ne→== ptr 0 ne, at, good_magic, good_canary, ==_refl g.canary, used) refl;
          region = (joined, v.1);
          gone = λ u e.
              FreeAt-header_at _ place u
                (coalesce_prev-FreeAt _ place (
                  coalesce_next-FreeAt _ place (update-FreeAt g.canary start g.blocks z place v.0)))
                e;
        },
      )

  -- A header that the guards of MemoryFree let pass.
  abbrev pub Passes : BlockHeader → Type 0
  Passes b = (b.magic ≡ 0xb16b00b5) × (b.canary ≡ g.canary) × (b.free ≡ false)

  abbrev pub Fails : BlockHeader → Type 0
  Fails b = (b.magic ≢ 0xb16b00b5) ⊎ ((b.canary ≢ g.canary) ⊎ (b.free ≡ true))

  -- The heap is as it was, and nothing is cleared.
  abbrev pub Ignored : Type 0
  Ignored = memory_free stray g ptr ≡ some (g, none)

  free_stray_lem :
      (b : BlockHeader)
      → (Fails b × (free_stray g b ≡ some (g, none))) ⊎ (Passes b × (free_stray g b ≡ none))
  unfolding free_stray
  free_stray_lem b = elim (ℕ_discrete b.magic 0xb16b00b5) [
    | no n ↦ inl (inl n, rw (ne→== b.magic 0xb16b00b5 n) refl)
    | yes m ↦ elim (ℕ_discrete b.canary g.canary) [
      | no n ↦ inl (inr (inl n), rw (m, ne→== b.canary g.canary n) refl)
      | yes c ↦ elim (Bool-cases b.free) [
        | inl f ↦ inl (inr (inr f), rw (m, c, ==_refl g.canary, f) refl)
        | inr u ↦ inr ((m, c, u), rw (m, c, ==_refl g.canary, u) refl)
      ]
    ]
  ]

  -- MemoryFree of any pointer, on a heap of one region that is tiled by intact blocks. NULLPTR is ignored.
  -- Where the header of a block stands 48 bytes in front of the pointer: if the block is free, the call is
  -- ignored; if it is in use, exactly its payload is cleared, the blocks still tile the region, and what
  -- stands at the header's address afterwards, if a block does, is free. Where no block stands there but a
  -- header whose magic number or canary is wrong, or that is marked free, the call is ignored; nothing is
  -- stated where a header that is no block's passes all guards.
  pub memory_free_lem :
      IsRegion start g
      → ((ptr ≡ 0) × Ignored)
        ⊎ (((b : BlockHeader) × (header_at g.blocks place ≡ some b)
              × (((b.free ≡ true) × Ignored)
                  ⊎ ((b.free ≡ false) × ((g' : Heap) × IsReleased b g'))))
            ⊎ ((header_at g.blocks place ≡ none)
                × ((Fails (stray place) × Ignored) ⊎ Passes (stray place))))
  unfolding memory_free free_header
  memory_free_lem v = elim (ℕ_discrete ptr 0) [
    | yes z ↦ inl (z, rw z refl)
    | no ne ↦ elim (Option-cases (header_at g.blocks place)) [
      | inl absent ↦ elim (free_stray_lem (stray place)) [
        | inl (fails, same) ↦ inr (inr (absent, inl (fails, rw (ne→== ptr 0 ne, absent) same)))
        | inr (passes, _) ↦ inr (inr (absent, inr passes))
      ]
      | inr (b, at) ↦ elim (Bool-cases b.free) [
        | inr used ↦ inr (inl (b, at, inr (used, release-IsReleased b v ne at used)))
        | inl is_free ↦
            let intact =
              header_at-intact g.canary start g.blocks (start + g.current_size) place b v.0 at in
            inr (
              inl (
                b,
                at,
                inl (
                  is_free,
                  rw (ne→== ptr 0 ne, at, intact.0, intact.1, ==_refl g.canary, is_free) refl,
                ),
              ))
      ]
    ]
  ]
