-- ===== src/Mem/Heap/Requests.antt =====
-- Kernel/Source/Mem/Allocator.c: MemoryAllocate on a heap of one region.
use k_os.Prelude.{
  ℕ, ◌+◌, ◌%◌, ◌^◌, ◌≤◌, ◌<◌, ◌≡◌, refl, sym, ap, ◌∙◌, ◌⊎◌, inl, inr, true, false, ◌&&◌, Option,
  some, List, [], ◌∷◌, arith, ltb, leb, ◌==◌, ltb→le, le→leb, ne→==, ==_refl, true≢false,
  Bool-cases, either-branch, in_branch,
}
use mathlib.Core.Option.{none-ne-some, some-injective}
use k_os.Prelude.Words.{align_mask_lem}
use k_os.Mem.Heap.{
  BlockHeader, Heap, cut_off, align_up, find_fit, split_block, update, header_at, claim, release,
  take_fit, fit_loop, memory_allocate,
}
use k_os.Mem.Heap.Tiling.{IsIntact, Tiles, Tiles-le, header_at-ge, update-Tiles, split_block-Tiles}

-- One region from `start` on, tiled by intact blocks.
abbrev pub IsRegion : ℕ → Heap → Type 0
IsRegion start g =
    Tiles g.canary start g.blocks (start + g.current_size) × (start + g.current_size < 2 ^ 64)

claim-IsIntact : (c : ℕ) (b : BlockHeader) (a : ℕ) → IsIntact c a b → IsIntact c a (claim c b)
claim-IsIntact c b a i = record {
  here = i.here;
  grain = i.grain;
  magic_intact = i.magic_intact;
  canary_intact = refl;
}

pub release-IsIntact : (c : ℕ) (b : BlockHeader) (a : ℕ) → IsIntact c a b → IsIntact c a (release b)
release-IsIntact c b a i = record {
  here = i.here;
  grain = i.grain;
  magic_intact = i.magic_intact;
  canary_intact = i.canary_intact;
}

pub align_up_lem :
    (n : ℕ) → n < 2 ^ 63 → (align_up n % 8 ≡ 0) × (n ≤ align_up n) × (align_up n < n + 8)
unfolding align_up
align_up_lem n h =
    let mask = align_mask_lem 3 ((n + 7) % 2 ^ 64) (omega arith) (omega arith) in
    (omega (arith, mask), omega (arith, mask), omega (arith, mask))

-- The round that finds a block that fits.
take_fit-IsRegion :
    (start : ℕ) (g : Heap) (h size : ℕ)
    → size % 8 ≡ 0
    → size < 2 ^ 63
    → IsRegion start g
    → IsRegion start (take_fit g h size).0
unfolding take_fit
take_fit-IsRegion start g h size grain lt v = (
  update-Tiles g.canary (start + g.current_size) v.1 (claim g.canary) (claim-IsIntact g.canary)
      (λ b. refl) start (split_block g.canary g.blocks h size) h
      (split_block-Tiles g.canary (start + g.current_size) v.1 start g.blocks h size grain lt v.0),
  v.1,
)

-- The block that find_fit answers, after it has been split and claimed: it is used, and large enough.
take-own :
    (c z size : ℕ)
    → z < 2 ^ 64
    → (a : ℕ) (bs : List BlockHeader) (h : ℕ) → Tiles c a bs z
    → find_fit bs size ≡ some h
    → (a ≤ h)
      × ((b : BlockHeader) × (header_at (update (split_block c bs h size) h (claim c)) h ≡ some b)
          × (b.free ≡ false)
          × (size ≤ b.size))
unfolding find_fit split_block update header_at
take-own c z size small a [] h t e = absurd (none-ne-some h e)
take-own c z size small a (b ∷ bs) h t e = elim (Bool-cases (b.free && leb size b.size)) [
  | inr n ↦
      let (ge, own) = take-own c z size small (a + 48 + b.size) bs h t.1 (rw n at e) in
      let other : (b.addr == h) ≡ false = ne→== b.addr h (omega (arith, t.0.here)) in
      (omega arith, rw other (rw other (rw other own)))
  | inl y ↦
      let here : b.addr ≡ h = some-injective _ _ (rw y at e) in
      let is_here : (b.addr == h) ≡ true = rw here (==_refl h) in
      let room : size ≤ b.size = ground arith in
      (
        omega (arith, t.0.here),
        rw is_here (
            either-branch (IsTaken h) (ltb b.size ((size + 56) % 2 ^ 64)) (b ∷ bs)
              (record b { size = size } ∷ cut_off c b size ∷ bs)
              (claim c b, rw is_here (rw is_here refl), refl, room)
              (
                claim c (record b { size = size }),
                rw is_here (rw is_here refl),
                refl,
                omega arith,
              )),
      )
]
  where
    IsTaken : ℕ → List BlockHeader → Type 0
    IsTaken h xs =
        (d : BlockHeader) × (header_at (update xs h (claim c)) h ≡ some d)
        × (d.free ≡ false)
        × (size ≤ d.size)

-- A used block stays what it is when another one is split and claimed.
take-others :
    (c z size : ℕ)
    → z < 2 ^ 64
    → size < 2 ^ 63
    → (a : ℕ) (bs : List BlockHeader) (h x : ℕ) (u : BlockHeader) → Tiles c a bs z
    → find_fit bs size ≡ some h
    → header_at bs x ≡ some u
    → u.free ≡ false
    → header_at (update (split_block c bs h size) h (claim c)) x ≡ some u
unfolding find_fit split_block update header_at
take-others c z size small lt a [] h x u t e k used = absurd (none-ne-some h e)
take-others c z size small lt a (b ∷ bs) h x u t e k used =
    elim (Bool-cases (b.free && leb size b.size)) [
      | inr n ↦
          let later = (take-own c z size small (a + 48 + b.size) bs h t.1 (rw n at e)).0 in
          let other : (b.addr == h) ≡ false = ne→== b.addr h (omega (arith, t.0.here)) in
          elim (Bool-cases (b.addr == x)) [
            | inl q ↦ rw (other, other, q) (rw q at k)
            | inr q ↦
                rw (other, other, q)
                  (take-others c z size small lt (a + 48 + b.size) bs h x u t.1 (rw n at e)
                    (rw q at k) used)
          ]
      | inl y ↦
          let here : b.addr ≡ h = some-injective _ _ (rw y at e) in
          let is_here : (b.addr == h) ≡ true = rw here (==_refl h) in
          let is_free : b.free ≡ true = ground arith in
          elim (Bool-cases (b.addr == x)) [
            | inl q ↦
                let same : b ≡ u = some-injective _ _ (rw q at k) in
                absurd (true≢false (sym is_free ∙ ap (λ d. d.free) same ∙ used))
            | inr q ↦
                let k' = rw q at k in
                let (after, _) = header_at-ge c (a + 48 + b.size) bs z x u t.1 k' in
                elim (Bool-cases (ltb b.size ((size + 56) % 2 ^ 64))) [
                  | inl full ↦ rw (is_here, full, is_here, q) k'
                  | inr room ↦
                      let cut : (b.addr + 48 + size == x) ≡ false =
                        ne→== _ x
                          (let le = ltb→le _ _ room in omega (arith, t.0.here, size_lt b t)) in
                      rw (is_here, room, is_here, q, cut) k'
                ]
          ]
    ]
  where
    size_lt : (b : BlockHeader) → Tiles c a (b ∷ bs) z → b.size < 2 ^ 64
    size_lt b t = omega (arith, Tiles-le c (a + 48 + b.size) bs z t.1)

pub memory_allocate-fit :
    (ask : ℕ → ℕ → ℕ) (start : ℕ) (g : Heap) (size h : ℕ)
    → IsRegion start g
    → 0 < size
    → size < 2 ^ 61
    → find_fit g.blocks (align_up size) ≡ some h
    → (g' : Heap) × (memory_allocate ask g size ≡ some (g', h + 48))
      × IsRegion start g'
      × ((b : BlockHeader) × (header_at g'.blocks h ≡ some b) × (b.free ≡ false) × (size ≤ b.size))
      × ((x : ℕ) (u : BlockHeader)
          → header_at g.blocks x ≡ some u
          → u.free ≡ false
          → header_at g'.blocks x ≡ some u)
unfolding memory_allocate take_fit fit_loop
memory_allocate-fit ask start g size h v pos lt fit =
    let (grain, up, down) = align_up_lem size (omega arith) in
    let (b, at, used, room) =
      (take-own g.canary (start + g.current_size) (align_up size) v.1 start g.blocks h v.0 fit).1 in
    (
      (take_fit g h (align_up size)).0,
      rw (ne→== size 0 (omega arith), fit_loop, fit) refl,
      take_fit-IsRegion start g h (align_up size) grain (omega arith) v,
      (b, at, used, omega arith),
      λ x u k in_use.
          take-others g.canary (start + g.current_size) (align_up size) v.1 (omega arith) start
            g.blocks h x u v.0 fit k in_use,
    )

-- Some block of the list is free and has the size.
unfoldable pub SomeFree : List BlockHeader → ℕ → Type 0
SomeFree [] size = ⊥
SomeFree (b ∷ bs) size = ((b.free ≡ true) × (size ≤ b.size)) ⊎ SomeFree bs size

-- The sizes of blocks are multiples of 8, so that what holds the size holds it rounded up.
pub find_fit-SomeFree :
    (c a : ℕ) (bs : List BlockHeader) (z size : ℕ)
    → Tiles c a bs z
    → size < 2 ^ 61
    → SomeFree bs size
    → (h : ℕ) × (find_fit bs (align_up size) ≡ some h) × (h < z)
unfolding find_fit SomeFree
find_fit-SomeFree c a [] z size t lt one = absurd one
find_fit-SomeFree c a (b ∷ bs) z size t lt one =
    let le = Tiles-le c (a + 48 + b.size) bs z t.1 in
    let below : b.addr < z = omega (arith, t.0.here) in
    let (_, _, down) = align_up_lem size (omega arith) in
    let (grain, _, _) = align_up_lem size (omega arith) in
    in_branch (λ o. (h : ℕ) × (o ≡ some h) × (h < z)) (b.free && leb (align_up size) b.size)
      (some b.addr) (find_fit bs (align_up size)) (λ _. (b.addr, refl, below))
      (λ n. elim one [
        | inl (is_free, fits) ↦
            let up : align_up size ≤ b.size = omega (arith, t.0.grain) in
            absurd (true≢false (sym (rw (is_free, le→leb _ _ up) refl) ∙ n))
        | inr later ↦ find_fit-SomeFree c (a + 48 + b.size) bs z size t.1 lt later
      ])

-- MemoryAllocate of a size, not 0 and less than 2^61, where some free block of a heap of one region, tiled by
-- intact blocks, is at least that large: the payload is that of a used block of at least the size, the
-- blocks still tile the region, and the blocks in use are as they were.
pub memory_allocate-found :
    (ask : ℕ → ℕ → ℕ) (start : ℕ) (g : Heap) (size : ℕ)
    → IsRegion start g
    → 0 < size
    → size < 2 ^ 61
    → SomeFree g.blocks size
    → (h : ℕ) × (g' : Heap) × (memory_allocate ask g size ≡ some (g', h + 48))
      × IsRegion start g'
      × ((b : BlockHeader) × (header_at g'.blocks h ≡ some b) × (b.free ≡ false) × (size ≤ b.size))
      × ((x : ℕ) (u : BlockHeader)
          → header_at g.blocks x ≡ some u
          → u.free ≡ false
          → header_at g'.blocks x ≡ some u)
memory_allocate-found ask start g size v pos lt one =
    let (h, fit, _) =
      find_fit-SomeFree g.canary start g.blocks (start + g.current_size) size v.0 lt one in
    let (g', answer, region, own, others) = memory_allocate-fit ask start g size h v pos lt fit in
    (h, g', answer, region, own, others)
