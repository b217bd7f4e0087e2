-- ===== src/Network/Arp/Slots.antt =====
-- The slot that ArpCacheAdd writes: the entry of the address, a free one, or the oldest.
use k_os.Prelude.{
  ℕ, suc, ◌+◌, ◌≤◌, ◌<◌, ◌≡◌, refl, sym, ap, subst, ◌∙◌, ◌⊎◌, inl, inr, Bool, true, false, none,
  some, List, [], ◌∷◌, arith, ltb, if◌then◌else◌, ltb→lt, ltb→le, Bool-cases, length, All,
}
use k_os.Network.Arp.{
  CacheEntry, matches, cache_find, first_invalid, oldest_loop, oldest, cache_alloc,
}
use k_os.Network.Arp.View.{view, at}

-- The index is where the view finds its entry, and there is none where the view has none.
pub cache_find-view :
    (c : List CacheEntry) (ip : ℕ)
    → ((cache_find c ip ≡ none) × (view c ip ≡ none))
      ⊎ ((i : ℕ) × (cache_find c ip ≡ some i)
          × (i < length c)
          × (matches (at c i) ip ≡ true)
          × (view c ip ≡ some (at c i)))
unfolding cache_find view
cache_find-view [] ip = inl (refl, refl)
cache_find-view (e ∷ es) ip = elim (Bool-cases (matches e ip)) [
  | inl y ↦ inr (0, rw y refl, omega arith, y, rw y refl)
  | inr n ↦ elim (cache_find-view es ip) [
    | inl (p, q) ↦ inl (rw (n, p) refl, rw (n, q) refl)
    | inr (i, p, lt, here, seen) ↦ inr (suc i, rw (n, p) refl, omega arith, here, rw (n, seen) refl)
  ]
]

first_invalid_lem :
    (c : List CacheEntry)
    → ((first_invalid c ≡ none) × All (λ e. e.valid ≡ true) c)
      ⊎ ((i : ℕ) × (first_invalid c ≡ some i) × (i < length c) × ((at c i).valid ≡ false))
unfolding first_invalid
first_invalid_lem [] = inl (refl, tt)
first_invalid_lem (e ∷ es) = elim (Bool-cases e.valid) [
  | inr n ↦ inr (0, rw n refl, omega arith, n)
  | inl y ↦ elim (first_invalid_lem es) [
    | inl (p, all) ↦ inl (rw (y, p) refl, (y, all))
    | inr (i, p, lt, free) ↦ inr (suc i, rw (y, p) refl, omega arith, free)
  ]
]

-- Every entry of the list is at least as young.
abbrev pub NotOlder : ℕ → List CacheEntry → Type 0
NotOlder t c = All (λ (e : CacheEntry). t ≤ e.timestamp) c

NotOlder-le : (t u : ℕ) (c : List CacheEntry) → t ≤ u → NotOlder u c → NotOlder t c
NotOlder-le t u [] le h = tt
NotOlder-le t u (e ∷ es) le h = (omega (arith, h.0), NotOlder-le t u es le h.1)

-- The loop ends with its start, or with an entry that it has met, and none that it met is older.
record LoopsTo (i : ℕ) (c : List CacheEntry) (best r : ℕ × ℕ) : Type 0 where
  least : r.1 ≤ best.1
  first : NotOlder r.1 c
  met : (r ≡ best) ⊎ ((j : ℕ) × (j < length c) × (r.0 ≡ i + j) × (r.1 ≡ (at c j).timestamp))

LoopsTo-older :
    (i : ℕ) (e : CacheEntry) (es : List CacheEntry) (best r : ℕ × ℕ)
    → e.timestamp < best.1
    → LoopsTo (suc i) es (i, e.timestamp) r
    → LoopsTo i (e ∷ es) best r
LoopsTo-older i e es best r lt v = record {
  least = omega (arith, v.least);
  first = (v.least, v.first);
  met = inr (elim v.met [
    | inl start ↦ (0, omega arith, ap (λ p. p.0) start ∙ omega arith, ap (λ p. p.1) start)
    | inr (j, below, here, age) ↦ (suc j, omega arith, here ∙ omega arith, age)
  ]);
}

LoopsTo-younger :
    (i : ℕ) (e : CacheEntry) (es : List CacheEntry) (best r : ℕ × ℕ)
    → best.1 ≤ e.timestamp
    → LoopsTo (suc i) es best r
    → LoopsTo i (e ∷ es) best r
LoopsTo-younger i e es best r le v = record {
  least = v.least;
  first = (omega (arith, v.least), v.first);
  met = elim v.met [
    | inl start ↦ inl start
    | inr (j, below, here, age) ↦ inr (suc j, omega arith, here ∙ omega arith, age)
  ];
}

oldest_loop_lem :
    (i : ℕ) (c : List CacheEntry) (best : ℕ × ℕ) → LoopsTo i c best (oldest_loop i c best)
unfolding oldest_loop
oldest_loop_lem i [] best = record { least = omega arith; first = tt; met = inl refl }
oldest_loop_lem i (e ∷ es) best = elim (Bool-cases (ltb e.timestamp best.1)) [
  | inl y ↦
      after y
        (LoopsTo-older i e es best _ (ltb→lt _ _ y) (oldest_loop_lem (suc i) es (i, e.timestamp)))
  | inr n ↦ after n (LoopsTo-younger i e es best _ (ltb→le _ _ n) (oldest_loop_lem (suc i) es best))
]
  where
    after :
        {b : Bool}
        → ltb e.timestamp best.1 ≡ b
        → LoopsTo i (e ∷ es) best (oldest_loop (suc i) es (if b then (i, e.timestamp) else best))
        → LoopsTo i (e ∷ es) best (oldest_loop i (e ∷ es) best)
    after p v =
        subst
          (λ c.
            LoopsTo i (e ∷ es) best (oldest_loop (suc i) es (if c then (i, e.timestamp) else best)))
          (sym p) v

-- A slot whose entry is valid and as old as any is given out only where every entry is valid.
pub record IsOldest (c : List CacheEntry) (i : ℕ) : Type 0 where
  pub full : All (λ (e : CacheEntry). e.valid ≡ true) c
  pub first : NotOlder (at c i).timestamp c

oldest_lem :
    (c : List CacheEntry)
    → 0 < length c
    → (oldest c < length c) × NotOlder (at c (oldest c)).timestamp c
unfolding oldest
oldest_lem [] lt = absurd (omega arith)
oldest_lem (e ∷ es) lt =
    let v = oldest_loop_lem 1 es (0, e.timestamp) in
    elim v.met [
      | inl start ↦ kept e es _ (ap (λ p. p.0) start) (ap (λ p. p.1) start) v
      | inr (j, below, here, age) ↦ found e es _ j below (here ∙ omega arith) age v
    ]
  where
    kept :
        (e : CacheEntry) (es : List CacheEntry) (r : ℕ × ℕ)
        → r.0 ≡ 0
        → r.1 ≡ e.timestamp
        → LoopsTo 1 es (0, e.timestamp) r
        → (r.0 < length (e ∷ es)) × NotOlder (at (e ∷ es) r.0).timestamp (e ∷ es)
    kept e es r zero_index age v =
        subst (λ k. (k < length (e ∷ es)) × NotOlder (at (e ∷ es) k).timestamp (e ∷ es))
          (sym zero_index) (omega arith, (omega arith, NotOlder-le _ _ es (omega arith) v.first))

    found :
        (e : CacheEntry) (es : List CacheEntry) (r : ℕ × ℕ) (j : ℕ)
        → j < length es
        → r.0 ≡ suc j
        → r.1 ≡ (at es j).timestamp
        → LoopsTo 1 es (0, e.timestamp) r
        → (r.0 < length (e ∷ es)) × NotOlder (at (e ∷ es) r.0).timestamp (e ∷ es)
    found e es r j below here age v =
        subst (λ k. (k < length (e ∷ es)) × NotOlder (at (e ∷ es) k).timestamp (e ∷ es)) (sym here)
          (omega arith, (omega (arith, v.least), NotOlder-le _ _ es (omega arith) v.first))

pub cache_alloc_lem :
    (c : List CacheEntry)
    → 0 < length c
    → (cache_alloc c < length c)
      × (((at c (cache_alloc c)).valid ≡ false) ⊎ IsOldest c (cache_alloc c))
unfolding cache_alloc
cache_alloc_lem c lt = elim (first_invalid_lem c) [
  | inl (p, all) ↦
      let (below, first) = oldest_lem c lt in
      rw p (below, inr (record { full = all; first = first }))
  | inr (i, p, below, free) ↦ rw p (below, inl free)
]
