-- ===== src/Network/Arp/Cache.antt =====
-- The functions on the cache, as functions on the map from addresses to entries.
use k_os.Prelude.{
  ℕ, suc, ◌<◌, ◌≡◌, refl, sym, ap, subst, ◌∙◌, ◌≢◌, ◌⊎◌, inl, inr, Bool, true, false, ◌&&◌, Option,
  none, some, List, [], ◌∷◌, map, arith, ◌==◌, if◌then◌else◌, ==→eq, ne→==, true≢false, Bool-cases,
  length, set, length-set, All,
}
use k_os.Network.Arp.{
  CacheEntry, Arp, arp_init, cache_clear, matches, invalid, added, is_expired, purge_entry,
  cache_find, cache_alloc, cache_add, cache_del, purge_expired, mac_at, cache_lookup,
}
use k_os.Network.Arp.View.{
  view, at, IsUnique-zeros, IsUnique, view-set_self, view-set_other, view-set_evicted, view-at,
  matches-parts, IsUnique-set, IsUnique-set_invalid,
}
use k_os.Network.Arp.Slots.{cache_find-view, cache_alloc_lem, IsOldest, NotOlder}

-- The cache has 32 entries, and no address has two valid ones.
pub record IsCache (c : List CacheEntry) : Type 0 where
  pub size : length c ≡ 32
  pub unique : IsUnique c

-- The cache after ArpInit and after ArpCacheClear.
pub clear-IsCache : (s : Arp) → IsCache arp_init.cache × IsCache (cache_clear s).cache
unfolding arp_init cache_clear
clear-IsCache s = (
  record { size = refl; unique = IsUnique-zeros 32 },
  record { size = refl; unique = IsUnique-zeros 32 },
)

-- What is left of the entry of another address: the same, or nothing, where the cache was full of valid
-- entries and none was older.
abbrev pub Kept : List CacheEntry → List CacheEntry → ℕ → Type 0
Kept c d j =
    (view d j ≡ view c j)
    ⊎ ((view d j ≡ none)
        × ((e : CacheEntry) × (view c j ≡ some e)
            × All (λ (x : CacheEntry). x.valid ≡ true) c
            × NotOlder e.timestamp c))

written :
    (c : List CacheEntry) (i now ip : ℕ) (mac : List ℕ) (j : ℕ)
    → IsCache c
    → i < length c
    → (view c ip ≡ none) ⊎ (matches (at c i) ip ≡ true)
    → ip ≢ j
    → Kept c (set c i (added now ip mac)) j
    → IsCache (set c i (added now ip mac))
      × (view (set c i (added now ip mac)) ip ≡ some (added now ip mac))
      × Kept c (set c i (added now ip mac)) j
written c i now ip mac j v lt slot ne kept = (
  record {
    size = length-set c i (added now ip mac) ∙ v.size;
    unique = IsUnique-set (added now ip mac) refl c i v.unique lt slot;
  },
  view-set_self (added now ip mac) refl c i v.unique lt slot,
  kept,
)

matches_other : (e : CacheEntry) (ip j : ℕ) → ip ≢ j → matches e ip ≡ true → matches e j ≡ false
matches_other e ip j ne h =
    let (valid, same) = matches-parts e ip h in
    rw (valid, ne→== e.ip j (λ p. ne (sym same ∙ p))) refl

-- The entry that is overwritten matches j or not.
Kept-set :
    (c : List CacheEntry) (i now ip : ℕ) (mac : List ℕ) (j : ℕ)
    → IsCache c
    → i < length c
    → ip ≢ j
    → (matches (at c i) j ≡ false) ⊎ IsOldest c i
    → Kept c (set c i (added now ip mac)) j
Kept-set c i now ip mac j v lt ne (inl other) =
    inl (view-set_other (added now ip mac) c i j (ne→== ip j ne) other)
Kept-set c i now ip mac j v lt ne (inr old) = elim (Bool-cases (matches (at c i) j)) [
  | inr n ↦ inl (view-set_other (added now ip mac) c i j (ne→== ip j ne) n)
  | inl y ↦ inr (
    view-set_evicted (added now ip mac) c i j v.unique (ne→== ip j ne) lt y,
    (at c i, view-at c i j v.unique lt y, old.full, old.first),
  )
]

replaced :
    (c : List CacheEntry) (i j : ℕ)
    → ((at c i).valid ≡ false) ⊎ IsOldest c i
    → (matches (at c i) j ≡ false) ⊎ IsOldest c i
replaced c i j (inl free) = inl (rw free refl)
replaced c i j (inr old) = inr old

-- ArpCacheAdd makes the MAC and the time the one entry of the address, and keeps the entries of the other
-- addresses, except that one is lost where the cache is full of valid entries and none is older.
pub cache_add_lem :
    (s : Arp) (now ip : ℕ) (mac : List ℕ) (j : ℕ)
    → IsCache s.cache
    → ip ≢ j
    → IsCache (cache_add s now ip (some mac)).cache
      × (view (cache_add s now ip (some mac)).cache ip ≡ some (added now ip mac))
      × Kept s.cache (cache_add s now ip (some mac)).cache j
unfolding cache_add
cache_add_lem s now ip mac j v ne = elim (cache_find-view s.cache ip) [
  | inr (i, p, lt, here, seen) ↦ rw p (
      written s.cache i now ip mac j v lt (inr here) ne
        (Kept-set s.cache i now ip mac j v lt ne (inl (matches_other (at s.cache i) ip j ne here))))
  | inl (p, unseen) ↦
      let (lt, slot) = cache_alloc_lem s.cache (omega (arith, v.size)) in
      rw p (
        written s.cache (cache_alloc s.cache) now ip mac j v lt (inl unseen) ne (
          Kept-set s.cache (cache_alloc s.cache) now ip mac j v lt ne
            (replaced s.cache (cache_alloc s.cache) j slot)))
]

-- An entry that is not valid any more leaves the map.
abbrev pub without : (CacheEntry → Bool) → Option CacheEntry → Option CacheEntry
without drop none = none
without drop (some e) = if drop e then none else some e

view-purge :
    (now timeout : ℕ) (c : List CacheEntry) (j : ℕ)
    → IsUnique c
    → view (map (purge_entry now timeout) c) j ≡ without (is_expired now timeout) (view c j)
unfolding view IsUnique
view-purge now timeout [] j u = refl
view-purge now timeout (e ∷ es) j u =
    let ih = view-purge now timeout es j u.1 in
    elim (Bool-cases e.valid) [
      | inr n ↦ rw n ih
      | inl y ↦ elim (Bool-cases (is_expired now timeout e)) [
        | inr fresh ↦ elim (Bool-cases (e.ip == j)) [
          | inl same ↦ rw (y, fresh, same) (sym (rw fresh refl))
          | inr other ↦ rw (y, fresh, other) ih
        ]
        | inl old ↦ elim (Bool-cases (e.ip == j)) [
          | inl same ↦
              let unseen = subst (λ k. view es k ≡ none) (==→eq _ _ same) (u.0 y) in
              rw (y, old, same, ih, unseen) (sym (rw old refl))
          | inr other ↦ rw (y, old, other) ih
        ]
      ]
    ]

purged :
    (now timeout : ℕ) (e : CacheEntry)
    → (purge_entry now timeout e).valid ≡ true
    → (e.valid ≡ true) × (e.ip ≡ (purge_entry now timeout e).ip)
purged now timeout e h = elim (Bool-cases (e.valid && is_expired now timeout e)) [
  | inl y ↦ absurd (true≢false (sym (rw y at h)))
  | inr n ↦ (rw n at h, rw n refl)
]

IsUnique-purge :
    (now timeout : ℕ) (c : List CacheEntry)
    → IsUnique c
    → IsUnique (map (purge_entry now timeout) c)
unfolding IsUnique
IsUnique-purge now timeout [] u = tt
IsUnique-purge now timeout (e ∷ es) u = (
  λ valid.
      let (was_valid, same) = purged now timeout e valid in
      subst (λ k. view (map (purge_entry now timeout) es) k ≡ none) same
        (view-purge now timeout es e.ip u.1
          ∙ ap (without (is_expired now timeout)) (u.0 was_valid)),
  IsUnique-purge now timeout es u.1,
)

length-map : (f : CacheEntry → CacheEntry) (c : List CacheEntry) → length (map f c) ≡ length c
length-map f [] = refl
length-map f (e ∷ es) = ap suc (length-map f es)

cache_del-view :
    (s : Arp) (ip j : ℕ)
    → IsCache s.cache
    → ip ≢ j
    → IsCache (cache_del s ip).cache
      × (view (cache_del s ip).cache ip ≡ none)
      × (view (cache_del s ip).cache j ≡ view s.cache j)
unfolding cache_del
cache_del-view s ip j v ne = elim (cache_find-view s.cache ip) [
  | inl (p, unseen) ↦ rw p (v, unseen, refl)
  | inr (i, p, lt, here, seen) ↦
      let gone = invalid (at s.cache i) in
      rw p (
        record {
          size = length-set s.cache i gone ∙ v.size;
          unique = IsUnique-set_invalid gone s.cache i refl v.unique lt;
        },
        view-set_evicted gone s.cache i ip v.unique refl lt here,
        view-set_other gone s.cache i j refl (matches_other (at s.cache i) ip j ne here),
      )
]

-- The MAC of an entry.
abbrev pub mac_of : Option CacheEntry → Option (List ℕ)
mac_of none = none
mac_of (some e) = some e.mac

mac_at-view : (c : List CacheEntry) (ip : ℕ) → mac_at c (cache_find c ip) ≡ mac_of (view c ip)
mac_at-view c ip = elim (cache_find-view c ip) [
  | inl (p, unseen) ↦ rw (p, unseen) refl
  | inr (i, p, lt, here, seen) ↦
      let (valid, same) = matches-parts (at c i) ip here in rw (p, seen, valid) refl
]

pub cache_lookup-view :
    (s : Arp) (now timeout ip j : ℕ)
    → IsCache s.cache
    → IsCache (cache_lookup s now timeout ip).0.cache
      × (view (cache_lookup s now timeout ip).0.cache j
          ≡ without (is_expired now timeout) (view s.cache j))
      × ((cache_lookup s now timeout ip).1
          ≡ mac_of (without (is_expired now timeout) (view s.cache ip)))
unfolding cache_lookup purge_expired
cache_lookup-view s now timeout ip j v = (
  record {
    size = length-map (purge_entry now timeout) s.cache ∙ v.size;
    unique = IsUnique-purge now timeout s.cache v.unique;
  },
  view-purge now timeout s.cache j v.unique,
  mac_at-view (map (purge_entry now timeout) s.cache) ip
      ∙ ap mac_of (view-purge now timeout s.cache ip v.unique),
)

-- As functions on the map: ArpCacheDel takes the entry of the address off and no other, ArpCacheLookup takes
-- off the entries that are older than the timeout and then answers the MAC of the address, or FALSE where
-- it has no entry. The cache has 32 entries and one at most for an address after each of them.
pub cache_view_lem :
    (s : Arp) (now timeout ip j : ℕ)
    → IsCache s.cache
    → ip ≢ j
    → (IsCache (cache_del s ip).cache
        × (view (cache_del s ip).cache ip ≡ none)
        × (view (cache_del s ip).cache j ≡ view s.cache j))
      × IsCache (cache_lookup s now timeout ip).0.cache
      × (view (cache_lookup s now timeout ip).0.cache j
          ≡ without (is_expired now timeout) (view s.cache j))
      × ((cache_lookup s now timeout ip).1
          ≡ mac_of (without (is_expired now timeout) (view s.cache ip)))
cache_view_lem s now timeout ip j v ne =
    let (kept, seen, answer) = cache_lookup-view s now timeout ip j v in
    (cache_del-view s ip j v ne, kept, seen, answer)
