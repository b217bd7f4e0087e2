-- ===== src/Network/Arp/View.antt =====
-- The cache as a map: the entry of an address, and what a write to a slot does to the entries.
use k_os.Prelude.{
  ℕ, zero, suc, ◌<◌, ◌≡◌, refl, sym, subst, ◌∙◌, ◌≢◌, ◌⊎◌, inl, inr, true, false, Option, none,
  some, List, [], ◌∷◌, arith, if◌then◌else◌, ==→eq, ne→==, ==_refl, true≢false, Bool-cases, length,
  get_or, set, replicate,
}
use native.Mathlib.Decide.{ℕ_discrete}
use k_os.Network.Arp.{CacheEntry, matches, zero_entry}

-- The first valid entry of the address.
unfoldable pub view : List CacheEntry → ℕ → Option CacheEntry
view [] ip = none
view (e ∷ es) ip = let rest = view es ip in if matches e ip then some e else rest

-- No address has two valid entries.
unfoldable pub IsUnique : List CacheEntry → Type 0
IsUnique [] = Unit
IsUnique (e ∷ es) = ((e.valid ≡ true) → view es e.ip ≡ none) × IsUnique es

abbrev pub at : List CacheEntry → ℕ → CacheEntry
at c i = get_or c i zero_entry

pub matches-parts : (e : CacheEntry) (j : ℕ) → matches e j ≡ true → (e.valid ≡ true) × (e.ip ≡ j)
matches-parts e j h = ground (arith, ==→eq e.ip j)

IsUnique-tail : (e : CacheEntry) (es : List CacheEntry) → IsUnique (e ∷ es) → IsUnique es
unfolding IsUnique
IsUnique-tail e es u = u.1

some≢none : (e : CacheEntry) → some e ≡ none → ⊥
some≢none e p = ground arith

-- A valid entry of the address is seen.
pub matches-view :
    (c : List CacheEntry) (i j : ℕ) → i < length c → matches (at c i) j ≡ true → view c j ≢ none
unfolding view
matches-view [] i j lt h = absurd (omega arith)
matches-view (e ∷ es) zero j lt h = rw h (λ p. ground arith)
matches-view (e ∷ es) (suc i) j lt h = elim (Bool-cases (matches e j)) [
  | inl y ↦ rw y (λ p. ground arith)
  | inr n ↦ rw n (matches-view es i j (omega arith) h)
]

-- Entries that are not valid.
pub IsUnique-zeros : (n : ℕ) → IsUnique (replicate n zero_entry)
unfolding IsUnique
IsUnique-zeros zero = tt
IsUnique-zeros (suc n) = (λ valid. absurd (true≢false (sym valid)), IsUnique-zeros n)

-- It is the one that is seen.
pub view-at :
    (c : List CacheEntry) (i j : ℕ)
    → IsUnique c
    → i < length c
    → matches (at c i) j ≡ true
    → view c j ≡ some (at c i)
unfolding view IsUnique
view-at [] i j u lt h = absurd (omega arith)
view-at (e ∷ es) zero j u lt h = rw h refl
view-at (e ∷ es) (suc i) j u lt h = elim (Bool-cases (matches e j)) [
  | inl y ↦
      let (valid, same) = matches-parts e j y in
      absurd (matches-view es i j (omega arith) h (subst (λ k. view es k ≡ none) same (u.0 valid)))
  | inr n ↦ rw n (view-at es i j u.1 (omega arith) h)
]

module _ (new : CacheEntry) where
  pub view-set_other :
      (c : List CacheEntry) (i j : ℕ)
      → matches new j ≡ false
      → matches (at c i) j ≡ false
      → view (set c i new) j ≡ view c j
  unfolding view
  view-set_other [] i j ne h = refl
  view-set_other (e ∷ es) zero j ne h = rw (h, ne) refl
  view-set_other (e ∷ es) (suc i) j ne h = rw (view-set_other es i j ne h) refl

  pub view-set_evicted :
      (c : List CacheEntry) (i j : ℕ)
      → IsUnique c
      → matches new j ≡ false
      → i < length c
      → matches (at c i) j ≡ true
      → view (set c i new) j ≡ none
  unfolding view IsUnique
  view-set_evicted [] i j u ne lt h = absurd (omega arith)
  view-set_evicted (e ∷ es) zero j u ne lt h =
      let (valid, same) = matches-parts e j h in
      rw ne (subst (λ k. view es k ≡ none) same (u.0 valid))
  view-set_evicted (e ∷ es) (suc i) j u ne lt h = elim (Bool-cases (matches e j)) [
    | inl y ↦
        let (valid, same) = matches-parts e j y in
        absurd
          (matches-view es i j (omega arith) h (subst (λ k. view es k ≡ none) same (u.0 valid)))
    | inr n ↦ rw n (view-set_evicted es i j u.1 ne (omega arith) h)
  ]

  -- An entry that is not valid takes the address off.
  pub IsUnique-set_invalid :
      (c : List CacheEntry) (i : ℕ)
      → new.valid ≡ false
      → IsUnique c
      → i < length c
      → IsUnique (set c i new)
  unfolding IsUnique view
  IsUnique-set_invalid [] i gone u lt = absurd (omega arith)
  IsUnique-set_invalid (e ∷ es) zero gone u lt =
      (λ valid. absurd (true≢false (sym valid ∙ gone)), u.1)
  IsUnique-set_invalid (e ∷ es) (suc i) gone u lt = (
    λ valid. elim (Bool-cases (matches (at es i) e.ip)) [
      | inl y ↦ absurd (matches-view es i e.ip (omega arith) y (u.0 valid))
      | inr n ↦ view-set_other es i e.ip (rw gone refl) n ∙ u.0 valid
    ],
    IsUnique-set_invalid es i gone u.1 (omega arith),
  )

module _ (new : CacheEntry) (is_valid : new.valid ≡ true) where
  -- The slot that is written may hold the address already, or none does.
  abbrev IsSlot : List CacheEntry → ℕ → Type 0
  IsSlot c i = (view c new.ip ≡ none) ⊎ (matches (at c i) new.ip ≡ true)

  not_before :
      (e : CacheEntry) (es : List CacheEntry) (i : ℕ)
      → IsUnique (e ∷ es)
      → i < length es
      → IsSlot (e ∷ es) (suc i)
      → (matches e new.ip ≡ false) × IsSlot es i
  unfolding view IsUnique
  not_before e es i u lt slot = elim (Bool-cases (matches e new.ip)) [
    | inl y ↦ absurd (absent e es i u lt y slot)
    | inr n ↦ (n, later n slot)
  ]
    where
      absent :
          (e : CacheEntry) (es : List CacheEntry) (i : ℕ)
          → IsUnique (e ∷ es)
          → i < length es
          → matches e new.ip ≡ true
          → IsSlot (e ∷ es) (suc i)
          → ⊥
      absent e es i u lt y (inl unseen) = some≢none e (rw y at unseen)
      absent e es i u lt y (inr here) =
          let (valid, same) = matches-parts e new.ip y in
          matches-view es i new.ip lt here (subst (λ k. view es k ≡ none) same (u.0 valid))

      later : matches e new.ip ≡ false → IsSlot (e ∷ es) (suc i) → IsSlot es i
      later n (inl unseen) = inl (rw n at unseen)
      later n (inr here) = inr here

  pub view-set_self :
      (c : List CacheEntry) (i : ℕ)
      → IsUnique c
      → i < length c
      → IsSlot c i
      → view (set c i new) new.ip ≡ some new
  unfolding view
  view-set_self [] i u lt slot = absurd (omega arith)
  view-set_self (e ∷ es) zero u lt slot = rw (is_valid, ==_refl new.ip) refl
  view-set_self (e ∷ es) (suc i) u lt slot =
      let (no_more, later) = not_before e es i u (omega arith) slot in
      rw no_more (view-set_self es i (IsUnique-tail e es u) (omega arith) later)

  pub IsUnique-set :
      (c : List CacheEntry) (i : ℕ)
      → IsUnique c
      → i < length c
      → IsSlot c i
      → IsUnique (set c i new)
  unfolding IsUnique view
  IsUnique-set [] i u lt slot = absurd (omega arith)
  IsUnique-set (e ∷ es) zero u lt slot = (λ _. first slot, u.1)
    where
      first : IsSlot (e ∷ es) zero → view es new.ip ≡ none
      first (inl unseen) = elim (Bool-cases (matches e new.ip)) [
        | inl y ↦ absurd (some≢none e (rw y at unseen))
        | inr n ↦ rw n at unseen
      ]
      first (inr here) =
          let (valid, same) = matches-parts e new.ip here in
          subst (λ k. view es k ≡ none) same (u.0 valid)
  IsUnique-set (e ∷ es) (suc i) u lt slot =
      let (no_more, later) = not_before e es i u (omega arith) slot in
      (
        λ valid. elim (ℕ_discrete new.ip e.ip) [
          | yes same ↦ absurd (apart valid same no_more)
          | no ne ↦ elim (Bool-cases (matches (at es i) e.ip)) [
            | inl y ↦
                view-set_evicted new es i e.ip u.1 (rw (is_valid, ne→== new.ip e.ip ne) refl)
                  (omega arith) y
            | inr n ↦
                view-set_other new es i e.ip (rw (is_valid, ne→== new.ip e.ip ne) refl) n
                ∙ u.0 valid
          ]
        ],
        IsUnique-set es i u.1 (omega arith) later,
      )
    where
      apart : e.valid ≡ true → new.ip ≡ e.ip → matches e new.ip ≡ false → ⊥
      apart valid same h = true≢false (sym (rw (valid, same, ==_refl e.ip) refl) ∙ h)
