-- ===== src/Mem/PageCache/Dirty.antt =====
-- Kernel/Source/Mem/PageCache.c: the dirty list as a set of keys, and the number of dirty pages.
use k_os.Prelude.{
  ℕ, ◌+◌, ◌≤◌, ◌≡◌, refl, sym, subst, ◌∙◌, inl, inr, Bool, false, ◌||◌, Option, none, some, List,
  [], ◌∷◌, arith, if◌then◌else◌, Bool-cases, length,
}
use k_os.Mem.PageCache.{Page, same_key, find_page, list_unlink, change, undirty}
use k_os.Mem.PageCache.Keys.{same_key→eq, find_page-nil, find_page-past, find_page-front}

unfoldable pub listed : List (ℕ × ℕ) → ℕ → ℕ → Bool
listed [] d l = false
listed (k ∷ ks) d l = same_key k.0 k.1 d l || listed ks d l

unfoldable pub IsDistinct : List (ℕ × ℕ) → Type 0
IsDistinct [] = Unit
IsDistinct (k ∷ ks) = (listed ks k.0 k.1 ≡ false) × IsDistinct ks

abbrev pub is_dirty : Option Page → Bool
is_dirty none = false
is_dirty (some p) = p.dirty

unfoldable pub count_dirty : List Page → ℕ
count_dirty [] = 0
count_dirty (p ∷ ps) = (if p.dirty then 1 else 0) + count_dirty ps

pub count_dirty-le : (ps : List Page) → count_dirty ps ≤ length ps
unfolding count_dirty
count_dirty-le [] = omega arith
count_dirty-le (p ∷ ps) = ground (arith, count_dirty-le ps)

-- The dirty list has the keys of the dirty pages.
unfoldable pub AreListed : List Page → List (ℕ × ℕ) → Type 0
AreListed ps ks = (d l : ℕ) → listed ks d l ≡ is_dirty (find_page ps d l)

module _ (d l : ℕ) where
  pub listed-undirty_ne :
      (ks : List (ℕ × ℕ)) (d' l' : ℕ)
      → same_key d l d' l' ≡ false
      → listed (undirty ks d l) d' l' ≡ listed ks d' l'
  unfolding listed undirty
  listed-undirty_ne [] d' l' ne = refl
  listed-undirty_ne (k ∷ ks) d' l' ne = elim (Bool-cases (same_key k.0 k.1 d l)) [
    | inl y ↦
        let (a, b) = same_key→eq k.0 k.1 d l y in
        let past : same_key k.0 k.1 d' l' ≡ false = rw (a, b) ne in rw (y, past) refl
    | inr n ↦ rw (n, listed-undirty_ne ks d' l' ne) refl
  ]

  listed-undirty_none :
      (ks : List (ℕ × ℕ)) (d' l' : ℕ)
      → listed ks d' l' ≡ false
      → listed (undirty ks d l) d' l' ≡ false
  unfolding listed undirty
  listed-undirty_none [] d' l' h = refl
  listed-undirty_none (k ∷ ks) d' l' h = ground (arith, listed-undirty_none ks d' l')

  pub listed-undirty_self :
      (ks : List (ℕ × ℕ)) → IsDistinct ks → listed (undirty ks d l) d l ≡ false
  unfolding listed undirty IsDistinct
  listed-undirty_self [] h = refl
  listed-undirty_self (k ∷ ks) h = elim (Bool-cases (same_key k.0 k.1 d l)) [
    | inl y ↦
        let (a, b) = same_key→eq k.0 k.1 d l y in
        rw y (subst (λ x. listed ks d x ≡ false) b (subst (λ x. listed ks x k.1 ≡ false) a h.0))
    | inr n ↦ rw (n, n) (listed-undirty_self ks h.1)
  ]

  pub undirty-IsDistinct : (ks : List (ℕ × ℕ)) → IsDistinct ks → IsDistinct (undirty ks d l)
  unfolding undirty IsDistinct
  undirty-IsDistinct [] h = tt
  undirty-IsDistinct (k ∷ ks) h = elim (Bool-cases (same_key k.0 k.1 d l)) [
    | inl y ↦ rw y h.1
    | inr n ↦ rw n (listed-undirty_none ks k.0 k.1 h.0, undirty-IsDistinct ks h.1)
  ]

  pub count_dirty-list_unlink :
      (ps : List Page) (p : Page)
      → find_page ps d l ≡ some p
      → count_dirty ps ≡ (if p.dirty then 1 else 0) + count_dirty (list_unlink ps d l)
  unfolding list_unlink count_dirty
  count_dirty-list_unlink [] p h = let e = sym (find_page-nil d l) ∙ h in ground arith
  count_dirty-list_unlink (q ∷ ps) p h = elim (Bool-cases (same_key q.disk q.lba d l)) [
    | inl y ↦ let e = find_page-front q p ps d l y h in rw (y, e) refl
    | inr n ↦
        let rest = count_dirty-list_unlink ps p (sym (find_page-past q ps d l n) ∙ h) in
        rw (n, rest) (omega arith)
  ]

  pub count_dirty-change :
      (f : Page → Page) (ps : List Page) (p : Page)
      → find_page ps d l ≡ some p
      → count_dirty (change ps d l f) + (if p.dirty then 1 else 0)
        ≡ (if (f p).dirty then 1 else 0) + count_dirty ps
  unfolding change count_dirty
  count_dirty-change f [] p h = let e = sym (find_page-nil d l) ∙ h in ground arith
  count_dirty-change f (q ∷ ps) p h = elim (Bool-cases (same_key q.disk q.lba d l)) [
    | inl y ↦ let e = find_page-front q p ps d l y h in rw (y, e) (omega arith)
    | inr n ↦
        let rest = count_dirty-change f ps p (sym (find_page-past q ps d l n) ∙ h) in
        rw n (omega (arith, rest))
  ]
