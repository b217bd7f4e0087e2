-- ===== src/Mem/PageCache/Table.antt =====
-- Kernel/Source/Mem/PageCache.c: what becomes of the pages and of the dirty list when the page of a key is
-- put in, replaced or taken out.
use k_os.Prelude.{
  ℕ, ◌≡◌, refl, sym, subst, ◌∙◌, inl, inr, true, false, none, some, List, ◌∷◌, arith, if◌then◌else◌,
  Bool-cases,
}
use k_os.Mem.PageCache.{Page, same_key, find_page, list_unlink, change, undirty}
use k_os.Mem.PageCache.Keys.{
  at_same_key, IsUnique, find_page-here, find_page-past, find_page-list_unlink_ne,
  find_page-list_unlink_self, find_page-change_self, find_page-change_ne,
}
use k_os.Mem.PageCache.Dirty.{
  is_dirty, listed, IsDistinct, AreListed, listed-undirty_ne, listed-undirty_self,
}

-- The page of a key is replaced or put in.
unfoldable pub Rebound : List Page → List Page → ℕ → ℕ → Page → Type 0
Rebound ps qs d l q =
    (d' l' : ℕ) → find_page qs d' l' ≡ (if same_key d l d' l' then some q else find_page ps d' l')

-- A statement about the pages of a list, each of them found by its key.
unfoldable pub Pages : (Page → Type 0) → List Page → Type 0
Pages P ps = (d l : ℕ) (p : Page) → find_page ps d l ≡ some p → P p

module _ (ps : List Page) where
  pub cons-Rebound : (q : Page) → Rebound ps (q ∷ ps) q.disk q.lba q
  unfolding Rebound
  cons-Rebound q d' l' = elim (Bool-cases (same_key q.disk q.lba d' l')) [
    | inl y ↦ rw (find_page-here q ps d' l' y, y) refl
    | inr n ↦ rw (find_page-past q ps d' l' n, n) refl
  ]

  pub touch_page-Rebound : (q : Page) → Rebound ps (q ∷ list_unlink ps q.disk q.lba) q.disk q.lba q
  unfolding Rebound
  touch_page-Rebound q d' l' = elim (Bool-cases (same_key q.disk q.lba d' l')) [
    | inl y ↦ rw (find_page-here q (list_unlink ps q.disk q.lba) d' l' y, y) refl
    | inr n ↦
        rw
          (
            find_page-past q (list_unlink ps q.disk q.lba) d' l' n,
            n,
            find_page-list_unlink_ne q.disk q.lba ps d' l' n,
          )
          refl
  ]

  pub change-Rebound :
      (d l : ℕ) (f : Page → Page) (p : Page)
      → ((q : Page) → same_key (f q).disk (f q).lba q.disk q.lba ≡ true)
      → find_page ps d l ≡ some p
      → Rebound ps (change ps d l f) d l (f p)
  unfolding Rebound
  change-Rebound d l f p keeps h d' l' = elim (Bool-cases (same_key d l d' l')) [
    | inl y ↦ rw y (
        at_same_key (λ e m. find_page (change ps d l f) e m ≡ some (f p)) d l d' l' y
          (find_page-change_self d l f keeps ps p h))
    | inr n ↦ rw (n, find_page-change_ne d l f keeps ps d' l' n) refl
  ]

  pub Rebound-Pages :
      (P : Page → Type 0) (qs : List Page) (d l : ℕ) (q : Page)
      → Rebound ps qs d l q
      → Pages P ps
      → P q
      → Pages P qs
  unfolding Rebound Pages
  Rebound-Pages P qs d l q bound h new d' l' p e = elim (Bool-cases (same_key d l d' l')) [
    | inl y ↦ let r : some q ≡ some p = sym (rw (bound, y) refl) ∙ e in subst P (ground arith) new
    | inr n ↦ h d' l' p (sym (rw (bound, n) refl) ∙ e)
  ]

  -- The dirty list after the page of a key is rebound: it keeps its flag, or it is put on, or taken off.
  pub Rebound-AreListed :
      (qs : List Page) (d l : ℕ) (q : Page) (ks : List (ℕ × ℕ))
      → Rebound ps qs d l q
      → AreListed ps ks
      → is_dirty (find_page ps d l) ≡ q.dirty
      → AreListed qs ks
  unfolding Rebound AreListed
  Rebound-AreListed qs d l q ks bound h same d' l' = elim (Bool-cases (same_key d l d' l')) [
    | inl y ↦
        rw (bound, y)
          (h d' l' ∙ at_same_key (λ e m. is_dirty (find_page ps e m) ≡ q.dirty) d l d' l' y same)
    | inr n ↦ rw (bound, n) (h d' l')
  ]

  pub Rebound-listed :
      (qs : List Page) (d l : ℕ) (q : Page) (ks : List (ℕ × ℕ))
      → Rebound ps qs d l q
      → AreListed ps ks
      → q.dirty ≡ true
      → AreListed qs ((d, l) ∷ ks)
  unfolding Rebound AreListed listed
  Rebound-listed qs d l q ks bound h on d' l' = elim (Bool-cases (same_key d l d' l')) [
    | inl y ↦ rw (bound, y) (sym on)
    | inr n ↦ rw (bound, n) (h d' l')
  ]

  pub Rebound-undirty :
      (qs : List Page) (d l : ℕ) (q : Page) (ks : List (ℕ × ℕ))
      → Rebound ps qs d l q
      → AreListed ps ks
      → IsDistinct ks
      → q.dirty ≡ false
      → AreListed qs (undirty ks d l)
  unfolding Rebound AreListed
  Rebound-undirty qs d l q ks bound h distinct off d' l' = elim (Bool-cases (same_key d l d' l')) [
    | inl y ↦
        rw (bound, y)
          (at_same_key (λ e m. listed (undirty ks d l) e m ≡ q.dirty) d l d' l' y
            (listed-undirty_self d l ks distinct ∙ sym off))
    | inr n ↦ rw (bound, n) (listed-undirty_ne d l ks d' l' n ∙ h d' l')
  ]

  -- A page is taken out.
  pub list_unlink-Pages :
      (P : Page → Type 0) (d l : ℕ) → IsUnique ps → Pages P ps → Pages P (list_unlink ps d l)
  unfolding Pages
  list_unlink-Pages P d l u h d' l' p e = elim (Bool-cases (same_key d l d' l')) [
    | inl y ↦
        let gone : find_page (list_unlink ps d l) d' l' ≡ none =
          at_same_key (λ e m. find_page (list_unlink ps d l) e m ≡ none) d l d' l' y
            (find_page-list_unlink_self d l ps u) in
        let r = sym gone ∙ e in ground arith
    | inr n ↦ h d' l' p (sym (find_page-list_unlink_ne d l ps d' l' n) ∙ e)
  ]

  pub list_unlink-AreListed :
      (d l : ℕ) (ks js : List (ℕ × ℕ))
      → IsUnique ps
      → AreListed ps ks
      → listed js d l ≡ false
      → ((d' l' : ℕ) → same_key d l d' l' ≡ false → listed js d' l' ≡ listed ks d' l')
      → AreListed (list_unlink ps d l) js
  unfolding AreListed
  list_unlink-AreListed d l ks js u h off others d' l' = elim (Bool-cases (same_key d l d' l')) [
    | inl y ↦
        at_same_key (λ e m. listed js e m ≡ is_dirty (find_page (list_unlink ps d l) e m)) d l d' l'
          y (rw (find_page-list_unlink_self d l ps u) off)
    | inr n ↦ rw (find_page-list_unlink_ne d l ps d' l' n) (others d' l' n ∙ h d' l')
  ]

  -- No page of the key is left.
  pub list_unlink_apart :
      (d l d' l' : ℕ) (q : Page)
      → IsUnique ps
      → find_page (list_unlink ps d l) d' l' ≡ some q
      → same_key d l d' l' ≡ false
  list_unlink_apart d l d' l' q u e = elim (Bool-cases (same_key d l d' l')) [
    | inl y ↦
        let gone : find_page (list_unlink ps d l) d' l' ≡ none =
          at_same_key (λ e m. find_page (list_unlink ps d l) e m ≡ none) d l d' l' y
            (find_page-list_unlink_self d l ps u) in
        let r = sym gone ∙ e in ground arith
    | inr n ↦ n
  ]
