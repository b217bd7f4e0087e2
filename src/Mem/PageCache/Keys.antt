-- ===== src/Mem/PageCache/Keys.antt =====
-- Kernel/Source/Mem/PageCache.c: the list of pages as a map from keys, and the dirty list as a set.
use k_os.Prelude.{
  ℕ, suc, ◌≡◌, refl, sym, ap, ap₂, subst, ◌∙◌, inl, inr, true, false, none, some, List, [], ◌∷◌,
  arith, if◌then◌else◌, ==→eq, ==_refl, Bool-cases, length,
}
use k_os.Mem.PageCache.{Page, pcache_hash, same_key, find_page, list_unlink, change}

pub same_key→eq : (d l d' l' : ℕ) → same_key d l d' l' ≡ true → (d ≡ d') × (l ≡ l')
same_key→eq d l d' l' h = ground (arith, ==→eq d d', ==→eq l l')

-- A statement about a key is one about each equal key.
pub at_same_key : (P : ℕ → ℕ → Type 0) (d l d' l' : ℕ) → same_key d l d' l' ≡ true → P d l → P d' l'
at_same_key P d l d' l' y h =
    let (a, b) = same_key→eq d l d' l' y in subst (λ x. P d' x) b (subst (λ x. P x l) a h)

pub same_key_refl : (d l : ℕ) → same_key d l d l ≡ true
same_key_refl d l = rw (==_refl d, ==_refl l) refl

pub same_key_sym : (d l d' l' : ℕ) → same_key d l d' l' ≡ same_key d' l' d l
same_key_sym d l d' l' = ground arith

-- The hash tells nothing that the key does not.
pub find_page-cons :
    (p : Page) (ps : List Page) (d l : ℕ)
    → find_page (p ∷ ps) d l ≡ (if same_key p.disk p.lba d l then some p else find_page ps d l)
unfolding find_page
find_page-cons p ps d l = elim (Bool-cases (same_key p.disk p.lba d l)) [
  | inl y ↦
      let (e, f) = same_key→eq p.disk p.lba d l y in
      rw (ap₂ pcache_hash e f, ==_refl (pcache_hash d l), y) refl
  | inr n ↦ rw n (ground arith)
]

pub find_page-key :
    (ps : List Page) (d l : ℕ) (p : Page) → find_page ps d l ≡ some p → (p.disk ≡ d) × (p.lba ≡ l)
unfolding find_page
find_page-key [] d l p h = ground arith
find_page-key (q ∷ ps) d l p h = elim (Bool-cases (same_key q.disk q.lba d l)) [
  | inl y ↦
      let e : some q ≡ some p = sym (rw (find_page-cons, y) refl) ∙ h in
      let (a, b) = same_key→eq q.disk q.lba d l y in grind arith
  | inr n ↦ find_page-key ps d l p (sym (rw (find_page-cons, n) refl) ∙ h)
]

pub find_page-nil : (d l : ℕ) → find_page [] d l ≡ none
unfolding find_page
find_page-nil d l = refl

-- No two pages share a key.
unfoldable pub IsUnique : List Page → Type 0
IsUnique [] = Unit
IsUnique (p ∷ ps) = (find_page ps p.disk p.lba ≡ none) × IsUnique ps

pub find_page-here :
    (p : Page) (ps : List Page) (d l : ℕ)
    → same_key p.disk p.lba d l ≡ true
    → find_page (p ∷ ps) d l ≡ some p
find_page-here p ps d l y = rw (find_page-cons, y) refl

pub find_page-past :
    (p : Page) (ps : List Page) (d l : ℕ)
    → same_key p.disk p.lba d l ≡ false
    → find_page (p ∷ ps) d l ≡ find_page ps d l
find_page-past p ps d l n = rw (find_page-cons, n) refl

pub find_page_self : (p : Page) (ps : List Page) → find_page (p ∷ ps) p.disk p.lba ≡ some p
find_page_self p ps = find_page-here p ps p.disk p.lba (same_key_refl p.disk p.lba)

pub find_page-front :
    (p q : Page) (ps : List Page) (d l : ℕ)
    → same_key p.disk p.lba d l ≡ true
    → find_page (p ∷ ps) d l ≡ some q
    → p ≡ q
find_page-front p q ps d l y h = let e = sym (find_page-here p ps d l y) ∙ h in ground arith

pub find_page-absent :
    (p : Page) (ps : List Page) (d l : ℕ)
    → find_page (p ∷ ps) d l ≡ none
    → (same_key p.disk p.lba d l ≡ false) × (find_page ps d l ≡ none)
find_page-absent p ps d l h = elim (Bool-cases (same_key p.disk p.lba d l)) [
  | inl y ↦ let e = sym (find_page-here p ps d l y) ∙ h in ground arith
  | inr n ↦ (n, sym (find_page-past p ps d l n) ∙ h)
]

module _ (d l : ℕ) where
  pub find_page-list_unlink_ne :
      (ps : List Page) (d' l' : ℕ)
      → same_key d l d' l' ≡ false
      → find_page (list_unlink ps d l) d' l' ≡ find_page ps d' l'
  unfolding list_unlink
  find_page-list_unlink_ne [] d' l' ne = refl
  find_page-list_unlink_ne (p ∷ ps) d' l' ne = elim (Bool-cases (same_key p.disk p.lba d l)) [
    | inl y ↦
        let (a, b) = same_key→eq p.disk p.lba d l y in
        let past : same_key p.disk p.lba d' l' ≡ false = rw (a, b) ne in
        rw (y, find_page-past p ps d' l' past) refl
    | inr n ↦
        rw
          (
            n,
            find_page-cons p (list_unlink ps d l),
            find_page-cons p ps,
            find_page-list_unlink_ne ps d' l' ne,
          )
          refl
  ]

  pub find_page-list_unlink-none :
      (ps : List Page) (d' l' : ℕ)
      → find_page ps d' l' ≡ none
      → find_page (list_unlink ps d l) d' l' ≡ none
  unfolding list_unlink
  find_page-list_unlink-none [] d' l' h = h
  find_page-list_unlink-none (p ∷ ps) d' l' h =
      let (n, later) = find_page-absent p ps d' l' h in
      elim (Bool-cases (same_key p.disk p.lba d l)) [
        | inl here ↦ rw here later
        | inr past ↦
            let rest = find_page-list_unlink-none ps d' l' later in
            rw past (find_page-past p (list_unlink ps d l) d' l' n ∙ rest)
      ]

  pub find_page-list_unlink_self :
      (ps : List Page) → IsUnique ps → find_page (list_unlink ps d l) d l ≡ none
  unfolding list_unlink IsUnique
  find_page-list_unlink_self [] u = find_page-nil d l
  find_page-list_unlink_self (p ∷ ps) u = elim (Bool-cases (same_key p.disk p.lba d l)) [
    | inl y ↦
        let (a, b) = same_key→eq p.disk p.lba d l y in
        rw y
          (subst (λ x. find_page ps d x ≡ none) b (subst (λ x. find_page ps x p.lba ≡ none) a u.0))
    | inr n ↦
        rw (n, find_page-past p (list_unlink ps d l) d l n) (find_page-list_unlink_self ps u.1)
  ]

  pub list_unlink-IsUnique : (ps : List Page) → IsUnique ps → IsUnique (list_unlink ps d l)
  unfolding list_unlink IsUnique
  list_unlink-IsUnique [] u = tt
  list_unlink-IsUnique (p ∷ ps) u = elim (Bool-cases (same_key p.disk p.lba d l)) [
    | inl y ↦ rw y u.1
    | inr n ↦ rw n (find_page-list_unlink-none ps p.disk p.lba u.0, list_unlink-IsUnique ps u.1)
  ]

  pub length-list_unlink :
      (ps : List Page) (p : Page)
      → find_page ps d l ≡ some p
      → length ps ≡ suc (length (list_unlink ps d l))
  unfolding list_unlink
  length-list_unlink [] p h = let e = sym (find_page-nil d l) ∙ h in ground arith
  length-list_unlink (q ∷ ps) p h = elim (Bool-cases (same_key q.disk q.lba d l)) [
    | inl y ↦ rw y refl
    | inr n ↦ rw n (ap suc (length-list_unlink ps p (sym (find_page-past q ps d l n) ∙ h)))
  ]

  -- A change that keeps the key.
  module _ (f : Page → Page)
      (keeps : (q : Page) → same_key (f q).disk (f q).lba q.disk q.lba ≡ true) where
    changed_key :
        (q : Page) (d' l' : ℕ) → same_key (f q).disk (f q).lba d' l' ≡ same_key q.disk q.lba d' l'
    changed_key q d' l' =
        let (a, b) = same_key→eq (f q).disk (f q).lba q.disk q.lba (keeps q) in rw (a, b) refl

    pub find_page-change_ne :
        (ps : List Page) (d' l' : ℕ)
        → same_key d l d' l' ≡ false
        → find_page (change ps d l f) d' l' ≡ find_page ps d' l'
    unfolding change
    find_page-change_ne [] d' l' ne = refl
    find_page-change_ne (p ∷ ps) d' l' ne = elim (Bool-cases (same_key p.disk p.lba d l)) [
      | inl y ↦
          let (a, b) = same_key→eq p.disk p.lba d l y in
          let past : same_key p.disk p.lba d' l' ≡ false = rw (a, b) ne in
          rw y (
            find_page-past (f p) ps d' l' (changed_key p d' l' ∙ past)
            ∙ sym (find_page-past p ps d' l' past))
      | inr n ↦
          rw
            (
              n,
              find_page-cons p (change ps d l f),
              find_page-cons p ps,
              find_page-change_ne ps d' l' ne,
            )
            refl
    ]

    pub find_page-change_self :
        (ps : List Page) (p : Page)
        → find_page ps d l ≡ some p
        → find_page (change ps d l f) d l ≡ some (f p)
    unfolding change
    find_page-change_self [] p h = let e = sym (find_page-nil d l) ∙ h in ground arith
    find_page-change_self (q ∷ ps) p h = elim (Bool-cases (same_key q.disk q.lba d l)) [
      | inl y ↦
          let e = find_page-front q p ps d l y h in
          rw y (find_page-here (f q) ps d l (changed_key q d l ∙ y) ∙ ap (λ x. some (f x)) e)
      | inr n ↦
          let rest = find_page-change_self ps p (sym (find_page-past q ps d l n) ∙ h) in
          rw n (find_page-past q (change ps d l f) d l n ∙ rest)
    ]

    find_page-change-none :
        (ps : List Page) (d' l' : ℕ)
        → find_page ps d' l' ≡ none
        → find_page (change ps d l f) d' l' ≡ none
    unfolding change
    find_page-change-none [] d' l' h = h
    find_page-change-none (p ∷ ps) d' l' h =
        let (n, later) = find_page-absent p ps d' l' h in
        elim (Bool-cases (same_key p.disk p.lba d l)) [
          | inl here ↦ rw here (find_page-past (f p) ps d' l' (changed_key p d' l' ∙ n) ∙ later)
          | inr past ↦
              let rest = find_page-change-none ps d' l' later in
              rw past (find_page-past p (change ps d l f) d' l' n ∙ rest)
        ]

    pub change-IsUnique : (ps : List Page) → IsUnique ps → IsUnique (change ps d l f)
    unfolding change IsUnique
    change-IsUnique [] u = tt
    change-IsUnique (p ∷ ps) u = elim (Bool-cases (same_key p.disk p.lba d l)) [
      | inl y ↦
          let (a, b) = same_key→eq (f p).disk (f p).lba p.disk p.lba (keeps p) in
          rw y (rw (a, b) u.0, u.1)
      | inr n ↦ rw n (find_page-change-none ps p.disk p.lba u.0, change-IsUnique ps u.1)
    ]

    pub length-change : (ps : List Page) → length (change ps d l f) ≡ length ps
    unfolding change
    length-change [] = refl
    length-change (p ∷ ps) = elim (Bool-cases (same_key p.disk p.lba d l)) [
      | inl y ↦ rw y refl
      | inr n ↦ rw n (ap suc (length-change ps))
    ]
