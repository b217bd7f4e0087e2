-- ===== src/Mem/PageCache/Victim.antt =====
-- Kernel/Source/Mem/PageCache.c: which page PCacheFindVictim takes.
use k_os.Prelude.{
  ℕ, zero, suc, ◌+◌, ◌≤◌, ◌<◌, ◌≡◌, refl, sym, ap, subst, ◌∙◌, ◌≢◌, inl, inr, Bool, true, false,
  ◌||◌, Option, none, some, List, [], ◌∷◌, ◌++◌, arith, ltb, Bool-cases, length, length-append, All,
}
use k_os.Mem.PageCache.{
  Page, PCache, find_page, list_unlink, change, same_key, scan, oldest_first, find_victim,
}
use k_os.Mem.PageCache.Keys.{
  same_key→eq, at_same_key, same_key_refl, IsUnique, find_page-nil, find_page-past, find_page-front,
  find_page_self,
}

-- A page that an eviction passes over.
abbrev pub is_busy : Page → Bool
is_busy p = ltb 0 p.ref_count || p.writeback

abbrev pub IsBusy : Page → Type 0
IsBusy p = is_busy p ≡ true

abbrev pub IsIdle : Page → Type 0
IsIdle p = (p.ref_count ≡ 0) × (p.writeback ≡ false)

module _ {κ} (P : Page → Type κ) where
  pub All-append : (xs ys : List Page) → All P xs → All P ys → All P (xs ++ ys)
  All-append [] ys h g = g
  All-append (x ∷ xs) ys h g = (h.0, All-append xs ys h.1 g)

  pub All-oldest_first : (ps : List Page) → All P ps → All P (oldest_first ps)
  unfolding oldest_first
  All-oldest_first [] h = tt
  All-oldest_first (p ∷ ps) h =
      All-append (oldest_first ps) (p ∷ []) (All-oldest_first ps h.1) (h.0, tt)

  pub All-list_unlink : (ps : List Page) (d l : ℕ) → All P ps → All P (list_unlink ps d l)
  unfolding list_unlink
  All-list_unlink [] d l h = tt
  All-list_unlink (p ∷ ps) d l h = elim (Bool-cases (same_key p.disk p.lba d l)) [
    | inl y ↦ rw y h.1
    | inr n ↦ rw n (h.0, All-list_unlink ps d l h.1)
  ]

  pub All-change :
      (f : Page → Page)
      → ((p : Page) → P p → P (f p))
      → (ps : List Page) (d l : ℕ) → All P ps
      → All P (change ps d l f)
  unfolding change
  All-change f keep [] d l h = tt
  All-change f keep (p ∷ ps) d l h = elim (Bool-cases (same_key p.disk p.lba d l)) [
    | inl y ↦ rw y (keep p h.0, h.1)
    | inr n ↦ rw n (h.0, All-change f keep ps d l h.1)
  ]

  pub All-find_page :
      (ps : List Page) (d l : ℕ) (p : Page) → All P ps → find_page ps d l ≡ some p → P p
  All-find_page [] d l p h e = absurd (let r = sym (find_page-nil d l) ∙ e in ground arith)
  All-find_page (q ∷ ps) d l p h e = elim (Bool-cases (same_key q.disk q.lba d l)) [
    | inl y ↦ subst P (find_page-front q p ps d l y e) h.0
    | inr n ↦ All-find_page ps d l p h.1 (sym (find_page-past q ps d l n) ∙ e)
  ]

append_assoc : (xs ys zs : List Page) → (xs ++ ys) ++ zs ≡ xs ++ (ys ++ zs)
append_assoc [] ys zs = refl
append_assoc (x ∷ xs) ys zs = ap (◌∷◌ x) (append_assoc xs ys zs)

append_nil : (xs : List Page) → xs ++ [] ≡ xs
append_nil [] = refl
append_nil (x ∷ xs) = ap (◌∷◌ x) (append_nil xs)

oldest_first-append :
    (xs ys : List Page) → oldest_first (xs ++ ys) ≡ oldest_first ys ++ oldest_first xs
unfolding oldest_first
oldest_first-append [] ys = sym (append_nil (oldest_first ys))
oldest_first-append (x ∷ xs) ys =
    ap (λ z. z ++ (x ∷ [])) (oldest_first-append xs ys)
    ∙ append_assoc (oldest_first ys) (oldest_first xs) (x ∷ [])

oldest_first-oldest_first : (xs : List Page) → oldest_first (oldest_first xs) ≡ xs
unfolding oldest_first
oldest_first-oldest_first [] = refl
oldest_first-oldest_first (x ∷ xs) =
    oldest_first-append (oldest_first xs) (x ∷ []) ∙ ap (◌∷◌ x) (oldest_first-oldest_first xs)

length-oldest_first : (xs : List Page) → length (oldest_first xs) ≡ length xs
unfolding oldest_first
length-oldest_first [] = refl
length-oldest_first (x ∷ xs) =
    length-append (oldest_first xs) (x ∷ []) ∙ omega (arith, length-oldest_first xs)

scan_busy : (n : ℕ) (xs : List Page) → All IsBusy xs → scan n xs ≡ none
unfolding scan
scan_busy n [] h = refl
scan_busy zero (x ∷ xs) h = refl
scan_busy (suc n) (x ∷ xs) h = let rest = scan_busy n xs h.1 in let b = h.0 in ground arith

-- The list splits at the page that the scan stops at, or all of it is busy.
pub data Scanned (xs : List Page) (found : Option Page) : Type 0 where
  all_busy : All IsBusy xs → found ≡ none → Scanned xs found
  stopped :
      (before : List Page) (v : Page) (after : List Page)
      → xs ≡ before ++ (v ∷ after)
      → All IsBusy before
      → is_busy v ≡ false
      → found ≡ some v
      → Scanned xs found

scan-Scanned : (n : ℕ) (xs : List Page) → length xs ≤ n → Scanned xs (scan n xs)
unfolding scan
scan-Scanned n [] le = all_busy tt refl
scan-Scanned zero (x ∷ xs) le = absurd (omega arith)
scan-Scanned (suc n) (x ∷ xs) le = elim (Bool-cases (is_busy x)) [
  | inl y ↦ elim (scan-Scanned n xs (omega arith)) [
    | all_busy h e ↦ all_busy (y, h) (ground arith)
    | stopped before v after split h idle e ↦
        stopped (x ∷ before) v after (ap (◌∷◌ x) split) (y, h) idle (ground arith)
  ]
  | inr n ↦ stopped [] x xs refl tt n (ground arith)
]

-- The victim is the page that is used least recently of those that are not busy.
pub find_victim_lem :
    (c : PCache) → c.page_count ≡ length c.lru → Scanned (oldest_first c.lru) (find_victim c)
unfolding find_victim
find_victim_lem c e =
    scan-Scanned (c.page_count + 1) (oldest_first c.lru)
      (omega (arith, length-oldest_first c.lru, e))

pub find_page-middle :
    (front : List Page) (v : Page) (back : List Page)
    → IsUnique (front ++ (v ∷ back))
    → find_page (front ++ (v ∷ back)) v.disk v.lba ≡ some v
unfolding IsUnique
find_page-middle [] v back u = find_page_self v back
find_page-middle (p ∷ front) v back u =
    let rest = find_page-middle front v back u.1 in
    elim (Bool-cases (same_key p.disk p.lba v.disk v.lba)) [
      | inl y ↦
          let (a, b) = same_key→eq p.disk p.lba v.disk v.lba y in
          let none_here : find_page (front ++ (v ∷ back)) v.disk v.lba ≡ none =
            subst (λ x. find_page (front ++ (v ∷ back)) v.disk x ≡ none) b
              (subst (λ x. find_page (front ++ (v ∷ back)) x p.lba ≡ none) a u.0) in
          let e = sym none_here ∙ rest in ground arith
      | inr n ↦ find_page-past p (front ++ (v ∷ back)) v.disk v.lba n ∙ rest
    ]

-- What PCacheFindVictim finds: the pages behind it, which are older, are all busy.
pub data Choice (lru : List Page) (found : Option Page) : Type 0 where
  nothing_free : All IsBusy lru → found ≡ none → Choice lru found
  chosen :
      (newer : List Page) (v : Page) (older : List Page)
      → lru ≡ newer ++ (v ∷ older)
      → All IsBusy older
      → is_busy v ≡ false
      → found ≡ some v
      → Choice lru found

pub find_victim-Choice : (c : PCache) → c.page_count ≡ length c.lru → Choice c.lru (find_victim c)
unfolding oldest_first
find_victim-Choice c counted = elim (find_victim_lem c counted) [
  | all_busy h e ↦
      nothing_free
        (subst (All IsBusy) (oldest_first-oldest_first c.lru)
          (All-oldest_first IsBusy (oldest_first c.lru) h))
        e
  | stopped before v after split h idle e ↦
      chosen (oldest_first after) v (oldest_first before)
        (sym (oldest_first-oldest_first c.lru)
          ∙ ap oldest_first split
          ∙ oldest_first-append before (v ∷ after)
          ∙ append_assoc (oldest_first after) (v ∷ []) (oldest_first before))
        (All-oldest_first IsBusy before h) idle e
]

pub list_unlink-middle :
    (front : List Page) (v : Page) (back : List Page)
    → IsUnique (front ++ (v ∷ back))
    → list_unlink (front ++ (v ∷ back)) v.disk v.lba ≡ front ++ back
unfolding IsUnique list_unlink
list_unlink-middle [] v back u = rw (same_key_refl v.disk v.lba) refl
list_unlink-middle (p ∷ front) v back u = elim (Bool-cases (same_key p.disk p.lba v.disk v.lba)) [
  | inl y ↦
      let none_here =
        at_same_key (λ e n. find_page (front ++ (v ∷ back)) e n ≡ none) p.disk p.lba v.disk v.lba y
          u.0 in
      let e = sym none_here ∙ find_page-middle front v back u.1 in ground arith
  | inr n ↦ rw n (ap (◌∷◌ p) (list_unlink-middle front v back u.1))
]

-- A cache that holds a page and has no busy one has a victim.
pub idle_victim :
    (c : PCache)
    → c.page_count ≡ length c.lru
    → All IsIdle c.lru
    → 0 < c.page_count
    → find_victim c ≢ none
idle_victim c counted idle some_page e = elim (find_victim-Choice c counted) [
  | nothing_free h _ ↦ contradiction c.lru idle h (omega (arith, counted))
  | chosen newer v older _ _ _ found ↦ let r = sym e ∙ found in ground arith
]
  where
    contradiction : (ps : List Page) → All IsIdle ps → All IsBusy ps → 0 < length ps → ⊥
    contradiction [] h b lt = omega arith
    contradiction (p ∷ ps) h b lt = let (z, w) = h.0 in let y = b.0 in ground arith
