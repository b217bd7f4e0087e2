-- ===== src/Mem/PageCache/Front.antt =====
-- Kernel/Source/Mem/PageCache.c: the freshest page is changed where it stands, which is what PCacheRead and
-- PCacheWrite do with the page that PCacheGetPage gives.
use k_os.Prelude.{
  ℕ, ◌*◌, ◌/◌, ◌%◌, ◌≡◌, refl, sym, ap, subst, ◌∙◌, inl, inr, true, false, some, List, ◌∷◌, arith,
  if◌then◌else◌, Bool-cases, in_branch, length, All,
}
use k_os.Mem.PageCache.{
  Page, PCache, Machine, page_size, same_key, find_page, change, spp, drop_ref, release_page,
}
use k_os.Mem.PageCache.Keys.{
  same_key_refl, IsUnique, find_page_self, find_page-here, find_page-past,
}
use k_os.Mem.PageCache.Dirty.{IsDistinct, AreListed, count_dirty}
use k_os.Mem.PageCache.Victim.{IsIdle}
use k_os.Mem.PageCache.Table.{Rebound, Pages, Rebound-Pages, Rebound-AreListed}
use k_os.Mem.PageCache.State.{IsGood, IsTable, IsCache, byte_of, logical, SameView, IsGood-same}
use k_os.Mem.PageCache.Held.{IsHeld}

pub change-front :
    (p : Page) (ps : List Page) (f : Page → Page) → change (p ∷ ps) p.disk p.lba f ≡ f p ∷ ps
unfolding change
change-front p ps f = rw (same_key_refl p.disk p.lba) refl

pub front-Rebound :
    (p q : Page) (ps : List Page)
    → q.disk ≡ p.disk
    → q.lba ≡ p.lba
    → Rebound (p ∷ ps) (q ∷ ps) p.disk p.lba q
unfolding Rebound
front-Rebound p q ps a b d' l' = elim (Bool-cases (same_key p.disk p.lba d' l')) [
  | inl y ↦
      let here : same_key q.disk q.lba d' l' ≡ true = rw (a, b) y in
      rw y (find_page-here q ps d' l' here)
  | inr n ↦
      let past : same_key q.disk q.lba d' l' ≡ false = rw (a, b) n in
      rw n (find_page-past q ps d' l' past ∙ sym (find_page-past p ps d' l' n))
]

module _ {W : Type 0} (m : Machine W) (contents : W → ℕ → ℕ → ℕ) (capacity : ℕ → ℕ) where
  -- `c'` is `c` with page q in place of its freshest page p, which has the same key.
  pub record IsReplaced (c c' : PCache) (p q : Page) : Type 0 where
    pub others : List Page
    pub before : c.lru ≡ p ∷ others
    pub after : c'.lru ≡ q ∷ others
    pub disk : q.disk ≡ p.disk
    pub lba : q.lba ≡ p.lba
    pub pages : c'.page_count ≡ c.page_count
    pub max : c'.max_pages ≡ c.max_pages
    pub running : c'.initialized ≡ c.initialized

  pub replaced-Rebound :
      (c c' : PCache) (p q : Page) → IsReplaced c c' p q → Rebound c.lru c'.lru p.disk p.lba q
  replaced-Rebound c c' p q r =
      subst (λ ps. Rebound ps c'.lru p.disk p.lba q) (sym r.before)
        (subst (λ qs. Rebound (p ∷ r.others) qs p.disk p.lba q) (sym r.after)
          (front-Rebound p q r.others r.disk r.lba))

  replaced-IsUnique :
      (c c' : PCache) (p q : Page) → IsReplaced c c' p q → IsUnique c.lru → IsUnique c'.lru
  unfolding IsUnique
  replaced-IsUnique c c' p q r u =
      let (absent, rest) = subst IsUnique r.before u in
      subst IsUnique (sym r.after) (rw (r.disk, r.lba) absent, rest)

  pub replaced-IsTable :
      (c c' : PCache) (p q : Page) (w : W)
      → IsReplaced c c' p q
      → IsTable m contents capacity c w
      → IsGood m contents capacity w q
      → AreListed c'.lru c'.dirty_list
      → IsDistinct c'.dirty_list
      → c'.dirty_count ≡ count_dirty c'.lru
      → IsTable m contents capacity c' w
  replaced-IsTable c c' p q w r t good list distinct dirty = record {
    unique = replaced-IsUnique c c' p q r t.unique;
    good =
        Rebound-Pages c.lru (IsGood m contents capacity w) c'.lru p.disk p.lba q
          (replaced-Rebound c c' p q r) t.good good;
    counted = r.pages ∙ t.counted ∙ ap length r.before ∙ sym (ap length r.after);
    bounded = omega (arith, r.pages, r.max, t.bounded);
    positive = omega (arith, r.max, t.positive);
    limit = omega (arith, r.max, t.limit);
    are_listed = list;
    distinct = distinct;
    dirty_counted = dirty;
    on = r.running ∙ t.on;
  }

  -- What is to be seen then.
  pub replaced-logical :
      (c c' : PCache) (p q : Page) (w : W) (e i : ℕ)
      → IsReplaced c c' p q
      → logical m contents capacity c' w e i ≡ (
          if same_key p.disk p.lba e (i / page_size * spp m e)
          then q.bytes (i % page_size)
          else logical m contents capacity c w e i)
  unfolding Rebound logical byte_of
  replaced-logical c c' p q w e i r =
      rw (replaced-Rebound c c' p q r e (i / page_size * spp m e))
        (elim (Bool-cases (same_key p.disk p.lba e (i / page_size * spp m e))) [
          | inl y ↦ rw y refl
          | inr n ↦ rw n refl
        ])

  -- And before.
  pub front-logical :
      (c : PCache) (p : Page) (ps : List Page) (w : W) (e i : ℕ)
      → c.lru ≡ p ∷ ps
      → same_key p.disk p.lba e (i / page_size * spp m e) ≡ true
      → logical m contents capacity c w e i ≡ p.bytes (i % page_size)
  unfolding logical byte_of
  front-logical c p ps w e i front y =
      rw (front, find_page-here p ps e (i / page_size * spp m e) y) refl

  -- PCacheRelease of the page ends the reference.
  pub release_page_lem :
      (c : PCache) (p : Page) (w : W)
      → IsTable m contents capacity c w
      → IsHeld m contents capacity c p
      → IsCache m contents capacity (release_page c p) w
        × SameView m contents capacity c w (release_page c p) w
  unfolding release_page SameView count_dirty Pages
  release_page_lem c p w t held =
      let q = drop_ref p in
      let r : IsReplaced c (release_page c p) p q = record {
        others = held.others;
        before = held.front;
        after = rw held.front (change-front p held.others drop_ref);
        disk = refl;
        lba = refl;
        pages = refl;
        max = refl;
        running = refl;
      } in
      let dirty : count_dirty (release_page c p).lru ≡ count_dirty c.lru =
        rw (r.after, r.before) refl in
      let here : find_page c.lru p.disk p.lba ≡ some p =
        rw held.front (find_page_self p held.others) in
      let good =
        IsGood-same m contents capacity w p q refl refl refl (λ off. (off, refl))
          (t.good p.disk p.lba p here) in
      (
        record {
          table =
              replaced-IsTable c _ p q w r t good
                (Rebound-AreListed c.lru _ p.disk p.lba q c.dirty_list (replaced-Rebound c _ p q r)
                  t.are_listed (rw here refl))
                t.distinct (t.dirty_counted ∙ sym dirty);
          idle = subst (All IsIdle) (sym r.after) ((rw held.once refl, held.settled), held.idle);
        },
        λ e i disk.
            replaced-logical c _ p q w e i r
            ∙ in_branch (λ x. x ≡ logical m contents capacity c w e i)
                (same_key p.disk p.lba e (i / page_size * spp m e)) (p.bytes (i % page_size))
                (logical m contents capacity c w e i)
                (λ y. sym (front-logical c p held.others w e i held.front y)) (λ n. refl),
      )
