-- ===== src/Mem/PageCache/Cleans.antt =====
-- Kernel/Source/Mem/PageCache.c: a dirty page is page_written to its disk and becomes clean.
use k_os.Prelude.{
  ℕ, ◌+◌, ◌*◌, ◌/◌, ◌≡◌, refl, sym, ap, ap₂, subst, ◌∙◌, inl, inr, Bool, true, false, not, ◌&&◌,
  ◌||◌, some, List, arith, ◌==◌, if◌then◌else◌, true≢false, Bool-cases, Option-cases, in_branch,
}
use k_os.Mem.PageCache.{Page, PCache, Machine, page_size, same_key, find_page, change, undirty, spp}
use k_os.Mem.PageCache.Control.{Progress, clean, page_written, is_skipped, write_page, flush_step}
use k_os.Mem.PageCache.Keys.{
  at_same_key, same_key_refl, find_page-key, change-IsUnique, length-change,
}
use k_os.Mem.PageCache.Dirty.{
  listed, AreListed, IsDistinct, count_dirty, count_dirty-le, count_dirty-change,
  undirty-IsDistinct, listed-undirty_ne, listed-undirty_self,
}
use k_os.Mem.PageCache.Victim.{IsIdle, All-change, All-find_page}
use k_os.Mem.PageCache.Table.{Rebound, Pages, change-Rebound, Rebound-undirty}
use k_os.Mem.PageCache.State.{
  IsHealthy, IsGood, IsTable, IsCache, byte_of, byte_of_same, logical, SameView,
}
use k_os.Mem.PageCache.Disk.{
  stored, stored_code, stored_bytes, stored_other-IsGood, stored_self-IsGood,
}

-- Whether a flush of `d` takes the pages of disk `e`.
abbrev pub selected : ℕ → ℕ → Bool
selected d e = (d == 0) || (e == d)

false_of_not : (b : Bool) → not b ≡ true → b ≡ false
false_of_not b h = ground arith

true_of_not : (b : Bool) → not b ≡ false → b ≡ true
true_of_not b h = ground arith

module _ {W : Type 0} (m : Machine W) (contents : W → ℕ → ℕ → ℕ) (capacity : ℕ → ℕ)
    (healthy : IsHealthy m contents capacity) where
  module _ (c : PCache) (w : W) (p : Page) (h : IsCache m contents capacity c w)
      (found : find_page c.lru p.disk p.lba ≡ some p) where
    abbrev w1 : W
    w1 = (stored m contents capacity healthy w p).0

    good : IsGood m contents capacity w p
    unfolding Pages
    good = h.table.good p.disk p.lba p found

    bound : Rebound c.lru (change c.lru p.disk p.lba clean) p.disk p.lba (clean p)
    bound = change-Rebound c.lru p.disk p.lba clean p (λ q. same_key_refl q.disk q.lba) found

    page_written-IsGood : Pages (IsGood m contents capacity w1) (change c.lru p.disk p.lba clean)
    unfolding Pages Rebound
    page_written-IsGood e l q at = elim (Bool-cases (same_key p.disk p.lba e l)) [
      | inl y ↦
          let r : some (clean p) ≡ some q = sym (rw (bound e l, y) refl) ∙ at in
          subst (IsGood m contents capacity w1) (ground arith) (
            stored_self-IsGood m contents capacity healthy w p (clean p) good
              (same_key_refl p.disk p.lba) refl refl)
      | inr n ↦
          let before : find_page c.lru e l ≡ some q = sym (rw (bound e l, n) refl) ∙ at in
          let (a, b) = find_page-key c.lru e l q before in
          stored_other-IsGood m contents capacity healthy w p q good (h.table.good e l q before)
            (rw (a, b) n)
    ]

    page_written_view : SameView m contents capacity c w (page_written c p) w1
    unfolding SameView logical byte_of page_written Rebound
    page_written_view e i is_disk =
        let l = i / page_size * spp m e in
        elim (Bool-cases (same_key p.disk p.lba e l)) [
          | inl y ↦
              let before =
                at_same_key (λ e l. find_page c.lru e l ≡ some p) p.disk p.lba e l y found in
              rw (bound e l, y, before) refl
          | inr n ↦
              let same : contents w1 e i ≡ contents w e i =
                stored_bytes m contents capacity healthy w p e i good ∙ rw n refl in
              rw (bound e l, n)
                (byte_of_same m contents capacity (find_page c.lru e l) w w1 e i same)
        ]

    page_written-IsCache : p.dirty ≡ true → IsCache m contents capacity (page_written c p) w1
    unfolding page_written
    page_written-IsCache dirty =
        let t = h.table in
        let keeps = λ (q : Page). same_key_refl q.disk q.lba in
        let same_length = length-change p.disk p.lba clean keeps c.lru in
        let fewer : count_dirty (change c.lru p.disk p.lba clean) + 1 ≡ 0 + count_dirty c.lru =
          let changed = count_dirty-change p.disk p.lba clean c.lru p found in
          rw dirty at changed in
        let le = count_dirty-le c.lru in
        record {
          table = record {
            unique = change-IsUnique p.disk p.lba clean keeps c.lru t.unique;
            good = page_written-IsGood;
            counted = t.counted ∙ sym same_length;
            bounded = t.bounded;
            positive = t.positive;
            limit = t.limit;
            are_listed =
                Rebound-undirty c.lru _ p.disk p.lba (clean p) c.dirty_list bound t.are_listed
                  t.distinct refl;
            distinct = undirty-IsDistinct p.disk p.lba c.dirty_list t.distinct;
            on = t.on;
            dirty_counted =
                omega (arith, t.dirty_counted, t.counted, t.bounded, t.limit, fewer, le);
          };
          idle = All-change IsIdle clean (λ q i. (refl, refl)) c.lru p.disk p.lba h.idle;
        }

  -- The same bytes are to be seen, and of the keys that are listed those go that `gone` tells.
  unfoldable pub Flushed : Progress W → Progress W → (ℕ → ℕ → Bool) → Type 0
  Flushed s s' gone =
      IsCache m contents capacity s'.cache s'.world
      × SameView m contents capacity s.cache s.world s'.cache s'.world
      × ((e l : ℕ)
          → listed s'.cache.dirty_list e l
            ≡ (if gone e l then false else listed s.cache.dirty_list e l))

  listed_page :
      (c : PCache) (w : W) (e l : ℕ)
      → IsTable m contents capacity c w
      → listed c.dirty_list e l ≡ true
      → (p : Page) × (find_page c.lru e l ≡ some p) × (p.dirty ≡ true)
  unfolding AreListed
  listed_page c w e l t h = elim (Option-cases (find_page c.lru e l)) [
    | inl absent ↦
        let off : listed c.dirty_list e l ≡ false = t.are_listed e l ∙ rw absent refl in
        absurd (true≢false (sym h ∙ off))
    | inr (p, found) ↦ (p, found, sym (t.are_listed e l ∙ rw found refl) ∙ h)
  ]

  skipped_eq : (d : ℕ) (p : Page) → IsIdle p → is_skipped d p ≡ not (selected d p.disk)
  skipped_eq d p (z, f) = rw (z, f) (ground arith)

  flush_step-found :
      (d : ℕ) (s : Progress W) (e l : ℕ) (p : Page)
      → find_page s.cache.lru e l ≡ some p
      → flush_step m d s (e, l) ≡ (if is_skipped d p then s else write_page m s p)
  unfolding flush_step
  flush_step-found d s e l p found = rw (flush_step, found) refl

  write_page-page_written :
      (s : Progress W) (p : Page)
      → IsGood m contents capacity s.world p
      → write_page m s p ≡ record {
        cache = page_written s.cache p;
        world = (stored m contents capacity healthy s.world p).0;
        flushed = s.flushed + 1;
      }
  unfolding write_page
  write_page-page_written s p g = rw (stored_code m contents capacity healthy s.world p g) refl

  listed_rest :
      (ks : List (ℕ × ℕ)) (d e l e' l' : ℕ)
      → IsDistinct ks
      → selected d e ≡ true
      → listed (undirty ks e l) e' l'
        ≡ (if selected d e && same_key e l e' l' then false else listed ks e' l')
  listed_rest ks d e l e' l' distinct sel = elim (Bool-cases (same_key e l e' l')) [
    | inl y ↦
        rw (sel, y)
          (at_same_key (λ x z. listed (undirty ks e l) x z ≡ false) e l e' l' y
            (listed-undirty_self e l ks distinct))
    | inr n ↦ rw (sel, n) (listed-undirty_ne e l ks e' l' n)
  ]

  pub flush_step_lem :
      (d : ℕ) (s : Progress W) (e l : ℕ)
      → IsCache m contents capacity s.cache s.world
      → listed s.cache.dirty_list e l ≡ true
      → Flushed s (flush_step m d s (e, l)) (λ e' l'. selected d e && same_key e l e' l')
  unfolding Flushed SameView page_written
  flush_step_lem d s e l h on =
      let gone = λ (e' l' : ℕ). selected d e && same_key e l e' l' in
      let (p, found, dirty) = listed_page s.cache s.world e l h.table on in
      let (a, b) = find_page-key s.cache.lru e l p found in
      let idle = All-find_page IsIdle s.cache.lru e l p h.idle found in
      let there : find_page s.cache.lru p.disk p.lba ≡ some p = rw (a, b) found in
      let chosen : is_skipped d p ≡ not (selected d e) =
        skipped_eq d p idle ∙ ap (λ x. not (selected d x)) a in
      subst (λ s'. Flushed s s' gone) (sym (flush_step-found d s e l p found))
        (in_branch (λ s'. Flushed s s' gone) (is_skipped d p) s (write_page m s p)
          (λ y.
            let out = false_of_not (selected d e) (sym chosen ∙ y) in
            (h, (λ e' i is_disk. refl), λ e' l'. rw out refl))
          (λ n.
            let sel = true_of_not (selected d e) (sym chosen ∙ n) in
            let now = write_page-page_written s p (good s.cache s.world p h there) in
            subst (λ s'. Flushed s s' gone) (sym now)
              (
                page_written-IsCache s.cache s.world p h there dirty,
                page_written_view s.cache s.world p h there,
                λ e' l'.
                    ap₂ (λ x z. listed (undirty s.cache.dirty_list x z) e' l') a b
                    ∙ listed_rest s.cache.dirty_list d e l e' l' h.table.distinct sel,
              )))
