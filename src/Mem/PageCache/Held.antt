-- ===== src/Mem/PageCache/Held.antt =====
-- Kernel/Source/Mem/PageCache.c: a page that is referenced, and the two ways to come by it.
use k_os.Prelude.{
  ℕ, ◌*◌, ◌/◌, ◌%◌, ◌<◌, max, ◌≡◌, refl, sym, ap, subst, ◌∙◌, Bool, true, false, not, Option, none,
  some, List, ◌∷◌, arith, in_branch, All,
}
use k_os.Mem.PageCache.{
  Page, PCache, Machine, page_size, same_key, find_page, list_unlink, touch_page, spp, insert,
}
use k_os.Mem.PageCache.Keys.{
  same_key→eq, same_key_refl, IsUnique, find_page-list_unlink_self, list_unlink-IsUnique,
  length-list_unlink,
}
use k_os.Mem.PageCache.Dirty.{count_dirty, count_dirty-list_unlink}
use k_os.Mem.PageCache.Victim.{IsIdle, All-list_unlink, All-find_page}
use k_os.Mem.PageCache.Table.{
  Rebound, Pages, cons-Rebound, touch_page-Rebound, Rebound-Pages, Rebound-AreListed,
}
use k_os.Mem.PageCache.State.{
  SameDisks, IsGood, IsTable, IsCache, byte_of, logical, SameView, SameView_trans,
  SameDisks-IsTable, byte_of_same, IsTable-same, IsGood-same,
}
use k_os.Mem.PageCache.Disk.{clean_bytes}

module _ {W : Type 0} (m : Machine W) (contents : W → ℕ → ℕ → ℕ) (capacity : ℕ → ℕ) where
  -- The page of a key shows the bytes that were to be seen at the key before.
  pub Rebound-SameView :
      (c c' : PCache) (w w' : W) (d l : ℕ) (q : Page)
      → Rebound c.lru c'.lru d l q
      → ((e i : ℕ) → contents w' e i ≡ contents w e i)
      → ((i : ℕ)
          → l ≡ i / page_size * spp m d
          → q.bytes (i % page_size) ≡ logical m contents capacity c w d i)
      → SameView m contents capacity c w c' w'
  unfolding Rebound SameView logical byte_of
  Rebound-SameView c c' w w' d l q bound same bytes e i disk =
      let k = i / page_size * spp m e in
      rw (bound e k) (
        in_branch
          (λ found.
            byte_of m contents capacity found w' e i
            ≡ byte_of m contents capacity (find_page c.lru e k) w e i)
          (same_key d l e k) (some q) (find_page c.lru e k)
          (λ y.
            let (a, b) = same_key→eq d l e k y in
            let here : l ≡ i / page_size * spp m d =
              b ∙ ap (λ x. i / page_size * spp m x) (sym a) in
            bytes i here
            ∙ ap
                (λ x.
                  byte_of m contents capacity (find_page c.lru x (i / page_size * spp m x)) w x i)
                a)
          (λ n. byte_of_same m contents capacity (find_page c.lru e k) w w' e i (same e i)))

  -- The page is referenced once, and it is the only one.
  pub record IsHeld (c : PCache) (p : Page) : Type 0 where
    pub others : List Page
    pub front : c.lru ≡ p ∷ others
    pub idle : All IsIdle others
    pub once : p.ref_count ≡ 1
    pub settled : p.writeback ≡ false

  pub false_of_not : (b : Bool) → not b ≡ true → b ≡ false
  false_of_not b h = ground arith

  -- What PCacheGetPage comes to: a page of the key that is referenced once; or no page is referenced, and an
  -- allocation has failed.
  unfoldable pub Fetched : PCache → W → ℕ → ℕ → PCache × W × Option Page → Type 0
  Fetched c w d l (c', w', none) =
      IsCache m contents capacity c' w'
      × SameView m contents capacity c w c' w'
      × (w0 : W) × ((m.memory_allocate w0).1 ≡ false)
  Fetched c w d l (c', w', some p) =
      IsTable m contents capacity c' w'
      × SameView m contents capacity c w c' w'
      × IsHeld c' p
      × (p.disk ≡ d)
      × (p.lba ≡ l)

  pub touch_page_lem :
      (c : PCache) (w : W) (p : Page) (hits : ℕ)
      → IsCache m contents capacity c w
      → find_page c.lru p.disk p.lba ≡ some p
      → Fetched c w p.disk p.lba
          (record (touch_page m c w p).0 { hit_count = hits }, w, some (touch_page m c w p).1)
  unfolding touch_page Fetched count_dirty IsUnique logical byte_of Pages
  touch_page_lem c w p hits h found =
      let q = (touch_page m c w p).1 in
      let bound = touch_page-Rebound c.lru q in
      let (still, settled) = All-find_page IsIdle c.lru p.disk p.lba p h.idle found in
      let good =
        IsGood-same m contents capacity w p q refl refl refl (λ off. (off, refl))
          (h.table.good p.disk p.lba p found) in
      (
        record {
          unique = (
            find_page-list_unlink_self p.disk p.lba c.lru h.table.unique,
            list_unlink-IsUnique p.disk p.lba c.lru h.table.unique,
          );
          good = Rebound-Pages c.lru _ _ p.disk p.lba q bound h.table.good good;
          counted = h.table.counted ∙ length-list_unlink p.disk p.lba c.lru p found;
          bounded = h.table.bounded;
          positive = h.table.positive;
          limit = h.table.limit;
          are_listed =
              Rebound-AreListed c.lru _ p.disk p.lba q c.dirty_list bound h.table.are_listed
                (rw found refl);
          distinct = h.table.distinct;
          on = h.table.on;
          dirty_counted =
              h.table.dirty_counted ∙ count_dirty-list_unlink p.disk p.lba c.lru p found;
        },
        Rebound-SameView c _ w w p.disk p.lba q bound (λ e i. refl)
            (λ i here. sym (
              ap (λ f. byte_of m contents capacity f w p.disk i)
                (subst (λ x. find_page c.lru p.disk x ≡ some p) here found))),
        record {
          others = list_unlink c.lru p.disk p.lba;
          front = refl;
          idle = All-list_unlink IsIdle c.lru p.disk p.lba h.idle;
          once = rw still refl;
          settled = settled;
        },
        refl,
        refl,
      )

  pub insert_lem :
      (c : PCache) (w : W) (p : Page)
      → IsCache m contents capacity c w
      → c.page_count < c.max_pages
      → IsGood m contents capacity w p
      → p.dirty ≡ false
      → p.ref_count ≡ 1
      → p.writeback ≡ false
      → find_page c.lru p.disk p.lba ≡ none
      → Fetched c w p.disk p.lba (insert m c w p)
  unfolding insert Fetched count_dirty IsUnique logical byte_of
  insert_lem c w p h room good off once settled absent =
      let bound = cons-Rebound c.lru p in
      rw (insert, absent)
        (
          record {
            unique = (absent, h.table.unique);
            good = Rebound-Pages c.lru _ _ p.disk p.lba p bound h.table.good good;
            counted = omega (arith, h.table.counted, h.table.limit, room);
            bounded = omega (arith, h.table.limit, room);
            positive = h.table.positive;
            limit = h.table.limit;
            are_listed =
                Rebound-AreListed c.lru _ p.disk p.lba p c.dirty_list bound h.table.are_listed
                  (rw absent (sym off));
            distinct = h.table.distinct;
            on = h.table.on;
            dirty_counted = rw off (omega (arith, h.table.dirty_counted));
          },
          Rebound-SameView c _ w w p.disk p.lba p bound (λ e i. refl)
              (λ i here.
                let seen = clean_bytes m contents capacity w p p.disk i good off in
                let same : same_key p.disk p.lba p.disk (i / page_size * spp m p.disk) ≡ true =
                  subst (λ x. same_key p.disk p.lba p.disk x ≡ true) here
                    (same_key_refl p.disk p.lba) in
                let gone : find_page c.lru p.disk (i / page_size * spp m p.disk) ≡ none =
                  subst (λ x. find_page c.lru p.disk x ≡ none) here absent in
                rw gone (sym (seen ∙ rw same refl))),
          record { others = c.lru; front = refl; idle = h.idle; once = once; settled = settled },
          refl,
          refl,
        )

  -- The cache with other counts of calls, or on another world with the same disks.
  pub IsCache-same :
      (c c' : PCache) (w w' : W)
      → c'.lru ≡ c.lru
      → c'.dirty_list ≡ c.dirty_list
      → c'.page_count ≡ c.page_count
      → c'.max_pages ≡ c.max_pages
      → c'.dirty_count ≡ c.dirty_count
      → c'.initialized ≡ c.initialized
      → SameDisks m contents capacity w w'
      → IsCache m contents capacity c w
      → IsCache m contents capacity c' w'
  IsCache-same c c' w w' lru list pages max dirty running same h = record {
    table =
        IsTable-same m contents capacity c c' w' lru list pages max dirty running
          (SameDisks-IsTable m contents capacity c w w' same h.table);
    idle = subst (All IsIdle) (sym lru) h.idle;
  }

  -- What a call comes to, seen from an earlier state with the same bytes.
  pub Fetched-from :
      (c c' : PCache) (w w' : W) (d l : ℕ) (r : PCache × W × Option Page)
      → SameView m contents capacity c w c' w'
      → Fetched c' w' d l r
      → Fetched c w d l r
  unfolding Fetched
  Fetched-from c c' w w' d l (c'', w'', none) view (h, v, w0, failed) =
      (h, SameView_trans m contents capacity c w c' w' c'' w'' view v, w0, failed)
  Fetched-from c c' w w' d l (c'', w'', some p) view (t, v, held, a, b) =
      (t, SameView_trans m contents capacity c w c' w' c'' w'' view v, held, a, b)
