-- ===== src/Mem/PageCache/Stores.antt =====
-- Kernel/Source/Mem/PageCache.c: bytes that PCacheWrite copies into a page.
use k_os.Prelude.{
  ℕ, ◌+◌, ◌^◌, ◌<◌, ◌≡◌, refl, sym, ap, subst, ◌∙◌, true, some, List, ◌∷◌, arith, if◌then◌else◌,
  true≢false, in_branch, All,
}
use k_os.Mem.PageCache.{Page, PCache, Machine, find_page, change, drop_ref, release_page}
use k_os.Mem.PageCache.Transfer.{copied, set_dirty, mark_dirty, store_bytes}
use k_os.Mem.PageCache.Keys.{find_page_self}
use k_os.Mem.PageCache.Dirty.{IsDistinct, AreListed, count_dirty, count_dirty-le}
use k_os.Mem.PageCache.Victim.{IsIdle}
use k_os.Mem.PageCache.Table.{Rebound, Pages, Rebound-AreListed, Rebound-listed}
use k_os.Mem.PageCache.State.{IsTable, IsCache, IsGood-same}
use k_os.Mem.PageCache.Held.{IsHeld}
use k_os.Mem.PageCache.Front.{change-front, front-Rebound, IsReplaced, replaced-IsTable}

-- What PCacheWrite does with the page: MemCpy, the dirty mark, PCacheRelease.
abbrev pub put_bytes : PCache → Page → ℕ → ℕ → (ℕ → ℕ) → PCache
put_bytes c p off n src = release_page (mark_dirty (store_bytes c p off n src) p) p

module _ {W : Type 0} (m : Machine W) (contents : W → ℕ → ℕ → ℕ) (capacity : ℕ → ℕ) where
  module _ (c : PCache) (w : W) (p : Page) (off n : ℕ) (src : ℕ → ℕ)
      (t : IsTable m contents capacity c w) (held : IsHeld m contents capacity c p) where
    abbrev stored_page : Page
    stored_page = record p { bytes = copied off n src p.bytes }

    abbrev pub marked_page : Page
    marked_page = record stored_page { dirty = true }

    stored_front : (store_bytes c p off n src).lru ≡ stored_page ∷ held.others
    unfolding store_bytes
    stored_front =
        ap (λ ps. change ps p.disk p.lba (λ q. record q { bytes = copied off n src q.bytes }))
          held.front
        ∙ change-front p held.others (λ q. record q { bytes = copied off n src q.bytes })

    here : find_page c.lru p.disk p.lba ≡ some p
    here = rw held.front (find_page_self p held.others)

    -- The list, the flag and the count after the mark.
    Marked : PCache → Type 0
    Marked c' =
        (c'.lru ≡ marked_page ∷ held.others)
        × AreListed c'.lru c'.dirty_list
        × IsDistinct c'.dirty_list
        × (c'.dirty_count ≡ count_dirty c'.lru)
        × (c'.page_count ≡ c.page_count)
        × (c'.max_pages ≡ c.max_pages)
        × (c'.initialized ≡ c.initialized)

    front_bound :
        (o q : Page) (ps qs : List Page)
        → ps ≡ o ∷ held.others
        → qs ≡ q ∷ held.others
        → q.disk ≡ o.disk
        → q.lba ≡ o.lba
        → Rebound ps qs o.disk o.lba q
    front_bound o q ps qs before after a b =
        subst (λ x. Rebound x qs o.disk o.lba q) (sym before)
          (subst (λ x. Rebound (o ∷ held.others) x o.disk o.lba q) (sym after)
            (front-Rebound o q held.others a b))

    counted : c.dirty_count ≡ (if p.dirty then 1 else 0) + count_dirty held.others
    unfolding count_dirty
    counted = t.dirty_counted ∙ ap count_dirty held.front

    few : c.dirty_count < 2 ^ 31
    few =
        let le = count_dirty-le c.lru in
        omega (arith, le, t.dirty_counted, t.counted, t.bounded, t.limit)

    mark_lem : Marked (mark_dirty (store_bytes c p off n src) p)
    unfolding Marked mark_dirty count_dirty store_bytes IsDistinct AreListed
    mark_lem =
        in_branch Marked p.dirty _ _
          (λ y.
            let front = stored_front ∙ ap (λ b. record stored_page { dirty = b } ∷ held.others) y in
            let bound = front_bound p marked_page c.lru _ held.front front refl refl in
            (
              front,
              Rebound-AreListed c.lru _ p.disk p.lba marked_page c.dirty_list bound t.are_listed
                  (rw here y),
              t.distinct,
              counted ∙ rw y (sym (ap count_dirty front)),
              refl,
              refl,
              refl,
            ))
          (λ off_yet.
            let front =
              ap (λ ps. change ps p.disk p.lba set_dirty) stored_front
              ∙ change-front stored_page held.others set_dirty in
            let bound = front_bound p marked_page c.lru _ held.front front refl refl in
            let none_before : c.dirty_count ≡ 0 + count_dirty held.others =
              counted ∙ rw off_yet refl in
            (
              front,
              Rebound-listed c.lru _ p.disk p.lba marked_page c.dirty_list bound t.are_listed refl,
              (t.are_listed p.disk p.lba ∙ rw here off_yet, t.distinct),
              omega (arith, none_before, few, ap count_dirty front),
              refl,
              refl,
              refl,
            ))

    pub marked_lru : (put_bytes c p off n src).lru ≡ drop_ref marked_page ∷ held.others
    unfolding release_page Marked
    marked_lru =
        ap (λ ps. change ps p.disk p.lba drop_ref) mark_lem.0
        ∙ change-front marked_page held.others drop_ref

    pub put-IsReplaced :
        IsReplaced m contents capacity c (put_bytes c p off n src) p (drop_ref marked_page)
    unfolding release_page Marked
    put-IsReplaced = record {
      others = held.others;
      before = held.front;
      after = marked_lru;
      disk = refl;
      lba = refl;
      pages = mark_lem.4;
      max = mark_lem.5;
      running = mark_lem.6;
    }

    pub put_bytes-IsCache : IsCache m contents capacity (put_bytes c p off n src) w
    unfolding release_page Marked Pages count_dirty
    put_bytes-IsCache =
        let q = drop_ref marked_page in
        let (front, list, distinct, dirty, pages, most, running) = mark_lem in
        let good =
          IsGood-same m contents capacity w p q refl refl refl
            (λ off_now. absurd (true≢false off_now)) (t.good p.disk p.lba p here) in
        let bound = front_bound marked_page q _ _ front marked_lru refl refl in
        let marked = mark_dirty (store_bytes c p off n src) p in
        let there : find_page marked.lru p.disk p.lba ≡ some marked_page =
          rw front (find_page_self marked_page held.others) in
        let list_now =
          Rebound-AreListed marked.lru _ p.disk p.lba q marked.dirty_list bound list
            (rw there refl) in
        record {
          table =
              replaced-IsTable m contents capacity c _ p q w put-IsReplaced t good list_now distinct
                (dirty ∙ ap count_dirty front ∙ sym (ap count_dirty marked_lru));
          idle = subst (All IsIdle) (sym marked_lru) ((rw held.once refl, held.settled), held.idle);
        }
