-- ===== src/Mem/PageCache/Ensure.antt =====
-- Kernel/Source/Mem/PageCache.c: which page goes when the cache is full, and PCacheEnsureRoom.
use k_os.Prelude.{
  ℕ, suc, ◌+◌, ◌-◌, ◌*◌, ◌<◌, max, ◌≡◌, refl, sym, ap, subst, ◌∙◌, ◌⊎◌, inl, inr, true, false, none,
  some, List, ◌∷◌, ◌++◌, arith, ltb, ltb→lt, ltb→le, lt→ltb, le→ltb, ne→==, Bool-cases, length, All,
}
use k_os.Prelude.Ints.{ℤ}
use k_os.Mem.PageCache.{
  Page, PCache, Machine, success, is_success, find_page, list_unlink, find_victim, evict, evict_one,
  room_loop, ensure_room,
}
use k_os.Mem.PageCache.Keys.{IsUnique, find_page-list_unlink-none, length-list_unlink}
use k_os.Mem.PageCache.Victim.{
  is_busy, IsBusy, IsIdle, All-list_unlink, find_page-middle, list_unlink-middle, nothing_free,
  chosen, find_victim-Choice, idle_victim,
}
use k_os.Mem.PageCache.State.{IsHealthy, IsTable, IsCache, SameView}
use k_os.Mem.PageCache.Room.{Evicted, evict_lem}

module _ {W : Type 0} (m : Machine W) (contents : W → ℕ → ℕ → ℕ) (capacity : ℕ → ℕ)
    (healthy : IsHealthy m contents capacity) where
  -- Nothing is free, and nothing happens.
  abbrev pub Refused : PCache → W → Type 0
  Refused c w = All IsBusy c.lru × (evict_one m c w ≡ (c, w, false))

  -- A page goes that is not busy, those that are older are all busy, and the bytes of the disks show as before.
  abbrev pub OldestGone : PCache → W → Type 0
  OldestGone c w =
      (newer : List Page) × (v : Page) × (older : List Page) × (c.lru ≡ newer ++ (v ∷ older))
      × All IsBusy older
      × (is_busy v ≡ false)
      × ((evict_one m c w).2 ≡ true)
      × ((evict_one m c w).0.lru ≡ newer ++ older)
      × IsTable m contents capacity (evict_one m c w).0 (evict_one m c w).1
      × SameView m contents capacity c w (evict_one m c w).0 (evict_one m c w).1

  evict_one-none : (c : PCache) (w : W) → find_victim c ≡ none → evict_one m c w ≡ (c, w, false)
  unfolding evict_one
  evict_one-none c w e = rw (evict_one, e) refl

  evict_one-some :
      (c : PCache) (w : W) (v : Page)
      → find_victim c ≡ some v
      → evict_one m c w ≡ ((evict m c w v).0, (evict m c w v).1, true)
  unfolding evict_one
  evict_one-some c w v e = rw (evict_one, e) refl

  -- PCacheEvictOne takes out a page that is neither referenced nor being page_written, where all that
  -- are used less recently are, keeps the order of the others, and the disks show the same bytes,
  -- provided that writes succeed; or every page is busy, and it answers FALSE and changes
  -- nothing.
  pub evict_one_lem :
      (c : PCache) (w : W) → IsTable m contents capacity c w → Refused c w ⊎ OldestGone c w
  unfolding Evicted
  evict_one_lem c w t = elim (find_victim-Choice c t.counted) [
    | nothing_free all_busy none_found ↦ inl (all_busy, evict_one-none c w none_found)
    | chosen newer v older split busy_older idle found ↦
        let u : IsUnique (newer ++ (v ∷ older)) = subst IsUnique split t.unique in
        let here =
          subst (λ ps. find_page ps v.disk v.lba ≡ some v) (sym split)
            (find_page-middle newer v older u) in
        let (table, view, gone, _) = evict_lem m contents capacity healthy c w v t here in
        let taken : list_unlink c.lru v.disk v.lba ≡ newer ++ older =
          ap (λ ps. list_unlink ps v.disk v.lba) split ∙ list_unlink-middle newer v older u in
        let r = evict_one-some c w v found in
        inr (
          newer,
          v,
          older,
          split,
          busy_older,
          idle,
          rw r refl,
          rw r (gone ∙ taken),
          rw r table,
          rw r view,
        )
  ]

  -- The state after PCacheEnsureRoom.
  unfoldable pub HasRoom : PCache → W → PCache × W × ℤ → Type 0
  HasRoom c w r =
      (is_success r.2 ≡ true)
      × IsCache m contents capacity r.0 r.1
      × SameView m contents capacity c w r.0 r.1
      × (r.0.page_count < r.0.max_pages)
      × ((d l : ℕ) → find_page c.lru d l ≡ none → find_page r.0.lru d l ≡ none)

  evict_idle :
      (c : PCache) (w : W)
      → IsCache m contents capacity c w
      → 0 < c.page_count
      → (v : Page) × (evict_one m c w ≡ ((evict m c w v).0, (evict m c w v).1, true))
        × Evicted m contents capacity c w v (evict m c w v)
        × (find_page c.lru v.disk v.lba ≡ some v)
  evict_idle c w h some_page = elim (find_victim-Choice c h.table.counted) [
    | nothing_free all_busy none_found ↦
        absurd (idle_victim c h.table.counted h.idle some_page none_found)
    | chosen newer v older split _ _ found ↦
        let u : IsUnique (newer ++ (v ∷ older)) = subst IsUnique split h.table.unique in
        let here =
          subst (λ ps. find_page ps v.disk v.lba ≡ some v) (sym split)
            (find_page-middle newer v older u) in
        (
          v,
          evict_one-some c w v found,
          evict_lem m contents capacity healthy c w v h.table here,
          here,
        )
  ]

  has_room_at_once :
      (n : ℕ) (c : PCache) (w : W)
      → c.page_count < c.max_pages
      → room_loop m (suc n) c w ≡ (c, w, success)
  unfolding room_loop
  has_room_at_once n c w lt = rw (lt→ltb c.page_count c.max_pages lt) refl

  room_after_one :
      (n : ℕ) (c : PCache) (w : W)
      → IsCache m contents capacity c w
      → c.page_count ≡ c.max_pages
      → HasRoom c w (room_loop m (suc (suc n)) c w)
  unfolding room_loop HasRoom Evicted
  room_after_one n c w h full =
      let (v, gone, (table, view, lru, max), found) =
        evict_idle c w h (omega (arith, h.table.positive, full)) in
      let e = evict m c w v in
      let shorter = length-list_unlink v.disk v.lba c.lru v found in
      let fewer : e.0.page_count < e.0.max_pages = omega (
        arith,
        table.counted,
        ap length lru,
        shorter,
        max,
        h.table.counted,
        h.table.bounded,
        full,
      ) in
      let idle : All IsIdle e.0.lru =
        subst (All IsIdle) (sym lru) (All-list_unlink IsIdle c.lru v.disk v.lba h.idle) in
      rw (le→ltb c.page_count c.max_pages (omega (arith, full)), gone, lt→ltb _ _ fewer)
        (
          refl,
          record { table = table; idle = idle },
          view,
          fewer,
          λ d l absent.
              subst (λ ps. find_page ps d l ≡ none) (sym lru)
                (find_page-list_unlink-none v.disk v.lba c.lru d l absent),
        )

  room_kept :
      (c : PCache) (w : W)
      → IsCache m contents capacity c w
      → c.page_count < c.max_pages
      → HasRoom c w (c, w, success)
  unfolding HasRoom SameView
  room_kept c w h lt = (refl, h, (λ d i disk. refl), lt, λ d l e. e)

  pub ensure_room_lem :
      (c : PCache) (w : W) → IsCache m contents capacity c w → HasRoom c w (ensure_room m c w)
  unfolding ensure_room
  ensure_room_lem c w h =
      let ne = ne→== c.max_pages 0 (λ z. absurd (omega (arith, h.table.positive, z))) in
      let rounds : c.max_pages * 2 + 1 ≡ suc (suc (c.max_pages * 2 - 1)) =
        omega (arith, h.table.positive) in
      rw (ne, rounds)
        (elim (Bool-cases (ltb c.page_count c.max_pages)) [
          | inl y ↦ at_once c w h (suc (c.max_pages * 2 - 1)) (ltb→lt _ _ y)
          | inr n ↦
              room_after_one (c.max_pages * 2 - 1) c w h
                (let le = ltb→le _ _ n in omega (arith, le, h.table.bounded))
        ])
    where
      at_once :
          (c : PCache) (w : W)
          → IsCache m contents capacity c w
          → (n : ℕ) → c.page_count < c.max_pages
          → HasRoom c w (room_loop m (suc n) c w)
      at_once c w h n lt =
          subst (HasRoom c w) (sym (has_room_at_once n c w lt)) (room_kept c w h lt)
