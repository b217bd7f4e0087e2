-- ===== src/Mem/PageCache/Flushes.antt =====
-- Kernel/Source/Mem/PageCache.c: PCacheFlush and PCacheFlushAll bring what is to be seen to the disks.
use k_os.Prelude.{
  ℕ, ◌*◌, ◌/◌, ◌≡◌, refl, sym, subst, ◌∙◌, inl, inr, Bool, true, false, not, ◌&&◌, ◌||◌, List, [],
  ◌∷◌, arith, ◌==◌, if◌then◌else◌, true≢false, Bool-cases, Option-cases, either-branch, in_branch,
}
use k_os.Prelude.Ints.{ℤ, pos}
use k_os.Mem.PageCache.{PCache, Machine, page_size, same_key, find_page, spp}
use k_os.Mem.PageCache.Control.{
  Progress, not_dirty, flush_step, flush_pass, flush_passes, flush_internal, pcache_flush,
  pcache_flush_all,
}
use k_os.Mem.PageCache.Keys.{same_key→eq, at_same_key, same_key_refl, find_page-key}
use k_os.Mem.PageCache.Dirty.{listed, AreListed, IsDistinct}
use k_os.Mem.PageCache.Table.{Pages}
use k_os.Mem.PageCache.State.{
  IsDisk, SameDisks, IsHealthy, IsTable, IsCache, byte_of, logical, SameView, SameDisks-IsTable,
  SameDisks-SameView,
}
use k_os.Mem.PageCache.Disk.{clean_bytes}
use k_os.Mem.PageCache.Cleans.{selected, Flushed, flush_step_lem}

nil_case : (s on : Bool) → on ≡ (if s && false then false else on)
nil_case s on = ground arith

taken_off :
    (d e l e' l' : ℕ) (ks : List (ℕ × ℕ)) (on : Bool)
    → (if selected d e' && listed ks e' l'
        then false
        else (if selected d e && same_key e l e' l' then false else on))
      ≡ (if selected d e' && (same_key e l e' l' || listed ks e' l') then false else on)
taken_off d e l e' l' ks on = elim (Bool-cases (same_key e l e' l')) [
  | inl y ↦
      let (a, b) = same_key→eq e l e' l' y in
      rw (y, a) (both_ways (selected d e') (listed ks e' l') on)
  | inr n ↦ rw n (away (selected d e') (selected d e) (listed ks e' l') on)
]
  where
    both_ways :
        (s t on : Bool)
        → (if s && t then false else (if s && true then false else on))
          ≡ (if s && (true || t) then false else on)
    both_ways s t on = ground arith

    away :
        (s r t on : Bool)
        → (if s && t then false else (if r && false then false else on))
          ≡ (if s && (false || t) then false else on)
    away s r t on = ground arith

-- A key behind another one on a list without repetitions is another key.
pub apart :
    (e l e' l' : ℕ) (ks : List (ℕ × ℕ))
    → listed ks e l ≡ false
    → listed ks e' l' ≡ true
    → same_key e l e' l' ≡ false
apart e l e' l' ks off on = elim (Bool-cases (same_key e l e' l')) [
  | inl y ↦
      absurd (true≢false (sym on ∙ at_same_key (λ x z. listed ks x z ≡ false) e l e' l' y off))
  | inr n ↦ n
]

other : (s : Bool) → (s && false) ≡ false
other s = ground arith

either : (s : Bool) → (s || true) ≡ true
either s = ground arith

module _ {W : Type 0} (m : Machine W) (contents : W → ℕ → ℕ → ℕ) (capacity : ℕ → ℕ)
    (healthy : IsHealthy m contents capacity) where
  -- A pass over keys that are listed takes off those that are selected.
  flush_pass_lem :
      (d : ℕ) (ks : List (ℕ × ℕ)) (s : Progress W)
      → IsCache m contents capacity s.cache s.world
      → IsDistinct ks
      → ((e l : ℕ) → listed ks e l ≡ true → listed s.cache.dirty_list e l ≡ true)
      → Flushed m contents capacity healthy s
          (flush_pass m d s ks)
          (λ e l. selected d e && listed ks e l)
  unfolding flush_pass Flushed SameView listed IsDistinct
  flush_pass_lem d [] s h distinct on =
      (h, (λ e i is_disk. refl), λ e l. nil_case (selected d e) (listed s.cache.dirty_list e l))
  flush_pass_lem d ((e, l) ∷ ks) s h distinct on =
      let (h1, view1, list1) =
        flush_step_lem m contents capacity healthy d s e l h
          (on e l (rw (same_key_refl e l) refl)) in
      let (h2, view2, list2) =
        flush_pass_lem d ks (flush_step m d s (e, l)) h1 distinct.1 (λ e' l' in_rest.
          list1 e' l'
          ∙ rw (apart e l e' l' ks distinct.0 in_rest, other (selected d e))
              (on e' l' (rw in_rest (either _)))) in
      (
        h2,
        (λ e' i is_disk. view2 e' i is_disk ∙ view1 e' i is_disk),
        λ e' l'.
            list2 e' l'
            ∙ rw (list1 e' l') (taken_off d e l e' l' ks (listed s.cache.dirty_list e' l')),
      )

  -- Nothing of the selected disks is dirty after the two passes.
  AllWritten : PCache → W → ℕ → Progress W → Type 0
  AllWritten c w d s =
      IsCache m contents capacity s.cache s.world
      × SameView m contents capacity c w s.cache s.world
      × ((e l : ℕ) → selected d e ≡ true → listed s.cache.dirty_list e l ≡ false)

  flush_passes_lem :
      (c : PCache) (w : W) (d : ℕ)
      → IsCache m contents capacity c w
      → AllWritten c w d (flush_passes m c w d)
  unfolding flush_passes AllWritten Flushed SameView
  flush_passes_lem c w d h =
      let s : Progress W = record { cache = c; world = w; flushed = 0 } in
      let (h1, view1, list1) = flush_pass_lem d c.dirty_list s h h.table.distinct (λ e l on. on) in
      let s1 = flush_pass m d s c.dirty_list in
      let (h2, view2, list2) =
        flush_pass_lem d s1.cache.dirty_list s1 h1 h1.table.distinct (λ e l on. on) in
      let off1 : (e l : ℕ) → selected d e ≡ true → listed s1.cache.dirty_list e l ≡ false =
        λ e l sel. list1 e l ∙ rw sel (none_left (listed c.dirty_list e l)) in
      either-branch (AllWritten c w d) (not_dirty s1.cache) s1
        (flush_pass m d s1 s1.cache.dirty_list) (h1, view1, off1)
        (
          h2,
          (λ e i is_disk. view2 e i is_disk ∙ view1 e i is_disk),
          λ e l sel. list2 e l ∙ rw (off1 e l sel) (still_off (selected d e && false)),
        )
    where
      none_left : (on : Bool) → (if true && on then false else on) ≡ false
      none_left on = ground arith

      still_off : (b : Bool) → (if b then false else false) ≡ false
      still_off b = ground arith

  -- A disk without dirty pages holds what is to be seen of it.
  clean_disk :
      (c : PCache) (w : W) (e i : ℕ)
      → IsTable m contents capacity c w
      → ((l : ℕ) → listed c.dirty_list e l ≡ false)
      → contents w e i ≡ logical m contents capacity c w e i
  unfolding logical byte_of Pages AreListed
  clean_disk c w e i t off =
      let l = i / page_size * spp m e in
      elim (Option-cases (find_page c.lru e l)) [
        | inl absent ↦ rw absent refl
        | inr (p, found) ↦
            let clean : p.dirty ≡ false = sym (t.are_listed e l ∙ rw found refl) ∙ off l in
            let (a, b) = find_page-key c.lru e l p found in
            let here : same_key p.disk p.lba e l ≡ true = rw (a, b) (same_key_refl e l) in
            rw found
              (clean_bytes m contents capacity w p e i (t.good e l p found) clean ∙ rw here refl)
      ]

  -- What a flush of `d`, 0 for all disks, comes to: the disks hold what was to be seen.
  abbrev pub OnDisk : PCache → W → ℕ → PCache × W × ℤ → Type 0
  OnDisk c w d (c', w', rc) =
      IsCache m contents capacity c' w'
      × SameView m contents capacity c w c' w'
      × ((e i : ℕ)
          → IsDisk m contents capacity e
          → ((d == 0) || (e == d)) ≡ true
          → contents w' e i ≡ logical m contents capacity c w e i)

  on_disk :
      (c : PCache) (w : W) (d : ℕ) (s : Progress W) (w' : W) (rc : ℤ)
      → AllWritten c w d s
      → SameDisks m contents capacity s.world w'
      → OnDisk c w d (s.cache, w', rc)
  unfolding AllWritten SameView SameDisks
  on_disk c w d s w' rc (h, view, off) same =
      let t = SameDisks-IsTable m contents capacity s.cache s.world w' same h.table in
      let seen = SameDisks-SameView m contents capacity s.cache s.world w' same in
      (
        record { table = t; idle = h.idle },
        (λ e i is_disk. seen e i is_disk ∙ view e i is_disk),
        λ e i is_disk sel.
            clean_disk s.cache w' e i t (λ l. off e l sel) ∙ seen e i is_disk ∙ view e i is_disk,
      )

  pub flush_internal_lem :
      (c : PCache) (w : W) (d : ℕ)
      → IsCache m contents capacity c w
      → OnDisk c w d (flush_internal m c w d)
  unfolding flush_internal SameDisks
  flush_internal_lem c w d h =
      let s = flush_passes m c w d in
      let all = flush_passes_lem c w d h in
      in_branch (OnDisk c w d) (not c.initialized) _ _
        (λ y. absurd (true≢false (sym y ∙ rw h.table.on refl)))
        (λ _.
          in_branch (λ w'. OnDisk c w d (s.cache, w', pos s.flushed))
            (not (d == 0) && m.can_flush d) (m.flush s.world d) s.world
            (λ _.
              on_disk c w d s (m.flush s.world d) (pos s.flushed) all
                (healthy.flush_keeps s.world d))
            (λ _. on_disk c w d s s.world (pos s.flushed) all (λ e i. refl)))

  -- After PCacheFlush a disk, and after PCacheFlushAll every disk, holds what was to be seen of
  -- it, and the cache shows the same bytes still, for a well-formed cache in which no page is
  -- referenced and disks whose reads and writes succeed.
  pub pcache_flush_lem :
      (c : PCache) (w : W) (d : ℕ)
      → IsCache m contents capacity c w
      → (d == 0) ≡ false
      → OnDisk c w d (pcache_flush m c w d) × OnDisk c w 0 (pcache_flush_all m c w)
  unfolding pcache_flush pcache_flush_all
  pcache_flush_lem c w d h present =
      let flushes : pcache_flush m c w d ≡ flush_internal m c w d = rw present refl in
      (subst (OnDisk c w d) (sym flushes) (flush_internal_lem c w d h), flush_internal_lem c w 0 h)
