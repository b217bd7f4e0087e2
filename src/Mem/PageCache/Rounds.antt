-- ===== src/Mem/PageCache/Rounds.antt =====
-- Kernel/Source/Mem/PageCache.c: PCacheInit, the rounds of the writeback thread, PCacheShutdown.
use k_os.Prelude.{
  ℕ, ◌+◌, ◌*◌, ◌/◌, ◌≤◌, ◌≡◌, refl, sym, ◌∙◌, inl, inr, Bool, true, false, not, ◌||◌, List, [], ◌∷◌,
  arith, leb, if◌then◌else◌, leb→lt, true≢false, Option-cases, either-branch, in_branch,
}
use k_os.Prelude.Ints.{ℤ, pos, negsuc}
use k_os.Mem.PageCache.{Page, PCache, Machine, is_success, write_direct, find_page, page_size, spp}
use k_os.Mem.PageCache.Control.{
  Progress, fresh_cache, is_skipped, write_page, flush_step, writeback_pass, writeback_round,
  pcache_init, pcache_flush_all, free_all_pages, pcache_shutdown,
}
use k_os.Mem.PageCache.Keys.{IsUnique, find_page-nil, same_key_refl}
use k_os.Mem.PageCache.Dirty.{listed, IsDistinct, AreListed, count_dirty}
use k_os.Mem.PageCache.Table.{Pages}
use k_os.Mem.PageCache.State.{IsDisk, SameDisks, IsHealthy, IsCache, byte_of, logical, SameView}
use k_os.Mem.PageCache.Cleans.{Flushed, flush_step_lem}
use k_os.Mem.PageCache.Flushes.{apart, flush_internal_lem}
use k_os.Mem.PageCache.Held.{IsCache-same}

module _ {W : Type 0} (m : Machine W) (contents : W → ℕ → ℕ → ℕ) (capacity : ℕ → ℕ) where
  -- An empty cache shows what the disks have.
  abbrev pub ShowsDisks : PCache → W → Type 0
  ShowsDisks c w =
      IsCache m contents capacity c w
      × ((e i : ℕ) → logical m contents capacity c w e i ≡ contents w e i)

  empty_lem : (pid : ℕ) (running : Bool) (w : W) → ShowsDisks (fresh_cache pid running) w
  unfolding IsUnique IsDistinct count_dirty Pages AreListed listed logical byte_of
  empty_lem pid running w = (
    record {
      table = record {
        unique = tt;
        good = λ d l p e. absurd (let r = sym (find_page-nil d l) ∙ e in ground arith);
        counted = refl;
        bounded = omega arith;
        positive = omega arith;
        limit = omega arith;
        are_listed = λ d l. rw (find_page-nil d l) refl;
        distinct = tt;
        dirty_counted = refl;
        on = refl;
      };
      idle = tt;
    },
    λ e i. rw (find_page-nil e (i / page_size * spp m e)) refl,
  )

  pub pcache_init_lem :
      (c : PCache) (pid : ℤ) (w : W) → c.initialized ≡ false → ShowsDisks (pcache_init c pid) w
  unfolding pcache_init
  pcache_init_lem c (pos pid) w off = rw off (empty_lem pid true w)
  pcache_init_lem c (negsuc n) w off = rw off (empty_lem 0 false w)

  module _ (healthy : IsHealthy m contents capacity) where
    -- What a round comes to: the same bytes are to be seen, and no page becomes dirty.
    unfoldable pub Settled : Progress W → Progress W → Type 0
    Settled s s' =
        IsCache m contents capacity s'.cache s'.world
        × SameView m contents capacity s.cache s.world s'.cache s'.world
        × ((e l : ℕ) → listed s'.cache.dirty_list e l ≡ true → listed s.cache.dirty_list e l ≡ true)

    writeback_pass_lem :
        (ks : List (ℕ × ℕ)) (s : Progress W)
        → IsCache m contents capacity s.cache s.world
        → IsDistinct ks
        → ((e l : ℕ) → listed ks e l ≡ true → listed s.cache.dirty_list e l ≡ true)
        → Settled s (writeback_pass m s ks)
    unfolding writeback_pass Settled SameView Flushed listed IsDistinct
    writeback_pass_lem [] s h distinct on = (h, (λ e i disk. refl), λ e l y. y)
    writeback_pass_lem ((e, l) ∷ ks) s h distinct on =
        let (h1, view1, list1) =
          flush_step_lem m contents capacity healthy 0 s e l h
            (on e l (rw (same_key_refl e l) refl)) in
        let (h2, view2, list2) =
          writeback_pass_lem ks (flush_step m 0 s (e, l)) h1 distinct.1 (λ e' l' in_rest.
            list1 e' l'
            ∙ rw (apart e l e' l' ks distinct.0 in_rest) (on e' l' (rw in_rest (either _)))) in
        either-branch (Settled s) (leb 64 s.flushed) s
          (writeback_pass m (flush_step m 0 s (e, l)) ks) (h, (λ e i disk. refl), λ e l y. y)
          (
            h2,
            (λ e' i disk. view2 e' i disk ∙ view1 e' i disk),
            λ e' l' y. fewer _ _ (sym (list1 e' l') ∙ list2 e' l' y),
          )
      where
        either : (s : Bool) → (s || true) ≡ true
        either s = ground arith

        fewer : (b on : Bool) → (if b then false else on) ≡ true → on ≡ true
        fewer b on h = ground arith

    step_flushed : (s : Progress W) (k : ℕ × ℕ) → (flush_step m 0 s k).flushed ≤ s.flushed + 1
    unfolding flush_step write_page
    step_flushed s k = elim (Option-cases (find_page s.cache.lru k.0 k.1)) [
      | inl absent ↦ rw (flush_step, absent) (omega arith)
      | inr (p, found) ↦
          rw (flush_step, found)
            (in_branch (λ (s' : Progress W). s'.flushed ≤ s.flushed + 1) (is_skipped 0 p) _ _
              (λ _. omega arith)
              (λ _.
                in_branch (λ (s' : Progress W). s'.flushed ≤ s.flushed + 1)
                  (is_success (write_direct m s.world p.disk p.lba p.sector_count p.bytes).1) _ _
                  (λ _. omega arith) (λ _. omega arith)))
    ]

    pass_flushed :
        (ks : List (ℕ × ℕ)) (s : Progress W) → s.flushed ≤ 64 → (writeback_pass m s ks).flushed ≤ 64
    unfolding writeback_pass
    pass_flushed [] s le = le
    pass_flushed (k ∷ ks) s le =
        in_branch (λ (s' : Progress W). s'.flushed ≤ 64) (leb 64 s.flushed) s
          (writeback_pass m (flush_step m 0 s k) ks) (λ _. le)
          (λ n.
            let lt = leb→lt 64 s.flushed n in
            let one = step_flushed s k in
            pass_flushed ks (flush_step m 0 s k) (omega (arith, lt, one)))

    -- A round of the writeback thread writes 64 pages at most; the same bytes are to be seen,
    -- no page becomes dirty, and the cache stays well-formed with no page referenced, as it is
    -- at the start, provided that reads and writes succeed.
    pub writeback_round_lem :
        (c : PCache) (w : W)
        → IsCache m contents capacity c w
        → Settled (record { cache = c; world = w; flushed = 0 }) (writeback_round m c w)
          × ((writeback_round m c w).flushed ≤ 64)
    unfolding writeback_round
    writeback_round_lem c w h = (
      writeback_pass_lem c.dirty_list _ h h.table.distinct (λ e l y. y),
      pass_flushed c.dirty_list _ (omega arith),
    )

    free_all_keeps :
        (ps : List Page) (w : W) (e i : ℕ) → contents (free_all_pages m ps w) e i ≡ contents w e i
    unfolding SameDisks
    free_all_keeps [] w e i = refl
    free_all_keeps (p ∷ ps) w e i =
        free_all_keeps ps (m.memory_free w) e i ∙ healthy.free_keeps w e i

    same : (w : W) → SameDisks m contents capacity w w
    unfolding SameDisks
    same w e i = refl

    -- After PCacheShutdown of a well-formed cache with no page referenced it has no pages and
    -- is not initialised, and each disk holds what was to be seen of it, provided that reads
    -- and writes succeed.
    pub pcache_shutdown_lem :
        (c : PCache) (w : W)
        → IsCache m contents capacity c w
        → ((pcache_shutdown m c w).0.lru ≡ [])
          × ((pcache_shutdown m c w).0.initialized ≡ false)
          × ((e i : ℕ)
              → IsDisk m contents capacity e
              → contents (pcache_shutdown m c w).1 e i ≡ logical m contents capacity c w e i)
    unfolding pcache_shutdown pcache_flush_all logical
    pcache_shutdown_lem c w h =
        let c0 = record c { writeback_running = false } in
        let h0 : IsCache m contents capacity c0 w =
          IsCache-same m contents capacity c c0 w w refl refl refl refl refl refl (same w) h in
        let (_, _, on_disk) = flush_internal_lem m contents capacity healthy c0 w 0 h0 in
        in_branch
          (λ (r : PCache × W).
            (r.0.lru ≡ [])
            × (r.0.initialized ≡ false)
            × ((e i : ℕ)
                → IsDisk m contents capacity e
                → contents r.1 e i ≡ logical m contents capacity c w e i))
          (not c.initialized) _ _ (λ y. absurd (true≢false (sym y ∙ rw h.table.on refl)))
          (λ _. (
            refl,
            refl,
            λ e i disk.
                free_all_keeps (pcache_flush_all m c0 w).0.lru _ e i ∙ on_disk e i disk refl,
          ))
