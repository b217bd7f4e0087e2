-- ===== src/Mem/PageCache/Control.antt =====
-- Kernel/Source/Mem/PageCache.c: flushing, invalidation, a round of the writeback thread, PCacheInit,
-- PCacheShutdown, the size and the statistics.
use k_os.Prelude.{
  ℕ, zero, suc, ◌+◌, ◌*◌, ◌/◌, ◌%◌, ◌^◌, max, Bool, true, false, not, ◌&&◌, ◌||◌, Option, none,
  some, List, [], ◌∷◌, ltb, leb, ◌==◌, if◌then◌else◌,
}
use k_os.Prelude.Ints.{ℤ, pos, negsuc}
use k_os.Mem.PageCache.{
  Page, PCache, Machine, success, no_object, is_success, less_one, find_page, list_unlink, change,
  undirty, write_direct, evict_one, spp,
}

-- What the loops over the dirty list hand on.
pub record Progress (W : Type 0) : Type 0 where
  pub cache : PCache
  pub world : W
  pub flushed : ℕ

abbrev pub clean : Page → Page
clean p = record p { ref_count = 0; dirty = false; writeback = false }

abbrev pub unclaim : Page → Page
unclaim p = record p { ref_count = 0; writeback = false }

-- The cache after the write of a page whose code is SUCCESS.
unfoldable pub page_written : PCache → Page → PCache
page_written c p = record c {
  lru = change c.lru p.disk p.lba clean;
  dirty_list = undirty c.dirty_list p.disk p.lba;
  dirty_count = less_one c.dirty_count;
  writeback_count = (c.writeback_count + 1) % 2 ^ 64;
}

unfoldable pub unwritten : PCache → Page → PCache
unwritten c p = record c { lru = change c.lru p.disk p.lba unclaim }

-- The pages that a flush of `d`, 0 for all disks, passes over.
abbrev pub is_skipped : ℕ → Page → Bool
is_skipped d p = (not (d == 0) && not (p.disk == d)) || (ltb 0 p.ref_count || p.writeback)

abbrev pub not_dirty : PCache → Bool
not_dirty c = c.dirty_count == 0

module _ {W : Type 0} (m : Machine W) where
  unfoldable pub write_page : Progress W → Page → Progress W
  write_page s p =
      let (w', rc) = write_direct m s.world p.disk p.lba p.sector_count p.bytes in
      if is_success rc
      then (record { cache = page_written s.cache p; world = w'; flushed = s.flushed + 1 })
      else record { cache = unwritten s.cache p; world = w'; flushed = s.flushed }

  -- A round of the loop of PCacheFlushInternal. Each key of the dirty list has its page.
  unfoldable pub flush_step : ℕ → Progress W → ℕ × ℕ → Progress W
  flush_step d s k = elim (find_page s.cache.lru k.0 k.1) [
    | none ↦ s
    | some p ↦ if is_skipped d p then s else write_page s p
  ]

  unfoldable pub flush_pass : ℕ → Progress W → List (ℕ × ℕ) → Progress W
  flush_pass d s [] = s
  flush_pass d s (k ∷ ks) = flush_pass d (flush_step d s k) ks

  -- The two passes.
  unfoldable pub flush_passes : PCache → W → ℕ → Progress W
  flush_passes c w d =
      let first = flush_pass d (record { cache = c; world = w; flushed = 0 }) c.dirty_list in
      let second = flush_pass d first first.cache.dirty_list in
      if not_dirty first.cache then first else second

  unfoldable pub flush_internal : PCache → W → ℕ → PCache × W × ℤ
  flush_internal c w d =
      let s = flush_passes c w d in
      if not c.initialized then (c, w, success) else (
        s.cache,
        if not (d == 0) && m.can_flush d then m.flush s.world d else s.world,
        pos s.flushed,
      )

  unfoldable pub pcache_flush : PCache → W → ℕ → PCache × W × ℤ
  pcache_flush c w d = if d == 0 then (c, w, no_object) else flush_internal c w d

  unfoldable pub pcache_flush_all : PCache → W → PCache × W × ℤ
  pcache_flush_all c w = flush_internal c w 0

  -- A round of PCacheWritebackThread between two sleeps.
  unfoldable pub writeback_pass : Progress W → List (ℕ × ℕ) → Progress W
  writeback_pass s [] = s
  writeback_pass s (k ∷ ks) =
      let rest = writeback_pass (flush_step 0 s k) ks in if leb 64 s.flushed then s else rest

  unfoldable pub writeback_round : PCache → W → Progress W
  writeback_round c w = writeback_pass (record { cache = c; world = w; flushed = 0 }) c.dirty_list

  -- A page that is found by an invalidation.
  unfoldable pub discard : PCache → W → Page → PCache × W
  discard c w p =
      if ltb 0 p.ref_count
      then (record c { lru = change c.lru p.disk p.lba (λ q. record q { valid = false }) }, w)
      else (
        record c {
          lru = list_unlink c.lru p.disk p.lba;
          dirty_list = if p.dirty then undirty c.dirty_list p.disk p.lba else c.dirty_list;
          dirty_count = if p.dirty then less_one c.dirty_count else c.dirty_count;
          page_count = less_one c.page_count;
        },
        m.memory_free w,
      )

  unfoldable pub invalidate_at : PCache → W → ℕ → ℕ → PCache × W
  invalidate_at c w d l = elim (find_page c.lru d l) [ none ↦ (c, w) | some p ↦ discard c w p ]

  -- for (Cur = StartPage; Cur < EndLba; Cur += SectorsPerPage), on fuel: `none` where it is used up.
  unfoldable pub invalidate_loop : ℕ → ℕ → ℕ → ℕ → PCache → W → Option (PCache × W)
  invalidate_loop zero d cur end_lba c w = if ltb cur end_lba then none else some (c, w)
  invalidate_loop (suc rounds) d cur end_lba c w =
      let (c', w') = invalidate_at c w d cur in
      let rest = invalidate_loop rounds d ((cur + spp m d) % 2 ^ 64) end_lba c' w' in
      if ltb cur end_lba then rest else some (c, w)

  -- The first page begins less than a page before `l`, so that n + 1 rounds pass the end, where no page wraps
  -- to sector 0: Cur is below EndLba for ever otherwise, and the loop does not end.
  unfoldable pub pcache_invalidate : PCache → W → ℕ → ℕ → ℕ → Option (PCache × W)
  pcache_invalidate c w d l n =
      if (d == 0) || not c.initialized
      then some (c, w)
      else invalidate_loop (n + 1) d (l / spp m d * spp m d) ((l + n) % 2 ^ 64) c w

  unfoldable pub invalidate_pages : ℕ → List Page → PCache → W → PCache × W
  invalidate_pages d [] c w = (c, w)
  invalidate_pages d (p ∷ ps) c w =
      let (c', w') = discard c w p in
      let kept = invalidate_pages d ps c w in
      let gone = invalidate_pages d ps c' w' in if not (p.disk == d) then kept else gone

  unfoldable pub pcache_invalidate_disk : PCache → W → ℕ → PCache × W
  pcache_invalidate_disk c w d =
      if (d == 0) || not c.initialized then (c, w) else invalidate_pages d c.lru c w

  abbrev pub free_all_pages : List Page → W → W
  free_all_pages [] w = w
  free_all_pages (p ∷ ps) w = free_all_pages ps (m.memory_free w)

  -- The dirty list is left as it is.
  unfoldable pub pcache_shutdown : PCache → W → PCache × W
  pcache_shutdown c w =
      let (c', w', rc) = pcache_flush_all (record c { writeback_running = false }) w in
      if not c.initialized then (c, w) else (
        record c' { lru = []; page_count = 0; dirty_count = 0; initialized = false },
        free_all_pages c'.lru w',
      )

  -- while (PageCount > MaxPages) if (!PCacheEvictOne()) break;
  unfoldable pub shrink_loop : ℕ → ℕ → PCache → W → PCache × W
  shrink_loop zero max c w = (c, w)
  shrink_loop (suc rounds) max c w =
      let (c', w', evicted) = evict_one m c w in
      let rest = shrink_loop rounds max c' w' in
      if ltb max c.page_count then (if evicted then rest else (c', w')) else (c, w)

  -- PCACHE_MIN_PAGES is 64. Each round takes a page out or is the last.
  unfoldable pub set_size : PCache → W → ℕ → PCache × W
  set_size c w max =
      let wanted = if ltb max 64 then 64 else max in
      shrink_loop c.page_count wanted (record c { max_pages = wanted }) w

abbrev pub default_pages : ℕ
default_pages = 16 * 1024

abbrev pub fresh_cache : ℕ → Bool → PCache
fresh_cache pid running = record {
  lru = [];
  dirty_list = [];
  page_count = 0;
  max_pages = default_pages;
  dirty_count = 0;
  hit_count = 0;
  miss_count = 0;
  evict_count = 0;
  writeback_count = 0;
  read_count = 0;
  write_count = 0;
  writeback_running = running;
  initialized = true;
  writeback_pid = pid;
}

-- The second argument is what TaskCreate answers.
unfoldable pub pcache_init : PCache → ℤ → PCache
pcache_init c (pos pid) = if c.initialized then c else fresh_cache pid true
pcache_init c (negsuc n) = if c.initialized then c else fresh_cache 0 false

abbrev pub get_size : PCache → ℕ
get_size c = c.max_pages

pub record Stats : Type 0 where
  pub pages : ℕ
  pub dirty : ℕ
  pub max : ℕ
  pub hits : ℕ
  pub misses : ℕ
  pub evicts : ℕ
  pub writebacks : ℕ

unfoldable pub get_stats : PCache → Stats
get_stats c = record {
  pages = c.page_count;
  dirty = c.dirty_count;
  max = c.max_pages;
  hits = c.hit_count;
  misses = c.miss_count;
  evicts = c.evict_count;
  writebacks = c.writeback_count;
}

unfoldable pub reset_stats : PCache → PCache
reset_stats c = record c {
  hit_count = 0;
  miss_count = 0;
  evict_count = 0;
  writeback_count = 0;
  read_count = 0;
  write_count = 0;
}
