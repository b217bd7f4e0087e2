-- ===== src/Mem/PageCache/Tests.antt =====
-- A disk in memory, and a cache of one dirty page of it.
use k_os.Prelude.{
  ℕ, ◌+◌, ◌-◌, ◌*◌, ◌≤◌, ◌≡◌, refl, sym, ◌∙◌, Bool, true, false, ◌&&◌, some, [], ◌∷◌, arith, ltb,
  leb, ◌==◌, if◌then◌else◌, lt→ltb, true≢false,
}
use k_os.Prelude.Ints.{ℤ, pos, negsuc}
use k_os.Mem.PageCache.{Page, PCache, Machine, success}
use k_os.Mem.PageCache.Transfer.{pcache_read, pcache_write}
use k_os.Mem.PageCache.Control.{fresh_cache, pcache_flush, pcache_flush_all, pcache_invalidate}
use k_os.Mem.PageCache.Drops.{Dropped, from_to, pcache_invalidate_lem}
use k_os.Mem.PageCache.Keys.{IsUnique, find_page-nil}
use k_os.Mem.PageCache.Dirty.{listed, IsDistinct, AreListed, count_dirty}
use k_os.Mem.PageCache.Table.{Pages, Rebound-Pages, Rebound-listed, cons-Rebound}
use k_os.Mem.PageCache.State.{inside, IsDisk, SameDisks, IsHealthy, Allocates, IsGood, IsCache}
use k_os.Mem.PageCache.Reads.{Answered, pcache_read_lem}
use k_os.Mem.PageCache.Writes.{Stored, pcache_write_lem}
use k_os.Mem.PageCache.Flushes.{OnDisk, pcache_flush_lem}
use k_os.Mem.PageCache.Durable.{Kept, pcache_write-pcache_flush-pcache_read}

-- The bytes of each disk. Sectors have 512 bytes, and a disk has 64 of them.
abbrev World : Type 0
World = ℕ → ℕ → ℕ

abbrev contents : World → ℕ → ℕ → ℕ
contents w = w

abbrev capacity : ℕ → ℕ
capacity d = 64

abbrev has : ℕ → ℕ → Bool
has l n = leb (l + n) 64

abbrev ram : Machine World
ram = record {
  sector_size = λ d. 512;
  can_read = λ d. true;
  can_write = λ d. true;
  can_flush = λ d. false;
  read = λ w d l n buf. (
    w,
    if has l n then pos 0 else negsuc 3,
    λ i. if ltb i (n * 512) then w d (l * 512 + i) else buf i,
  );
  write = λ w d l n buf. (
    λ d' i.
        if has l n
        then (if (d == d') && inside (l * 512) (n * 512) i then buf (i - l * 512) else w d' i)
        else w d' i,
    if has l n then pos 0 else negsuc 3,
  );
  flush = λ w d. w;
  memory_allocate = λ w. (w, true);
  memory_free = λ w. w;
  timer_ticks = λ w. 7;
}

ram-IsHealthy : IsHealthy ram contents capacity
unfolding SameDisks
ram-IsHealthy = record {
  read_code = λ w d l n buf disk fits. rw (le→leb (l + n) 64 fits) refl;
  read_bytes = λ w d l n buf i disk fits lt. rw (lt→ltb i (n * 512) lt) refl;
  read_keeps = λ w d l n buf d' i. refl;
  write_code = λ w d l n buf disk fits. rw (le→leb (l + n) 64 fits) refl;
  write_stores = λ w d l n buf d' i disk fits. rw (le→leb (l + n) 64 fits) refl;
  allocate_keeps = λ w d i. refl;
  free_keeps = λ w d i. refl;
  flush_keeps = λ w e d i. refl;
}
  where
    le→leb : (a b : ℕ) → a ≤ b → leb a b ≡ true
    le→leb a b h = ground arith

ram_allocates : Allocates ram contents capacity
unfolding Allocates
ram_allocates w = refl

ram-IsDisk : (d : ℕ) → (d == 0) ≡ false → IsDisk ram contents capacity d
ram-IsDisk d present = record {
  present = present;
  reads = refl;
  writes = refl;
  whole = refl;
  filled = refl;
  sized = omega arith;
  addressed = omega arith;
}

abbrev empty_cache : PCache
empty_cache = fresh_cache 12 true

abbrev dirty_page : Page
dirty_page = record {
  disk = 1;
  lba = 8;
  sector_count = 8;
  bytes = λ i. 5;
  ref_count = 0;
  valid = true;
  dirty = true;
  writeback = false;
  last_access = 3;
}

abbrev one_page : PCache
one_page = record empty_cache {
  lru = dirty_page ∷ [];
  dirty_list = (1, 8) ∷ [];
  page_count = 1;
  dirty_count = 1;
}

abbrev zeros : World
zeros d i = 0

dirty_page-IsGood : IsGood ram contents capacity zeros dirty_page
dirty_page-IsGood = record {
  disk = ram-IsDisk 1 refl;
  aligned = refl;
  count = refl;
  fits = omega arith;
  clean = λ off. absurd (true≢false off);
}

one_page-IsCache : IsCache ram contents capacity one_page zeros
unfolding IsUnique IsDistinct count_dirty Pages AreListed listed
one_page-IsCache = record {
  table = record {
    unique = (find_page-nil 1 8, tt);
    good =
        Rebound-Pages [] (IsGood ram contents capacity zeros) _ 1 8 dirty_page
          (cons-Rebound [] dirty_page)
          (λ d l p e. absurd (let r = sym (find_page-nil d l) ∙ e in ground arith))
          dirty_page-IsGood;
    counted = refl;
    bounded = omega arith;
    positive = omega arith;
    limit = omega arith;
    are_listed =
        Rebound-listed [] _ 1 8 dirty_page [] (cons-Rebound [] dirty_page)
          (λ d l. rw (find_page-nil d l) refl) refl;
    distinct = (refl, tt);
    dirty_counted = refl;
    on = refl;
  };
  idle = ((refl, refl), tt);
}

-- Sectors 6 to 9, in the page that is cached and in the one before it.
pcache_read_example :
    (r : PCache × World × (ℕ → ℕ) × ℤ) × (pcache_read ram 1 one_page zeros 6 4 (λ i. 9) ≡ some r)
    × Answered ram contents capacity ram-IsHealthy ram_allocates 1
        (ram-IsDisk 1 refl)
        one_page
        zeros
        6
        4
        (λ i. 9)
        r
pcache_read_example =
    pcache_read_lem ram contents capacity ram-IsHealthy ram_allocates 1 (ram-IsDisk 1 refl) one_page
      zeros 6 4 (λ i. 9) one_page-IsCache (omega arith) (omega arith) (omega arith)

pcache_write_example :
    (r : PCache × World × ℤ) × (pcache_write ram 1 one_page zeros 6 4 (λ i. i) ≡ some r)
    × Stored ram contents capacity ram-IsHealthy ram_allocates 1
        (ram-IsDisk 1 refl)
        one_page
        zeros
        6
        4
        (λ i. i)
        r
pcache_write_example =
    pcache_write_lem ram contents capacity ram-IsHealthy ram_allocates 1 (ram-IsDisk 1 refl)
      one_page zeros 6 4 (λ i. i) one_page-IsCache (omega arith) (omega arith) (omega arith)

pcache_flush_example :
    OnDisk ram contents capacity ram-IsHealthy one_page zeros 1 (pcache_flush ram one_page zeros 1)
    × OnDisk ram contents capacity ram-IsHealthy one_page zeros 0
        (pcache_flush_all ram one_page zeros)
pcache_flush_example =
    pcache_flush_lem ram contents capacity ram-IsHealthy one_page zeros 1 one_page-IsCache refl

write_flush_read_example :
    (r : PCache × World × ℤ) × (pcache_write ram 1 one_page zeros 6 4 (λ i. i) ≡ some r)
    × (r.2 ≡ success)
    × Kept ram contents capacity ram-IsHealthy ram_allocates 1
        (ram-IsDisk 1 refl)
        6
        4
        (λ i. i)
        ((pcache_flush ram r.0 r.1 1).0, (pcache_flush ram r.0 r.1 1).1)
write_flush_read_example =
    pcache_write-pcache_flush-pcache_read ram contents capacity ram-IsHealthy ram_allocates 1
      (ram-IsDisk 1 refl) one_page zeros 6 4 (λ i. i) one_page-IsCache (omega arith) (omega arith)
      (omega arith)

-- Sectors 10 and 11 stand in the page that is cached.
invalidate_example :
    (r : PCache × (ℕ → ℕ → ℕ)) × (pcache_invalidate ram one_page zeros 1 10 2 ≡ some r)
    × Dropped ram contents capacity ram-IsHealthy one_page zeros r (from_to 1 8 12)
invalidate_example =
    pcache_invalidate_lem ram contents capacity ram-IsHealthy one_page zeros 1 10 2
      (ram-IsDisk 1 refl) one_page-IsCache (omega arith)
