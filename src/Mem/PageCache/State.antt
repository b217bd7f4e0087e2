-- ===== src/Mem/PageCache/State.antt =====
-- Kernel/Source/Mem/PageCache.c: a well-formed cache, the bytes of a disk as the cache shows them, and what
-- the code relies on in the disk's driver and in the heap.
use k_os.Prelude.{
  ℕ, ◌+◌, ◌-◌, ◌*◌, ◌/◌, ◌%◌, ◌^◌, ◌≤◌, ◌<◌, max, ◌≡◌, refl, sym, ap, subst, ◌∙◌, Bool, true, false,
  ◌&&◌, Option, none, some, arith, ltb, leb, ◌==◌, if◌then◌else◌, length, All,
}
use k_os.Mem.PageCache.{Page, PCache, Machine, is_success, page_size, find_page, spp}
use k_os.Mem.PageCache.Keys.{IsUnique}
use k_os.Mem.PageCache.Dirty.{IsDistinct, count_dirty, AreListed}
use k_os.Mem.PageCache.Victim.{IsIdle}
use k_os.Mem.PageCache.Table.{Pages}

abbrev pub inside : ℕ → ℕ → ℕ → Bool
inside start n i = leb start i && ltb i (start + n)

-- `contents w d i` is byte i of disk d, and `capacity d` its number of sectors.
module _ {W : Type 0} (m : Machine W) (contents : W → ℕ → ℕ → ℕ) (capacity : ℕ → ℕ) where
  -- A disk whose sectors fill pages, with no offset beyond 64 bits.
  pub record IsDisk (d : ℕ) : Type 0 where
    pub present : (d == 0) ≡ false
    pub reads : m.can_read d ≡ true
    pub writes : m.can_write d ≡ true
    pub whole : spp m d * m.sector_size d ≡ page_size
    pub filled : capacity d ≡ capacity d / spp m d * spp m d
    pub sized : 0 < m.sector_size d
    pub addressed : capacity d * m.sector_size d < 2 ^ 64

  unfoldable pub SameDisks : W → W → Type 0
  SameDisks w w' = (d i : ℕ) → contents w' d i ≡ contents w d i

  -- Reads and writes of sectors that the disk has succeed, answer what is stored and store what is given;
  -- the heap keeps the disks.
  pub record IsHealthy : Type 0 where
    pub read_code :
        (w : W) (d l n : ℕ) (buf : ℕ → ℕ)
        → IsDisk d
        → l + n ≤ capacity d
        → is_success (m.read w d l n buf).1 ≡ true
    pub read_bytes :
        (w : W) (d l n : ℕ) (buf : ℕ → ℕ) (i : ℕ)
        → IsDisk d
        → l + n ≤ capacity d
        → i < n * m.sector_size d
        → (m.read w d l n buf).2 i ≡ contents w d (l * m.sector_size d + i)
    pub read_keeps : (w : W) (d l n : ℕ) (buf : ℕ → ℕ) → SameDisks w (m.read w d l n buf).0
    pub write_code :
        (w : W) (d l n : ℕ) (buf : ℕ → ℕ)
        → IsDisk d
        → l + n ≤ capacity d
        → is_success (m.write w d l n buf).1 ≡ true
    pub write_stores :
        (w : W) (d l n : ℕ) (buf : ℕ → ℕ) (d' i : ℕ)
        → IsDisk d
        → l + n ≤ capacity d
        → contents (m.write w d l n buf).0 d' i ≡ (
            if (d == d') && inside (l * m.sector_size d) (n * m.sector_size d) i
            then buf (i - l * m.sector_size d)
            else contents w d' i)
    pub allocate_keeps : (w : W) → SameDisks w (m.memory_allocate w).0
    pub free_keeps : (w : W) → SameDisks w (m.memory_free w)
    pub flush_keeps : (w : W) (d : ℕ) → SameDisks w (m.flush w d)

  -- MemoryAllocate never fails.
  unfoldable pub Allocates : Type 0
  Allocates = (w : W) → (m.memory_allocate w).1 ≡ true

  -- A page stands on a boundary of pages within its disk, and one that is not dirty holds what is stored.
  pub record IsGood (w : W) (p : Page) : Type 0 where
    pub disk : IsDisk p.disk
    pub aligned : p.lba ≡ p.lba / spp m p.disk * spp m p.disk
    pub count : p.sector_count ≡ spp m p.disk
    pub fits : p.lba + spp m p.disk ≤ capacity p.disk
    pub clean :
        p.dirty ≡ false
        → (i : ℕ) → i < page_size
        → p.bytes i ≡ contents w p.disk (p.lba * m.sector_size p.disk + i)

  pub record IsTable (c : PCache) (w : W) : Type 0 where
    pub unique : IsUnique c.lru
    pub good : Pages (IsGood w) c.lru
    pub counted : c.page_count ≡ length c.lru
    pub bounded : c.page_count ≤ c.max_pages
    pub positive : 0 < c.max_pages
    pub limit : c.max_pages < 2 ^ 30
    pub are_listed : AreListed c.lru c.dirty_list
    pub distinct : IsDistinct c.dirty_list
    pub dirty_counted : c.dirty_count ≡ count_dirty c.lru
    pub on : c.initialized ≡ true

  -- A cache between two calls: no page is referenced or being page_written.
  pub record IsCache (c : PCache) (w : W) : Type 0 where
    pub table : IsTable c w
    pub idle : All IsIdle c.lru

  -- Byte i of disk d as PCacheRead shows it.
  unfoldable pub byte_of : Option Page → W → ℕ → ℕ → ℕ
  byte_of none w d i = contents w d i
  byte_of (some p) w d i = p.bytes (i % page_size)

  unfoldable pub logical : PCache → W → ℕ → ℕ → ℕ
  logical c w d i = byte_of (find_page c.lru d (i / page_size * spp m d)) w d i

  -- Both states show the same bytes on every disk.
  unfoldable pub SameView : PCache → W → PCache → W → Type 0
  SameView c w c' w' = (d i : ℕ) → IsDisk d → logical c' w' d i ≡ logical c w d i

  pub SameView_trans :
      (c : PCache) (w : W) (c' : PCache) (w' : W) (c'' : PCache) (w'' : W)
      → SameView c w c' w'
      → SameView c' w' c'' w''
      → SameView c w c'' w''
  unfolding SameView
  SameView_trans c w c' w' c'' w'' h g d i disk = g d i disk ∙ h d i disk

  pub SameDisks-IsGood : (w w' : W) (p : Page) → SameDisks w w' → IsGood w p → IsGood w' p
  unfolding SameDisks
  SameDisks-IsGood w w' p same g = record {
    disk = g.disk;
    aligned = g.aligned;
    count = g.count;
    fits = g.fits;
    clean = λ off i lt. g.clean off i lt ∙ sym (same p.disk (p.lba * m.sector_size p.disk + i));
  }

  pub SameDisks-IsTable : (c : PCache) (w w' : W) → SameDisks w w' → IsTable c w → IsTable c w'
  unfolding Pages
  SameDisks-IsTable c w w' same t = record {
    unique = t.unique;
    good = λ d l p e. SameDisks-IsGood w w' p same (t.good d l p e);
    counted = t.counted;
    bounded = t.bounded;
    positive = t.positive;
    limit = t.limit;
    are_listed = t.are_listed;
    distinct = t.distinct;
    dirty_counted = t.dirty_counted;
    on = t.on;
  }

  pub byte_of_same :
      (found : Option Page) (w w' : W) (d i : ℕ)
      → contents w' d i ≡ contents w d i
      → byte_of found w' d i ≡ byte_of found w d i
  unfolding byte_of
  byte_of_same none w w' d i same = same
  byte_of_same (some p) w w' d i same = refl

  pub SameDisks-SameView : (c : PCache) (w w' : W) → SameDisks w w' → SameView c w c w'
  unfolding SameDisks SameView logical
  SameDisks-SameView c w w' same d i disk =
      byte_of_same (find_page c.lru d (i / page_size * spp m d)) w w' d i (same d i)

  -- A well-formed cache is so whatever its counts of calls are.
  pub IsTable-same :
      (c c' : PCache) (w : W)
      → c'.lru ≡ c.lru
      → c'.dirty_list ≡ c.dirty_list
      → c'.page_count ≡ c.page_count
      → c'.max_pages ≡ c.max_pages
      → c'.dirty_count ≡ c.dirty_count
      → c'.initialized ≡ c.initialized
      → IsTable c w
      → IsTable c' w
  IsTable-same c c' w lru list pages max dirty running t = record {
    unique = subst IsUnique (sym lru) t.unique;
    good = subst (Pages (IsGood w)) (sym lru) t.good;
    counted = pages ∙ t.counted ∙ ap length (sym lru);
    bounded = omega (arith, pages, max, t.bounded);
    positive = omega (arith, max, t.positive);
    limit = omega (arith, max, t.limit);
    are_listed =
        subst (λ ps. AreListed ps c'.dirty_list) (sym lru)
          (subst (AreListed c.lru) (sym list) t.are_listed);
    distinct = subst IsDistinct (sym list) t.distinct;
    dirty_counted = dirty ∙ t.dirty_counted ∙ ap count_dirty (sym lru);
    on = running ∙ t.on;
  }

  -- A page with the same place, flags and bytes.
  pub IsGood-same :
      (w : W) (p q : Page)
      → q.disk ≡ p.disk
      → q.lba ≡ p.lba
      → q.sector_count ≡ p.sector_count
      → (q.dirty ≡ false → (p.dirty ≡ false) × (q.bytes ≡ p.bytes))
      → IsGood w p
      → IsGood w q
  IsGood-same w p q disk lba count clean g = record {
    disk = subst IsDisk (sym disk) g.disk;
    aligned = rw (disk, lba) g.aligned;
    count = rw (disk, count) g.count;
    fits = rw (disk, lba) g.fits;
    clean = λ off i lt.
        let (no_change, bytes) = clean off in rw (disk, lba, bytes) (g.clean no_change i lt);
  }
