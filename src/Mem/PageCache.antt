-- ===== src/Mem/PageCache.antt =====
-- Kernel/Source/Mem/PageCache.c and Kernel/Include/Mem/PageCache.h: the cache of disk pages.
--
-- The three lists that thread the pages are: `lru`, the pages themselves, the freshest first; a bucket,
-- the pages of `lru` whose key has the hash; `dirty_list`, the keys (disk, sector) of the pages on it. No
-- two pages share a key, so the order of a bucket does not show. A disk is its address, 0 for NULLPTR. The
-- calls that the code makes of the disk's driver, of the heap and of the timer are those of a Machine on a
-- world W. Each section under the lock is a step and no other task comes between the steps.
pub mod Transfer
pub mod Control
pub mod Keys
pub mod Dirty
pub mod Victim
pub mod Table
pub mod State
pub mod Disk
pub mod Room
pub mod Ensure
pub mod Held
pub mod Front
pub mod Fetch
pub mod Offsets
pub mod Reads
pub mod Stores
pub mod Overwrites
pub mod Writes
pub mod Cleans
pub mod Flushes
pub mod Durable
pub mod Drops
pub mod Rounds
mod Tests
use k_os.Prelude.{
  ℕ, zero, suc, ◌+◌, ◌-◌, ◌*◌, ◌/◌, ◌%◌, ◌^◌, bit_xor, Bool, true, false, not, ◌&&◌, ◌||◌, Option,
  none, some, List, [], ◌∷◌, ◌++◌, ltb, leb, ◌==◌, if◌then◌else◌,
}
use k_os.Prelude.Ints.{ℤ, pos, negsuc}

pub record Page : Type 0 where
  pub disk : ℕ
  pub lba : ℕ
  pub sector_count : ℕ
  pub bytes : ℕ → ℕ
  pub ref_count : ℕ
  pub valid : Bool
  pub dirty : Bool
  pub writeback : Bool
  pub last_access : ℕ

pub record PCache : Type 0 where
  pub lru : List Page
  pub dirty_list : List (ℕ × ℕ)
  pub page_count : ℕ
  pub max_pages : ℕ
  pub dirty_count : ℕ
  pub hit_count : ℕ
  pub miss_count : ℕ
  pub evict_count : ℕ
  pub writeback_count : ℕ
  pub read_count : ℕ
  pub write_count : ℕ
  pub writeback_running : Bool
  pub initialized : Bool
  pub writeback_pid : ℕ

-- What the cache calls. `read` takes the disk, the sector, the number of sectors and what the buffer
-- holds, and gives the code and what the buffer holds then; `write` takes the buffer last.
pub record Machine (W : Type 0) : Type 0 where
  pub sector_size : ℕ → ℕ
  pub can_read : ℕ → Bool
  pub can_write : ℕ → Bool
  pub can_flush : ℕ → Bool
  pub read : W → ℕ → ℕ → ℕ → (ℕ → ℕ) → W × ℤ × (ℕ → ℕ)
  pub write : W → ℕ → ℕ → ℕ → (ℕ → ℕ) → W × ℤ
  pub flush : W → ℕ → W
  pub memory_allocate : W → W × Bool
  pub memory_free : W → W
  pub timer_ticks : W → ℕ

-- Return.h: SUCCESS, the codes of errors, and RETURN, which gives -999 for a code below the least one.
abbrev pub success : ℤ
success = pos 0

abbrev pub incorrect_value : ℤ
incorrect_value = negsuc 0

abbrev pub no_object : ℤ
no_object = negsuc 1

abbrev pub no_memory : ℤ
no_memory = negsuc 4

abbrev pub busy : ℤ
busy = negsuc 5

abbrev pub is_success : ℤ → Bool
is_success (pos n) = n == 0
is_success (negsuc n) = false

abbrev pub return_code : ℤ → ℤ
return_code (pos n) = pos n
return_code (negsuc n) = if ltb n 20 then negsuc n else negsuc 998

abbrev pub page_size : ℕ
page_size = 4096

-- H ^= H >> 33
abbrev pub fold_high : ℕ → ℕ
fold_high h = bit_xor h (h / 2 ^ 33)

unfoldable pub pcache_hash : ℕ → ℕ → ℕ
pcache_hash disk lba =
    let h0 = bit_xor disk (lba * 0x9E3779B97F4A7C15 % 2 ^ 64) in
    let h1 = fold_high h0 * 0xFF51AFD7ED558CCD % 2 ^ 64 in
    let h2 = fold_high h1 * 0xC4CEB9FE1A85EC53 % 2 ^ 64 in fold_high h2 % 2 ^ 12

abbrev pub same_key : ℕ → ℕ → ℕ → ℕ → Bool
same_key d l d' l' = (d == d') && (l == l')

-- The page of a key, in the bucket of the hash.
unfoldable pub find_page : List Page → ℕ → ℕ → Option Page
find_page [] d l = none
find_page (p ∷ ps) d l =
    let rest = find_page ps d l in
    if (pcache_hash p.disk p.lba == pcache_hash d l) && same_key p.disk p.lba d l
    then some p
    else rest

-- ListDel of the page of a key.
unfoldable pub list_unlink : List Page → ℕ → ℕ → List Page
list_unlink [] d l = []
list_unlink (p ∷ ps) d l =
    let rest = list_unlink ps d l in if same_key p.disk p.lba d l then ps else p ∷ rest

-- A change of the page of a key, where it stands.
unfoldable pub change : List Page → ℕ → ℕ → (Page → Page) → List Page
change [] d l f = []
change (p ∷ ps) d l f =
    let rest = change ps d l f in if same_key p.disk p.lba d l then f p ∷ ps else p ∷ rest

-- ListDel of the dirty node of a page.
unfoldable pub undirty : List (ℕ × ℕ) → ℕ → ℕ → List (ℕ × ℕ)
undirty [] d l = []
undirty (k ∷ ks) d l = let rest = undirty ks d l in if same_key k.0 k.1 d l then ks else k ∷ rest

-- The decrement of a UINT32.
abbrev pub less_one : ℕ → ℕ
less_one n = (n + (2 ^ 32 - 1)) % 2 ^ 32

-- PCacheFindVictim: from the oldest page on, at most `left` pages.
unfoldable pub scan : ℕ → List Page → Option Page
scan left [] = none
scan zero (p ∷ ps) = none
scan (suc left) (p ∷ ps) =
    let rest = scan left ps in
    if ltb 0 p.ref_count then rest else if p.writeback then rest else some p

unfoldable pub oldest_first : List Page → List Page
oldest_first [] = []
oldest_first (p ∷ ps) = oldest_first ps ++ (p ∷ [])

unfoldable pub find_victim : PCache → Option Page
find_victim c = scan (c.page_count + 1) (oldest_first c.lru)

-- What PCacheEvictOne does to the cache under the lock. The page itself is out of every list then.
unfoldable pub take_out : PCache → Page → PCache
take_out c v = record c {
  lru = list_unlink c.lru v.disk v.lba;
  dirty_list = if v.dirty then undirty c.dirty_list v.disk v.lba else c.dirty_list;
  dirty_count = if v.dirty then less_one c.dirty_count else c.dirty_count;
  page_count = less_one c.page_count;
  evict_count = (c.evict_count + 1) % 2 ^ 64;
}

module _ {W : Type 0} (m : Machine W) where
  unfoldable pub read_direct : W → ℕ → ℕ → ℕ → (ℕ → ℕ) → W × ℤ × (ℕ → ℕ)
  read_direct w d l n buf =
      if (d == 0) || not (m.can_read d) then (w, no_object, buf) else m.read w d l n buf

  unfoldable pub write_direct : W → ℕ → ℕ → ℕ → (ℕ → ℕ) → W × ℤ
  write_direct w d l n buf =
      if (d == 0) || not (m.can_write d) then (w, no_object) else m.write w d l n buf

  unfoldable pub evict : PCache → W → Page → PCache × W
  evict c w v =
      let out = take_out c v in
      let wrote = write_direct w v.disk v.lba v.sector_count v.bytes in
      if v.dirty
      then (
        record out {
          writeback_count =
              if is_success wrote.1
              then (out.writeback_count + 1) % 2 ^ 64
              else out.writeback_count;
        },
        m.memory_free wrote.0,
      )
      else (out, m.memory_free w)

  unfoldable pub evict_one : PCache → W → PCache × W × Bool
  evict_one c w = elim (find_victim c) [
    | none ↦ (c, w, false)
    | some v ↦ ((evict c w v).0, (evict c w v).1, true)
  ]

  -- The loop of PCacheEnsureRoom with the rounds that Attempts leaves.
  unfoldable pub room_loop : ℕ → PCache → W → PCache × W × ℤ
  room_loop zero c w = (c, w, busy)
  room_loop (suc rounds) c w =
      let (c', w', evicted) = evict_one c w in
      let rest = room_loop rounds c' w' in
      if ltb c.page_count c.max_pages
      then (c, w, success)
      else if not evicted && leb c'.max_pages c'.page_count
      then (c', w', busy)
      else rest

  -- MaxPages is below 2^30, so that MaxAttempts is an INT.
  unfoldable pub ensure_room : PCache → W → PCache × W × ℤ
  ensure_room c w =
      if c.max_pages == 0 then (c, w, no_memory) else room_loop (c.max_pages * 2 + 1) c w

  -- RefCount++ and PCacheLruTouch.
  unfoldable pub touch_page : PCache → W → Page → PCache × Page
  touch_page c w p =
      let fresh = record p {
        ref_count = (p.ref_count + 1) % 2 ^ 32;
        last_access = m.timer_ticks w;
      } in
      (record c { lru = fresh ∷ list_unlink c.lru p.disk p.lba }, fresh)

  abbrev pub spp : ℕ → ℕ
  spp d = page_size / m.sector_size d

  abbrev pub new_page : W → ℕ → ℕ → (ℕ → ℕ) → Page
  new_page w d l bytes = record {
    disk = d;
    lba = l;
    sector_count = spp d;
    bytes = bytes;
    ref_count = 1;
    valid = true;
    dirty = false;
    writeback = false;
    last_access = m.timer_ticks w;
  }

  -- The second look at the bucket, and the insertion.
  unfoldable pub insert : PCache → W → Page → PCache × W × Option Page
  insert c w new = elim (find_page c.lru new.disk new.lba) [
    | some p ↦ ((touch_page c w p).0, m.memory_free w, some (touch_page c w p).1)
    | none ↦ (record c { lru = new ∷ c.lru; page_count = (c.page_count + 1) % 2 ^ 32 }, w, some new)
  ]

  -- PCacheGetPage once there is room: allocation, read, insertion.
  unfoldable pub load_page : PCache → W → ℕ → ℕ → PCache × W × Option Page
  load_page c w d l =
      let (w1, allocated) = m.memory_allocate w in
      let (w2, rc, bytes) = read_direct w1 d l (spp d) (λ _. 0) in
      if not allocated
      then (c, w1, none)
      else if not (is_success rc)
      then (c, m.memory_free w2, none)
      else insert c w2 (new_page w2 d l bytes)

  unfoldable pub load_missing : PCache → W → ℕ → ℕ → PCache × W × Option Page
  load_missing c w d l =
      let (c', w', rc) = ensure_room (record c { miss_count = (c.miss_count + 1) % 2 ^ 64 }) w in
      if not (is_success rc) then (c', w', none) else load_page c' w' d l

  unfoldable pub get_page : PCache → W → ℕ → ℕ → PCache × W × Option Page
  get_page c w d l = if d == 0 then (c, w, none) else elim (find_page c.lru d l) [
    | none ↦ load_missing c w d l
    | some p ↦ (
      record (touch_page c w p).0 { hit_count = (c.hit_count + 1) % 2 ^ 64 },
      w,
      some (touch_page c w p).1,
    )
  ]

abbrev pub drop_ref : Page → Page
drop_ref p = record p { ref_count = if ltb 0 p.ref_count then p.ref_count - 1 else p.ref_count }

unfoldable pub release_page : PCache → Page → PCache
release_page c p = record c { lru = change c.lru p.disk p.lba drop_ref }
