-- ===== src/Mem/PageCache/Transfer.antt =====
-- Kernel/Source/Mem/PageCache.c: PCacheRead and PCacheWrite.
--
-- A loop takes a round for each chunk of a page, or for a piece that goes to the disk at once. It runs on
-- fuel of one round for each byte: `none` is a loop that has not ended by then.
use k_os.Prelude.{
  ℕ, zero, suc, ◌+◌, ◌-◌, ◌*◌, ◌/◌, ◌%◌, ◌^◌, true, not, ◌&&◌, ◌||◌, Option, none, some, ◌∷◌, ltb,
  leb, ◌==◌, if◌then◌else◌,
}
use k_os.Prelude.Ints.{ℤ}
use k_os.Mem.PageCache.{
  Page, PCache, Machine, success, incorrect_value, is_success, return_code, page_size, change,
  read_direct, write_direct, spp, get_page, release_page,
}

-- Cur and the position of Out or In, and for a read what Buf holds.
pub record IoCursor (W : Type 0) : Type 0 where
  pub cache : PCache
  pub world : W
  pub cur : ℕ
  pub at : ℕ
  pub buf : ℕ → ℕ

-- How a loop ends: it has come to the end, or the function returns a code from inside.
pub record Ending (W : Type 0) : Type 0 where
  pub last : IoCursor W
  pub code : Option ℤ

-- MemCpy of `n` bytes into a buffer at `at`.
abbrev pub copied : ℕ → ℕ → (ℕ → ℕ) → (ℕ → ℕ) → ℕ → ℕ
copied at n src buf i = if leb at i && ltb i (at + n) then src (i - at) else buf i

-- InPageOff of a page that begins at byte `start`, as a UINT32.
abbrev pub in_page_off : ℕ → ℕ → ℕ
in_page_off start cur = (cur + (2 ^ 64 - start)) % 2 ^ 32

abbrev pub chunk : ℕ → ℕ → ℕ
chunk off left =
    let room = page_size - off in if ltb (left % 2 ^ 32) room then left % 2 ^ 32 else room

-- The sectors that are left, 128 at most.
abbrev pub this_direct : ℕ → ℕ → ℕ
this_direct ss left = let sectors = left / ss % 2 ^ 32 in if ltb 128 sectors then 128 else sectors

abbrev pub set_dirty : Page → Page
set_dirty p = record p { dirty = true }

-- `!(Page->Flags & PCACHE_FLAG_DIRTY)` and what follows.
unfoldable pub mark_dirty : PCache → Page → PCache
mark_dirty c p = if p.dirty then c else record c {
  lru = change c.lru p.disk p.lba set_dirty;
  dirty_list = (p.disk, p.lba) ∷ c.dirty_list;
  dirty_count = (c.dirty_count + 1) % 2 ^ 32;
}

-- MemCpy into the page.
unfoldable pub store_bytes : PCache → Page → ℕ → ℕ → (ℕ → ℕ) → PCache
store_bytes c p off n src = record c {
  lru = change c.lru p.disk p.lba (λ q. record q { bytes = copied off n src q.bytes });
}

module _ {W : Type 0} (m : Machine W) (d : ℕ) where
  abbrev pub page_lba : ℕ → ℕ
  page_lba cur = cur / page_size * spp m d % 2 ^ 64

  abbrev pub page_start : ℕ → ℕ
  page_start cur = page_lba cur * m.sector_size d % 2 ^ 64

  -- `Out += n; Cur += n`
  abbrev pub moved_on : ℕ → PCache → W → (ℕ → ℕ) → IoCursor W → IoCursor W
  moved_on n c w buf k = record {
    cache = c;
    world = w;
    cur = (k.cur + n) % 2 ^ 64;
    at = k.at + n;
    buf = buf;
  }

  -- The round of PCacheRead with the page that PCacheGetPage gives.
  unfoldable pub read_round : ℕ → IoCursor W → PCache × W × Option Page → Ending W
  read_round end_byte k (c, w, none) =
      let this = this_direct (m.sector_size d) (end_byte - k.cur) in
      let (w', rc, bytes) =
        read_direct m w d (k.cur / m.sector_size d) this (λ i. k.buf (k.at + i)) in
      let buf : ℕ → ℕ = λ i. if ltb i k.at then k.buf i else bytes (i - k.at) in
      if is_success rc
      then (record { last = moved_on (this * m.sector_size d % 2 ^ 32) c w' buf k; code = none })
      else record {
        last = record k { cache = c; world = w'; buf = buf };
        code = some (return_code rc);
      }
  read_round end_byte k (c, w, some p) =
      let off = in_page_off (page_start k.cur) k.cur in
      let n = chunk off (end_byte - k.cur) in
      record {
        last = moved_on n (release_page c p) w (copied k.at n (λ i. p.bytes (off + i)) k.buf) k;
        code = none;
      }

  unfoldable pub pcache_read_loop : ℕ → ℕ → IoCursor W → Option (Ending W)
  pcache_read_loop zero end_byte k =
      if ltb k.cur end_byte then none else some (record { last = k; code = none })
  pcache_read_loop (suc fuel) end_byte k =
      let round = read_round end_byte k (get_page m k.cache k.world d (page_lba k.cur)) in
      let rest = pcache_read_loop fuel end_byte round.last in
      if not (ltb k.cur end_byte)
      then some (record { last = k; code = none })
      else elim round.code [ none ↦ rest | some rc ↦ some round ]

  unfoldable pub write_round : ℕ → IoCursor W → PCache × W × Option Page → Ending W
  write_round end_byte k (c, w, none) =
      let this = this_direct (m.sector_size d) (end_byte - k.cur) in
      let (w', rc) = write_direct m w d (k.cur / m.sector_size d) this (λ i. k.buf (k.at + i)) in
      if is_success rc
      then (record { last = moved_on (this * m.sector_size d % 2 ^ 32) c w' k.buf k; code = none })
      else record { last = record k { cache = c; world = w' }; code = some (return_code rc) }
  write_round end_byte k (c, w, some p) =
      let off = in_page_off (page_start k.cur) k.cur in
      let n = chunk off (end_byte - k.cur) in
      let stored = store_bytes c p off n (λ i. k.buf (k.at + i)) in
      record { last = moved_on n (release_page (mark_dirty stored p) p) w k.buf k; code = none }

  unfoldable pub pcache_write_loop : ℕ → ℕ → IoCursor W → Option (Ending W)
  pcache_write_loop zero end_byte k =
      if ltb k.cur end_byte then none else some (record { last = k; code = none })
  pcache_write_loop (suc fuel) end_byte k =
      let round = write_round end_byte k (get_page m k.cache k.world d (page_lba k.cur)) in
      let rest = pcache_write_loop fuel end_byte round.last in
      if not (ltb k.cur end_byte)
      then some (record { last = k; code = none })
      else elim round.code [ none ↦ rest | some rc ↦ some round ]

  abbrev pub byte_offset : ℕ → ℕ
  byte_offset l = l * m.sector_size d % 2 ^ 64

  abbrev pub byte_count : ℕ → ℕ
  byte_count n = n * m.sector_size d % 2 ^ 64

  abbrev pub end_byte : ℕ → ℕ → ℕ
  end_byte l n = (byte_offset l + byte_count n) % 2 ^ 64

  abbrev pub counted_read : Option (Ending W) → Option (PCache × W × (ℕ → ℕ) × ℤ)
  counted_read none = none
  counted_read (some e) = some (elim e.code [
    | some rc ↦ (e.last.cache, e.last.world, e.last.buf, rc)
    | none ↦ (
      record e.last.cache { read_count = (e.last.cache.read_count + 1) % 2 ^ 64 },
      e.last.world,
      e.last.buf,
      success,
    )
  ])

  -- `buf` is what stands at Buf, which is not NULL.
  unfoldable pub pcache_read : PCache → W → ℕ → ℕ → (ℕ → ℕ) → Option (PCache × W × (ℕ → ℕ) × ℤ)
  pcache_read c w l n buf =
      let direct = read_direct m w d l n buf in
      let start : IoCursor W = record {
        cache = c;
        world = w;
        cur = byte_offset l;
        at = 0;
        buf = buf;
      } in
      if (d == 0) || (n == 0)
      then some (c, w, buf, incorrect_value)
      else if not c.initialized
      then some (c, direct.0, direct.2, direct.1)
      else counted_read (pcache_read_loop (byte_count n) (end_byte l n) start)

  abbrev pub counted_write : Option (Ending W) → Option (PCache × W × ℤ)
  counted_write none = none
  counted_write (some e) = some (elim e.code [
    | some rc ↦ (e.last.cache, e.last.world, rc)
    | none ↦ (
      record e.last.cache { write_count = (e.last.cache.write_count + 1) % 2 ^ 64 },
      e.last.world,
      success,
    )
  ])

  unfoldable pub pcache_write : PCache → W → ℕ → ℕ → (ℕ → ℕ) → Option (PCache × W × ℤ)
  pcache_write c w l n buf =
      let direct = write_direct m w d l n buf in
      let start : IoCursor W = record {
        cache = c;
        world = w;
        cur = byte_offset l;
        at = 0;
        buf = buf;
      } in
      if (d == 0) || (n == 0)
      then some (c, w, incorrect_value)
      else if not c.initialized
      then some (c, direct.0, direct.1)
      else counted_write (pcache_write_loop (byte_count n) (end_byte l n) start)
