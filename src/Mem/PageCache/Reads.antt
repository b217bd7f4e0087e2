-- ===== src/Mem/PageCache/Reads.antt =====
-- Kernel/Source/Mem/PageCache.c: what PCacheRead answers.
use k_os.Prelude.{
  ℕ, zero, suc, ◌+◌, ◌-◌, ◌*◌, ◌/◌, ◌%◌, ◌^◌, ◌≤◌, ◌<◌, ◌≡◌, refl, sym, ap, subst, ◌∙◌, inl, inr,
  true, not, ◌||◌, Option, none, some, arith, ltb, ◌==◌, if◌then◌else◌, ltb→lt, ltb→le, le→ltb,
  ne→==, true≢false, Bool-cases, last_branch,
}
use k_os.Prelude.Ints.{ℤ}
use k_os.Mem.PageCache.{Page, PCache, Machine, success, page_size, same_key, spp, get_page}
use k_os.Mem.PageCache.Transfer.{
  IoCursor, Ending, copied, chunk, page_lba, read_round, pcache_read_loop, pcache_read,
  counted_read,
}
use k_os.Mem.PageCache.Keys.{same_key_refl}
use k_os.Mem.PageCache.State.{IsDisk, SameDisks, IsHealthy, Allocates, IsCache, logical, SameView}
use k_os.Mem.PageCache.Held.{IsHeld, Fetched, IsCache-same}
use k_os.Mem.PageCache.Front.{release_page_lem, front-logical}
use k_os.Mem.PageCache.Fetch.{get_page_lem}
use k_os.Mem.PageCache.Offsets.{
  chunk_lem, page_lba_lem, in_page_off_lem, page_lba-IsPage, range_below, byte_offset_lem,
  byte_count_lem, end_byte_lem,
}

-- A chunk more of what is wanted.
pub filled_more :
    (at n : ℕ) (buf src want buf0 : ℕ → ℕ)
    → ((i : ℕ) → buf i ≡ (if ltb i at then want i else buf0 i))
    → ((i : ℕ) → i < n → src i ≡ want (at + i))
    → (i : ℕ) → copied at n src buf i ≡ (if ltb i (at + n) then want i else buf0 i)
filled_more at n buf src want buf0 old new i = elim (Bool-cases (ltb i at)) [
  | inl y ↦ rw (old i) (ground arith)
  | inr later ↦ elim (Bool-cases (ltb i (at + n))) [
    | inl here ↦
        let le = ltb→le i at later in
        let lt = ltb→lt i (at + n) here in
        let e : at + (i - at) ≡ i = omega (arith, le) in
        rw (here, new (i - at) (omega (arith, le, lt)), e) (ground arith)
    | inr past ↦ rw (old i) (ground arith)
  ]
]

module _ {W : Type 0} (m : Machine W) (contents : W → ℕ → ℕ → ℕ) (capacity : ℕ → ℕ)
    (healthy : IsHealthy m contents capacity) (allocates : Allocates m contents capacity) (d : ℕ)
    (disk : IsDisk m contents capacity d) where
  -- The loop so far: what has been read is what was to be seen at its start, and it is seen still.
  record IsReading (c0 : PCache) (w0 : W) (base total : ℕ) (buf0 : ℕ → ℕ) (k : IoCursor W)
      : Type 0 where
    cached : IsCache m contents capacity k.cache k.world
    view : SameView m contents capacity c0 w0 k.cache k.world
    place : k.cur ≡ base + k.at
    within : k.at ≤ total
    filled :
        (i : ℕ)
        → k.buf i ≡ (if ltb i k.at then logical m contents capacity c0 w0 d (base + i) else buf0 i)

  module _ (c0 : PCache) (w0 : W) (base total : ℕ) (buf0 : ℕ → ℕ) (short : total < 2 ^ 32)
      (below : base + total ≤ capacity d * m.sector_size d) where
    -- A round goes on, with more than before.
    GoesOn : IoCursor W → Ending W → Type 0
    GoesOn k e = (e.code ≡ none) × IsReading c0 w0 base total buf0 e.last × (k.at < e.last.at)

    page_bytes :
        (c : PCache) (w : W) (p : Page) (held : IsHeld m contents capacity c p) (cur i : ℕ)
        → p.disk ≡ d
        → p.lba ≡ cur / page_size * spp m d
        → cur % page_size + i < page_size
        → logical m contents capacity c w d (cur + i) ≡ p.bytes (cur % page_size + i)
    page_bytes c w p held cur i a b lt =
        let same_page : (cur + i) / page_size ≡ cur / page_size = omega (arith, lt) in
        let off : (cur + i) % page_size ≡ cur % page_size + i = omega (arith, lt) in
        let here : same_key p.disk p.lba d ((cur + i) / page_size * spp m d) ≡ true =
          rw (a, b, same_page) (same_key_refl d (cur / page_size * spp m d)) in
        front-logical m contents capacity c p held.others w d (cur + i) held.front here
        ∙ ap p.bytes off

    read_round_lem :
        (k : IoCursor W) (r : PCache × W × Option Page)
        → IsReading c0 w0 base total buf0 k
        → k.at < total
        → Fetched m contents capacity k.cache k.world d (page_lba m d k.cur) r
        → GoesOn k (read_round m d (base + total) k r)
    unfolding read_round Fetched GoesOn SameView Allocates
    read_round_lem k (c, w, none) h lt (_, _, w', failed) =
        absurd (true≢false (sym (allocates w') ∙ failed))
    read_round_lem k (c, w, some p) h lt (table, view, held, a, b) =
        let place = h.place in
        let inside_disk : k.cur < capacity d * m.sector_size d = omega (arith, place, below, lt) in
        let off_eq = in_page_off_lem m contents capacity d disk k.cur inside_disk in
        let lba_eq = page_lba_lem m contents capacity d disk k.cur inside_disk in
        let (cached, after) = release_page_lem m contents capacity c p w table held in
        let left = base + total - k.cur in
        let n = chunk (k.cur % page_size) left in
        let ch =
          chunk_lem (k.cur % page_size) left (omega arith) (omega (arith, place, lt))
            (omega (arith, place, short)) in
        rw off_eq (
          refl,
          record {
            cached = cached;
            view = λ e i is_disk. after e i is_disk ∙ view e i is_disk ∙ h.view e i is_disk;
            place = omega (arith, place, ch.in_range, below, disk.addressed);
            within = omega (arith, ch.in_range, place, lt);
            filled = filled_more k.at n k.buf _ _ buf0 h.filled (λ i lt.
                sym (page_bytes c w p held k.cur i a (b ∙ lba_eq) (omega (arith, ch.in_page, lt)))
                ∙ view d (k.cur + i) disk
                ∙ h.view d (k.cur + i) disk
                ∙ ap (logical m contents capacity c0 w0 d) (omega (arith, place)));
          },
          omega (arith, ch.some_bytes),
        )

    read_loop_lem :
        (fuel : ℕ) (k : IoCursor W)
        → IsReading c0 w0 base total buf0 k
        → total ≤ k.at + fuel
        → (k' : IoCursor W) × (pcache_read_loop m d fuel (base + total) k
            ≡ some (record { last = k'; code = none }))
          × IsReading c0 w0 base total buf0 k'
          × (k'.at ≡ total)
    unfolding pcache_read_loop GoesOn
    read_loop_lem zero k h enough =
        let place = h.place in
        let within = h.within in
        (
          k,
          rw (le→ltb k.cur (base + total) (omega (arith, place, enough))) refl,
          h,
          omega (arith, within, enough),
        )
    read_loop_lem (suc fuel) k h enough = elim (Bool-cases (ltb k.cur (base + total))) [
      | inr over ↦
          let place = h.place in
          let within = h.within in
          let le = ltb→le k.cur (base + total) over in
          (k, rw over refl, h, omega (arith, place, within, le))
      | inl more ↦
          let place = h.place in
          let lt = ltb→lt k.cur (base + total) more in
          let inside_disk : k.cur < capacity d * m.sector_size d = omega (arith, below, lt) in
          let fetched =
            get_page_lem m contents capacity healthy k.cache k.world d (page_lba m d k.cur)
              (page_lba-IsPage m contents capacity d disk k.cur inside_disk) h.cached in
          let (on, next, gain) =
            read_round_lem k (get_page m k.cache k.world d (page_lba m d k.cur)) h
              (omega (arith, place, lt)) fetched in
          let (k', ends, last, all) = read_loop_lem fuel _ next (omega (arith, enough, gain)) in
          (k', rw (more, on) ends, last, all)
    ]

  start_of : PCache → W → ℕ → (ℕ → ℕ) → IoCursor W
  start_of c w l buf = record { cache = c; world = w; cur = l * m.sector_size d; at = 0; buf = buf }

  pcache_read-pcache_read_loop :
      (c : PCache) (w : W) (l n : ℕ) (buf : ℕ → ℕ)
      → c.initialized ≡ true
      → 0 < n
      → l + n ≤ capacity d
      → n * m.sector_size d < 2 ^ 32
      → pcache_read m d c w l n buf
        ≡ counted_read m d (
            pcache_read_loop m d
              (n * m.sector_size d)
              (l * m.sector_size d + n * m.sector_size d)
              (start_of c w l buf))
  unfolding pcache_read start_of
  pcache_read-pcache_read_loop c w l n buf on some_sectors sectors short =
      let nonzero = ne→== n 0 (λ z. absurd (omega (arith, some_sectors, z))) in
      let to_end = end_byte_lem m contents capacity d disk l n sectors short in
      let count = byte_count_lem m contents capacity d disk l n sectors short in
      let offset = byte_offset_lem m contents capacity d disk l n sectors short in
      last_branch ((d == 0) || (n == 0)) (not c.initialized) _ _ _ (rw (disk.present, nonzero) refl)
        (rw on refl)
      ∙ rw (to_end, count, offset) refl

  -- What an answer is to be: the bytes that were to be seen, and the same bytes to be seen still.
  abbrev pub Answered : PCache → W → ℕ → ℕ → (ℕ → ℕ) → PCache × W × (ℕ → ℕ) × ℤ → Type 0
  Answered c w l n buf (c', w', buf', rc) =
      (rc ≡ success)
      × IsCache m contents capacity c' w'
      × SameView m contents capacity c w c' w'
      × ((i : ℕ)
          → buf' i ≡ (
              if ltb i (n * m.sector_size d)
              then logical m contents capacity c w d (l * m.sector_size d + i)
              else buf i))

  -- PCacheRead ends and answers SUCCESS and the bytes that were to be seen, those of the cached
  -- pages over those of the disk, puts no byte behind them, and leaves what is to be seen on
  -- every disk as it was, for a well-formed cache in which no page is referenced, on a disk with
  -- a sector size that divides the page, whose reads and writes succeed, with a heap that does
  -- not fail. The sectors are on the disk and have less than 2^32 bytes.
  pub pcache_read_lem :
      (c : PCache) (w : W) (l n : ℕ) (buf : ℕ → ℕ)
      → IsCache m contents capacity c w
      → 0 < n
      → l + n ≤ capacity d
      → n * m.sector_size d < 2 ^ 32
      → (r : PCache × W × (ℕ → ℕ) × ℤ) × (pcache_read m d c w l n buf ≡ some r)
        × Answered c w l n buf r
  unfolding SameView logical SameDisks start_of
  pcache_read_lem c w l n buf h some_sectors sectors short =
      let ss = m.sector_size d in
      let below = range_below m contents capacity d disk l n sectors short in
      let start : IsReading c w (l * ss) (n * ss) buf (start_of c w l buf) = record {
        cached = h;
        view = λ e i is_disk. refl;
        place = omega arith;
        within = omega arith;
        filled = λ i. ground arith;
      } in
      let (k, ends, done, all) =
        read_loop_lem c w (l * ss) (n * ss) buf short below (n * ss) (start_of c w l buf) start
          (omega arith) in
      (
        _,
        pcache_read-pcache_read_loop c w l n buf h.table.on some_sectors sectors short
            ∙ ap (counted_read m d) ends,
        (
          refl,
          IsCache-same m contents capacity k.cache _ k.world k.world refl refl refl refl refl refl
              (λ e i. refl) done.cached,
          done.view,
          λ i.
              subst
                (λ x.
                  k.buf i
                  ≡ (if ltb i x then logical m contents capacity c w d (l * ss + i) else buf i))
                all (done.filled i),
        ),
      )
