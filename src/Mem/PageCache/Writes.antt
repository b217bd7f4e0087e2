-- ===== src/Mem/PageCache/Writes.antt =====
-- Kernel/Source/Mem/PageCache.c: what is to be seen after PCacheWrite.
use k_os.Prelude.{
  ℕ, zero, suc, ◌+◌, ◌-◌, ◌*◌, ◌%◌, ◌^◌, ◌≤◌, ◌<◌, ◌≡◌, refl, sym, ap, subst, ◌∙◌, inl, inr, true,
  not, ◌||◌, Option, none, some, arith, ltb, ◌==◌, ltb→lt, ltb→le, le→ltb, ne→==, true≢false,
  Bool-cases, last_branch,
}
use k_os.Prelude.Ints.{ℤ}
use k_os.Mem.PageCache.{Page, PCache, Machine, success, page_size, get_page}
use k_os.Mem.PageCache.Transfer.{
  IoCursor, Ending, chunk, page_lba, write_round, pcache_write_loop, pcache_write, counted_write,
}
use k_os.Mem.PageCache.State.{IsDisk, SameDisks, IsHealthy, Allocates, IsCache, logical, SameView}
use k_os.Mem.PageCache.Held.{Fetched, IsCache-same}
use k_os.Mem.PageCache.Stores.{put_bytes, put_bytes-IsCache}
use k_os.Mem.PageCache.Fetch.{get_page_lem}
use k_os.Mem.PageCache.Offsets.{
  chunk_lem, page_lba_lem, in_page_off_lem, page_lba-IsPage, range_below, byte_offset_lem,
  byte_count_lem, end_byte_lem,
}
use k_os.Mem.PageCache.Overwrites.{Overwritten, put_Overwritten, Overwritten_more, range_empty}

module _ {W : Type 0} (m : Machine W) (contents : W → ℕ → ℕ → ℕ) (capacity : ℕ → ℕ)
    (healthy : IsHealthy m contents capacity) (allocates : Allocates m contents capacity) (d : ℕ)
    (disk : IsDisk m contents capacity d) where
  -- The loop so far.
  record IsWriting (c0 : PCache) (w0 : W) (base total : ℕ) (buf0 : ℕ → ℕ) (k : IoCursor W)
      : Type 0 where
    cached : IsCache m contents capacity k.cache k.world
    view :
        Overwritten m contents capacity healthy allocates d disk c0 w0 k.cache k.world base k.at
          buf0
    place : k.cur ≡ base + k.at
    within : k.at ≤ total
    same : k.buf ≡ buf0

  module _ (c0 : PCache) (w0 : W) (base total : ℕ) (buf0 : ℕ → ℕ) (short : total < 2 ^ 32)
      (below : base + total ≤ capacity d * m.sector_size d) where
    -- A round goes on, with more than before.
    GoesOn : IoCursor W → Ending W → Type 0
    GoesOn k e = (e.code ≡ none) × IsWriting c0 w0 base total buf0 e.last × (k.at < e.last.at)

    write_round_lem :
        (k : IoCursor W) (r : PCache × W × Option Page)
        → IsWriting c0 w0 base total buf0 k
        → k.at < total
        → Fetched m contents capacity k.cache k.world d (page_lba m d k.cur) r
        → GoesOn k (write_round m d (base + total) k r)
    unfolding write_round Fetched GoesOn SameView Allocates Overwritten
    write_round_lem k (c, w, none) h lt (_, _, w', failed) =
        absurd (true≢false (sym (allocates w') ∙ failed))
    write_round_lem k (c, w, some p) h lt (table, view, held, a, b) =
        let place = h.place in
        let inside_disk : k.cur < capacity d * m.sector_size d = omega (arith, place, below, lt) in
        let off_eq = in_page_off_lem m contents capacity d disk k.cur inside_disk in
        let lba_eq = page_lba_lem m contents capacity d disk k.cur inside_disk in
        let left = base + total - k.cur in
        let n = chunk (k.cur % page_size) left in
        let ch =
          chunk_lem (k.cur % page_size) left (omega arith) (omega (arith, place, lt))
            (omega (arith, place, short)) in
        let src = λ (i : ℕ). k.buf (k.at + i) in
        let put =
          put_Overwritten m contents capacity healthy allocates d disk c w p k.cur n src table held
            a (b ∙ lba_eq) ch.in_page in
        let seen : Overwritten m contents capacity healthy allocates d disk c0 w0 c w base k.at
            buf0 =
          λ e i is_disk. view e i is_disk ∙ h.view e i is_disk in
        let new : Overwritten m contents capacity healthy allocates d disk c w
            (put_bytes c p (k.cur % page_size) n src) w (base + k.at) n (λ i. buf0 (k.at + i)) =
          subst
            (λ f.
              Overwritten m contents capacity healthy allocates d disk c w
                (put_bytes c p (k.cur % page_size) n src) w (base + k.at) n (λ i. f (k.at + i)))
            h.same
            (subst
              (λ x.
                Overwritten m contents capacity healthy allocates d disk c w
                  (put_bytes c p (k.cur % page_size) n src) w x n src)
              place put) in
        rw off_eq (
          refl,
          record {
            cached =
                put_bytes-IsCache m contents capacity c w p (k.cur % page_size) n src table held;
            view =
                Overwritten_more m contents capacity healthy allocates d disk c0 w0 c w _ w base
                  k.at n buf0 seen new;
            place = omega (arith, place, ch.in_range, below, disk.addressed);
            within = omega (arith, ch.in_range, place, lt);
            same = h.same;
          },
          omega (arith, ch.some_bytes),
        )

    write_loop_lem :
        (fuel : ℕ) (k : IoCursor W)
        → IsWriting c0 w0 base total buf0 k
        → total ≤ k.at + fuel
        → (k' : IoCursor W) × (pcache_write_loop m d fuel (base + total) k
            ≡ some (record { last = k'; code = none }))
          × IsWriting c0 w0 base total buf0 k'
          × (k'.at ≡ total)
    unfolding pcache_write_loop GoesOn
    write_loop_lem zero k h enough =
        let place = h.place in
        let within = h.within in
        (
          k,
          rw (le→ltb k.cur (base + total) (omega (arith, place, enough))) refl,
          h,
          omega (arith, within, enough),
        )
    write_loop_lem (suc fuel) k h enough = elim (Bool-cases (ltb k.cur (base + total))) [
      | inr over ↦
          let place = h.place in
          let within = h.within in
          let le = ltb→le k.cur (base + total) over in
          (k, rw over refl, h, omega (arith, place, within, le))
      | inl more ↦
          let place = h.place in
          let lt = ltb→lt k.cur (base + total) more in
          let inside_disk : k.cur < capacity d * m.sector_size d = omega (arith, below, lt) in
          let fetched =
            get_page_lem m contents capacity healthy k.cache k.world d (page_lba m d k.cur)
              (page_lba-IsPage m contents capacity d disk k.cur inside_disk) h.cached in
          let (on, next, gain) =
            write_round_lem k (get_page m k.cache k.world d (page_lba m d k.cur)) h
              (omega (arith, place, lt)) fetched in
          let (k', ends, last, all) = write_loop_lem fuel _ next (omega (arith, enough, gain)) in
          (k', rw (more, on) ends, last, all)
    ]

  start_of : PCache → W → ℕ → (ℕ → ℕ) → IoCursor W
  start_of c w l buf = record { cache = c; world = w; cur = l * m.sector_size d; at = 0; buf = buf }

  pcache_write-pcache_write_loop :
      (c : PCache) (w : W) (l n : ℕ) (buf : ℕ → ℕ)
      → c.initialized ≡ true
      → 0 < n
      → l + n ≤ capacity d
      → n * m.sector_size d < 2 ^ 32
      → pcache_write m d c w l n buf
        ≡ counted_write m d (
            pcache_write_loop m d
              (n * m.sector_size d)
              (l * m.sector_size d + n * m.sector_size d)
              (start_of c w l buf))
  unfolding pcache_write start_of
  pcache_write-pcache_write_loop c w l n buf on some_sectors sectors short =
      let nonzero = ne→== n 0 (λ z. absurd (omega (arith, some_sectors, z))) in
      let to_end = end_byte_lem m contents capacity d disk l n sectors short in
      let count = byte_count_lem m contents capacity d disk l n sectors short in
      let offset = byte_offset_lem m contents capacity d disk l n sectors short in
      last_branch ((d == 0) || (n == 0)) (not c.initialized) _ _ _ (rw (disk.present, nonzero) refl)
        (rw on refl)
      ∙ rw (to_end, count, offset) refl

  -- What a write is to come to.
  abbrev pub Stored : PCache → W → ℕ → ℕ → (ℕ → ℕ) → PCache × W × ℤ → Type 0
  Stored c w l n buf (c', w', rc) =
      (rc ≡ success)
      × IsCache m contents capacity c' w'
      × Overwritten m contents capacity healthy allocates d disk c w c' w' (l * m.sector_size d)
          (n * m.sector_size d) buf

  -- PCacheWrite ends and answers SUCCESS, and of what is to be seen on the disks it changes the
  -- bytes of its sectors to those of the buffer and no others, for a well-formed cache in which
  -- no page is referenced, on a disk with a sector size that divides the page, whose reads and
  -- writes succeed, with a heap that does not fail. The sectors are on the disk and have less
  -- than 2^32 bytes.
  pub pcache_write_lem :
      (c : PCache) (w : W) (l n : ℕ) (buf : ℕ → ℕ)
      → IsCache m contents capacity c w
      → 0 < n
      → l + n ≤ capacity d
      → n * m.sector_size d < 2 ^ 32
      → (r : PCache × W × ℤ) × (pcache_write m d c w l n buf ≡ some r) × Stored c w l n buf r
  unfolding Overwritten logical SameDisks start_of
  pcache_write_lem c w l n buf h some_sectors sectors short =
      let ss = m.sector_size d in
      let below = range_below m contents capacity d disk l n sectors short in
      let start : IsWriting c w (l * ss) (n * ss) buf (start_of c w l buf) = record {
        cached = h;
        view = λ e i is_disk. rw (range_empty (d == e) (l * ss) i) refl;
        place = omega arith;
        within = omega arith;
        same = refl;
      } in
      let (k, ends, done, all) =
        write_loop_lem c w (l * ss) (n * ss) buf short below (n * ss) (start_of c w l buf) start
          (omega arith) in
      (
        _,
        pcache_write-pcache_write_loop c w l n buf h.table.on some_sectors sectors short
            ∙ ap (counted_write m d) ends,
        (
          refl,
          IsCache-same m contents capacity k.cache _ k.world k.world refl refl refl refl refl refl
              (λ e i. refl) done.cached,
          subst
              (λ x.
                Overwritten m contents capacity healthy allocates d disk c w k.cache k.world
                  (l * ss) x buf)
              all done.view,
        ),
      )
