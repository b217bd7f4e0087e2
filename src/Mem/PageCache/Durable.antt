-- ===== src/Mem/PageCache/Durable.antt =====
-- Kernel/Source/Mem/PageCache.c: PCacheWrite, PCacheFlush and PCacheRead one after the other.
use k_os.Prelude.{
  ℕ, ◌+◌, ◌-◌, ◌*◌, ◌^◌, ◌≤◌, ◌<◌, ◌≡◌, refl, ◌∙◌, true, ◌||◌, some, arith, ◌==◌, lt→ltb, ==_refl,
}
use k_os.Prelude.Ints.{ℤ}
use k_os.Mem.PageCache.{PCache, Machine, success}
use k_os.Mem.PageCache.Transfer.{pcache_read, pcache_write}
use k_os.Mem.PageCache.Control.{pcache_flush}
use k_os.Mem.PageCache.State.{inside, IsDisk, IsHealthy, Allocates, IsCache, logical, SameView}
use k_os.Mem.PageCache.Reads.{pcache_read_lem}
use k_os.Mem.PageCache.Overwrites.{Overwritten}
use k_os.Mem.PageCache.Writes.{pcache_write_lem}
use k_os.Mem.PageCache.Flushes.{pcache_flush_lem}

module _ {W : Type 0} (m : Machine W) (contents : W → ℕ → ℕ → ℕ) (capacity : ℕ → ℕ)
    (healthy : IsHealthy m contents capacity) (allocates : Allocates m contents capacity) (d : ℕ)
    (disk : IsDisk m contents capacity d) where
  overwritten_byte :
      (c : PCache) (w : W) (c' : PCache) (w' : W) (from n : ℕ) (src : ℕ → ℕ) (i : ℕ)
      → Overwritten m contents capacity healthy allocates d disk c w c' w' from n src
      → i < n
      → logical m contents capacity c' w' d (from + i) ≡ src i
  unfolding Overwritten
  overwritten_byte c w c' w' from n src i over lt =
      let here : inside from n (from + i) ≡ true = ground arith in
      let off : from + i - from ≡ i = omega arith in
      over d (from + i) disk ∙ rw (==_refl d, here, off) refl

  -- What is page_written comes to the disk with a flush, and is read back.
  abbrev pub Kept : ℕ → ℕ → (ℕ → ℕ) → PCache × W → Type 0
  Kept l n buf (c', w') =
      ((i : ℕ) → i < n * m.sector_size d → contents w' d (l * m.sector_size d + i) ≡ buf i)
      × ((other : ℕ → ℕ)
          → (r : PCache × W × (ℕ → ℕ) × ℤ) × (pcache_read m d c' w' l n other ≡ some r)
            × (r.3 ≡ success)
            × ((i : ℕ) → i < n * m.sector_size d → r.2 i ≡ buf i))

  -- PCacheWrite answers SUCCESS; after PCacheFlush the disk holds the bytes that were page_written,
  -- and PCacheRead of the sectors answers SUCCESS and these bytes, for a well-formed cache in
  -- which no page is referenced, on a disk with a sector size that divides the page, whose reads
  -- and writes succeed, with a heap that does not fail. The sectors are on the disk and have less
  -- than 2^32 bytes.
  pub pcache_write-pcache_flush-pcache_read :
      (c : PCache) (w : W) (l n : ℕ) (buf : ℕ → ℕ)
      → IsCache m contents capacity c w
      → 0 < n
      → l + n ≤ capacity d
      → n * m.sector_size d < 2 ^ 32
      → (r : PCache × W × ℤ) × (pcache_write m d c w l n buf ≡ some r)
        × (r.2 ≡ success)
        × Kept l n buf ((pcache_flush m r.0 r.1 d).0, (pcache_flush m r.0 r.1 d).1)
  unfolding SameView
  pcache_write-pcache_flush-pcache_read c w l n buf h some_sectors sectors short =
      let (r, runs, (done, cached, over)) =
        pcache_write_lem m contents capacity healthy allocates d disk c w l n buf h some_sectors
          sectors short in
      let (flushed, _) =
        pcache_flush_lem m contents capacity healthy r.0 r.1 d cached disk.present in
      let (cached', view, on_disk) = flushed in
      let f = pcache_flush m r.0 r.1 d in
      let chosen : ((d == 0) || (d == d)) ≡ true = rw (disk.present, ==_refl d) refl in
      let from = l * m.sector_size d in
      (
        r,
        runs,
        done,
        (
          (λ i lt.
              on_disk d (from + i) disk chosen
              ∙ overwritten_byte c w r.0 r.1 from (n * m.sector_size d) buf i over lt),
          λ other.
              let (a, reads, (ok, _, _, bytes)) =
                pcache_read_lem m contents capacity healthy allocates d disk f.0 f.1 l n other
                  cached' some_sectors sectors short in
              (
                a,
                reads,
                ok,
                λ i lt.
                    bytes i
                    ∙ rw (lt→ltb i (n * m.sector_size d) lt) (
                        view d (from + i) disk
                        ∙ overwritten_byte c w r.0 r.1 from (n * m.sector_size d) buf i over lt),
              ),
        ),
      )
