-- ===== src/Mem/Heap/Aligned/Blocks.antt =====
-- A block of aligned memory, from its allocation to its release.
use k_os.Prelude.{ℕ, ◌+◌, ◌-◌, ◌%◌, ◌^◌, ◌≤◌, ◌<◌, ◌≡◌, false, some}
use k_os.Mem.Heap.{BlockHeader, Heap, header_at}
use k_os.Mem.Heap.Requests.{IsRegion, SomeFree}
use k_os.Mem.Heap.Aligned.{AlignedBlock, aligned_addr, store_word, overruns, free_aligned}

-- The block at `h` is in use and holds `size` bytes from `x.ptr` on, and MemoryFreeAligned clears as many
-- bytes from there on as the block has.
pub record FitsBlock (stray : ℕ → BlockHeader) (start alignment size : ℕ) (x : AlignedBlock)
    : Type 0 where
  pub h : ℕ
  pub region : IsRegion start x.heap
  pub aligned : x.ptr % alignment ≡ 0
  pub block : BlockHeader
  pub found : header_at x.heap.blocks h ≡ some block
  pub used : block.free ≡ false
  pub above : h + 48 < x.ptr
  pub inside : x.ptr + size ≤ h + 48 + block.size
  pub freed_behind : free_aligned stray x.heap x.words x.ptr ≡ overruns x.ptr block.size

module _ (ask : ℕ → ℕ → ℕ) (stray : ℕ → BlockHeader) (start : ℕ) (g : Heap) (words : ℕ → ℕ)
    (size k : ℕ) (v : IsRegion start g) (few : size < 2 ^ 60) (le : 3 ≤ k) (lt : k < 44)
    (low : start + g.current_size < 2 ^ 61) (one : SomeFree g.blocks (size + 2 ^ k + 7)) where
  abbrev block_at : ℕ → Heap → AlignedBlock
  block_at h g' = record {
    heap = g';
    words = store_word words ((aligned_addr (2 ^ k) (h + 48) + 2 ^ 64 - 8) % 2 ^ 64) (h + 48);
    ptr = aligned_addr (2 ^ k) (h + 48);
  }
