-- ===== src/Mem/Heap/Account.antt =====
-- What MemoryAllocatorInit, GetKMemoryStats and MemoryCallocate say about a heap of one region.
use k_os.Prelude.{
  ℕ, ◌+◌, ◌-◌, ◌*◌, ◌/◌, ◌%◌, ◌^◌, ◌≤◌, ◌<◌, ◌≡◌, refl, ◌≢◌, ◌⊎◌, inl, inr, Bool, true, false, not,
  Option, none, some, List, [], ◌∷◌, arith, ltb, ◌==◌, if◌then◌else◌, ltb→lt, ltb→le, le→leb, ne→==,
  Bool-cases, either-branch,
}
use k_os.Mem.Heap.{
  BlockHeader, Heap, magic, payload_header, align_up, split_block, header_at, memory_allocate,
}
use k_os.Mem.Heap.Tiling.{Tiles, Tiles-le, split_block-Tiles}
use k_os.Mem.Heap.Requests.{IsRegion, align_up_lem}
use k_os.Mem.Heap.Api.{
  first_heap, allocator_init, KMemoryStats, add_block, add_blocks, no_blocks, memory_stats,
  memory_callocate, memory_reallocate, resize, Reallocation,
}

-- MemoryAllocatorInit, where the page allocator answers 16 MiB that end below 2^64, makes a heap of one
-- region.
pub allocator_init-IsRegion :
    (canary answer : ℕ)
    → answer ≢ 0
    → answer + 0x1000000 < 2 ^ 64
    → (g : Heap) × (allocator_init canary answer ≡ some g) × IsRegion answer g
unfolding allocator_init
allocator_init-IsRegion canary answer ne fits = (
  first_heap canary answer,
  simp (ne→== answer 0 ne) refl,
  (
    (record { here = refl; grain = refl; magic_intact = refl; canary_intact = refl }, omega arith),
    fits,
  ),
)

-- The sums agree with each other.
pub record Balanced (s : KMemoryStats) : Type 0 where
  pub bytes : s.used_payload + s.free_payload + s.num_blocks * 48 ≡ s.total_managed
  pub blocks : s.num_used + s.num_free ≡ s.num_blocks

add_block-Balanced :
    (s : KMemoryStats) (b : BlockHeader)
    → Balanced s
    → s.total_managed + (48 + b.size) < 2 ^ 64
    → Balanced (add_block s b) × ((add_block s b).total_managed ≡ s.total_managed + (48 + b.size))
unfolding add_block
add_block-Balanced s b v small =
    either-branch (λ r. Balanced r × (r.total_managed ≡ s.total_managed + (48 + b.size))) b.free _ _
      (
        record {
          bytes = omega (arith, v.bytes, v.blocks);
          blocks = omega (arith, v.bytes, v.blocks);
        },
        omega arith,
      )
      (
        record {
          bytes = omega (arith, v.bytes, v.blocks);
          blocks = omega (arith, v.bytes, v.blocks);
        },
        omega arith,
      )

add_blocks-Balanced :
    (c a z : ℕ) (bs : List BlockHeader) (s : KMemoryStats)
    → Tiles c a bs z
    → Balanced s
    → s.total_managed + (z - a) < 2 ^ 64
    → Balanced (add_blocks s bs) × ((add_blocks s bs).total_managed ≡ s.total_managed + (z - a))
unfolding add_blocks
add_blocks-Balanced c a z [] s t v small = (v, omega arith)
add_blocks-Balanced c a z (b ∷ bs) s t v small =
    let le = Tiles-le c (a + 48 + b.size) bs z t.1 in
    let (v', sum) = add_block-Balanced s b v (omega arith) in
    let (w, total) =
      add_blocks-Balanced c (a + 48 + b.size) z bs (add_block s b) t.1 v' (omega (arith, sum)) in
    (w, omega (arith, sum, total))

-- GetKMemoryStats of a heap of one region: TotalManaged is the size of the heap, which the payloads and
-- the headers make up, and every block is either used or free.
pub memory_stats-Balanced :
    (start : ℕ) (g : Heap)
    → IsRegion start g
    → Balanced (memory_stats g) × ((memory_stats g).total_managed ≡ g.current_size)
unfolding memory_stats
memory_stats-Balanced start g v =
    let (w, total) =
      add_blocks-Balanced g.canary start (start + g.current_size) g.blocks no_blocks v.0
        (record { bytes = refl; blocks = refl }) (omega (arith, v.1)) in
    (w, omega (arith, total))

-- MemoryCallocate asks for the product of its arguments or for nothing: where the product does not fit
-- 64 bits it answers NULLPTR and changes nothing.
pub memory_callocate-overflow :
    (ask : ℕ → ℕ → ℕ) (g : Heap) (count size : ℕ)
    → 0 < count
    → (count * size < 2 ^ 64)
        × (memory_callocate ask g count size ≡ memory_allocate ask g (count * size))
      ⊎ ((2 ^ 64 ≤ count * size) × (memory_callocate ask g count size ≡ some (g, 0)))
unfolding memory_callocate memory_allocate
memory_callocate-overflow ask g count size pos =
    let asked : not (count == 0) ≡ true = rw (ne→== count 0 (omega arith)) refl in
    elim (Bool-cases (ltb ((2 ^ 64 - 1) / count) size)) [
      | inl big ↦ let lt = ltb→lt _ _ big in inr (grind arith, rw (asked, big) refl)
      | inr fits ↦
          let le = ltb→le _ _ fits in
          let whole : count * size < 2 ^ 64 = grind arith in
          let same : count * size % 2 ^ 64 ≡ count * size = omega arith in
          inl (whole, rw (asked, fits, same) (nothing_asked (count * size == 0) _))
    ]
  where
    nothing_asked :
        (c : Bool) (o : Option (Heap × ℕ))
        → (if c then some (g, 0) else (if c then some (g, 0) else o))
          ≡ (if c then some (g, 0) else o)
    nothing_asked true o = refl
    nothing_asked false o = refl

-- MemoryReallocate of a block that is large enough answers the same pointer, copies nothing, and keeps
-- the heap tiled by intact blocks.
pub memory_reallocate-shrinks :
    (ask : ℕ → ℕ → ℕ) (stray : ℕ → BlockHeader) (start : ℕ) (g : Heap) (ptr size : ℕ)
    → (b : BlockHeader) → IsRegion start g
    → ptr ≢ 0
    → 0 < size
    → size < 2 ^ 61
    → header_at g.blocks (payload_header ptr) ≡ some b
    → b.magic ≡ magic
    → align_up size ≤ b.size
    → (r : Reallocation) × (memory_reallocate ask stray g ptr size ≡ some r)
      × (r.ptr ≡ ptr)
      × (r.copied ≡ none)
      × IsRegion start r.heap
unfolding memory_reallocate resize
memory_reallocate-shrinks ask stray start g ptr size b v ne pos lt at intact le =
    let (grain, _, down) = align_up_lem size (omega arith) in
    let good : not (b.magic == magic) ≡ false = rw intact refl in
    (
      record {
        heap = record g {
          blocks = split_block g.canary g.blocks (payload_header ptr) (align_up size);
        };
        ptr = ptr;
        copied = none;
      },
      rw (ne→== ptr 0 ne, ne→== size 0 (omega arith), at, good, le→leb (align_up size) b.size le)
          refl,
      refl,
      refl,
      (
        split_block-Tiles g.canary (start + g.current_size) v.1 start g.blocks (payload_header ptr)
            (align_up size) grain (omega arith) v.0,
        v.1,
      ),
    )
