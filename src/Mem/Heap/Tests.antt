-- ===== src/Mem/Heap/Tests.antt =====
-- A heap of 1,024 bytes with a used block of 96 bytes in front.
use k_os.Prelude.{ℕ, ◌+◌, ◌≤◌, ◌≡◌, refl, ◌⊎◌, inl, inr, true, false, none, some, [], ◌∷◌, arith}
use k_os.Mem.Heap.{
  BlockHeader, Heap, magic, coalesce, coalesce_next, coalesce_prev, update, header_at,
  memory_allocate, free_header, memory_free,
}
use k_os.Mem.Heap.Freeing.{Ignored, Passes, Fails, IsReleased, memory_free_lem}
use k_os.Mem.Heap.Requests.{IsRegion, SomeFree, memory_allocate-found}

abbrev in_front : BlockHeader
in_front = record { addr = 0x10000; magic = magic; canary = 7; size = 96; free = false }

abbrev behind : BlockHeader
behind = record { addr = 0x10090; magic = magic; canary = 7; size = 832; free = true }

abbrev small_heap : Heap
small_heap = record {
  blocks = in_front ∷ behind ∷ [];
  canary = 7;
  end_virt = 0x10400;
  current_size = 1024;
}

small_heap-IsRegion : IsRegion 0x10000 small_heap
small_heap-IsRegion = (
  (
    record { here = refl; grain = refl; magic_intact = refl; canary_intact = refl },
    (record { here = refl; grain = refl; magic_intact = refl; canary_intact = refl }, refl),
  ),
  omega arith,
)

-- Giving the block in front back leaves one free block.
one_block :
    memory_free (λ a. in_front) small_heap 0x10030
    ≡ some (
      record small_heap { blocks = (record in_front { size = 976; free = true }) ∷ [] },
      some (0x10030, 96),
    )
unfolding memory_free free_header header_at update coalesce coalesce_next coalesce_prev
one_block = refl

-- A second region that does not follow the first: the merged block takes in memory between them.
abbrev far : BlockHeader
far = record { addr = 0x50000; magic = magic; canary = 7; size = 4048; free = true }

runs_over :
    coalesce_next (record in_front { free = true } ∷ far ∷ []) 0x10000
    ≡ (record in_front { size = 96 + 48 + 4048; free = true }) ∷ []
unfolding coalesce_next
runs_over = refl

-- Bytes that are no header.
abbrev blank : ℕ → BlockHeader
blank a = record { addr = a; magic = 0; canary = 0; size = 0; free = false }

memory_free_example :
    ((◌≡◌ {A = ℕ} 0x10030 0) × Ignored blank 0x10000 small_heap 0x10030)
    ⊎ (((b : BlockHeader) × (header_at small_heap.blocks 0x10000 ≡ some b)
          × (((b.free ≡ true) × Ignored blank 0x10000 small_heap 0x10030)
              ⊎ ((b.free ≡ false)
                  × ((g' : Heap) × IsReleased blank 0x10000 small_heap 0x10030 b g'))))
        ⊎ ((header_at small_heap.blocks 0x10000 ≡ none)
            × ((Fails blank 0x10000 small_heap 0x10030 (blank 0x10000)
                  × Ignored blank 0x10000 small_heap 0x10030)
                ⊎ Passes blank 0x10000 small_heap 0x10030 (blank 0x10000))))
memory_free_example = memory_free_lem blank 0x10000 small_heap 0x10030 small_heap-IsRegion

one_is_free : (n : ℕ) → n ≤ 832 → SomeFree small_heap.blocks n
unfolding SomeFree
one_is_free n le = inr (inl (refl, le))

memory_allocate-found_example :
    (h : ℕ) × (g' : Heap) × (memory_allocate (λ i pages. 0) small_heap 100 ≡ some (g', h + 48))
    × IsRegion 0x10000 g'
    × ((b : BlockHeader) × (header_at g'.blocks h ≡ some b) × (b.free ≡ false) × (100 ≤ b.size))
    × ((x : ℕ) (u : BlockHeader)
        → header_at small_heap.blocks x ≡ some u
        → u.free ≡ false
        → header_at g'.blocks x ≡ some u)
memory_allocate-found_example =
    memory_allocate-found (λ i pages. 0) 0x10000 small_heap 100 small_heap-IsRegion (omega arith)
      (omega arith) (one_is_free 100 (omega arith))
