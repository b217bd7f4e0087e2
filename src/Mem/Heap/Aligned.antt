-- ===== src/Mem/Heap/Aligned.antt =====
-- Kernel/Source/Mem/Allocator.c: MemoryAllocateAligned and MemoryFreeAligned.
--
-- `words` is the memory in front of the payloads, where the pointer of the block is kept, as a function
-- from addresses to the pointers there.
pub mod Blocks
use k_os.Prelude.{
  ℕ, ◌+◌, ◌-◌, ◌%◌, ◌^◌, bit_and, not, ◌&&◌, ◌||◌, Option, none, some, ltb, ◌==◌, if◌then◌else◌,
}
use k_os.Mem.Heap.{
  BlockHeader, Heap, magic, payload_header, header_at, memory_allocate, memory_free,
}

-- The heap, the words and the pointer that is answered.
pub record AlignedBlock : Type 0 where
  pub heap : Heap
  pub words : ℕ → ℕ
  pub ptr : ℕ

abbrev pub store_word : (ℕ → ℕ) → ℕ → ℕ → ℕ → ℕ
store_word words at value n = if n == at then value else words n

-- Behind the pointer that is kept, rounded up.
abbrev pub aligned_addr : ℕ → ℕ → ℕ
aligned_addr alignment original =
    bit_and ((original + 8 + alignment - 1) % 2 ^ 64) (2 ^ 64 - alignment)

abbrev pub keep_pointer : (ℕ → ℕ) → ℕ → Option (Heap × ℕ) → Option AlignedBlock
keep_pointer words alignment none = none
keep_pointer words alignment (some (g, original)) =
    let aligned = aligned_addr alignment original in
    some (
      if original == 0 then record { heap = g; words = words; ptr = 0 } else record {
        heap = g;
        words = store_word words ((aligned + 2 ^ 64 - 8) % 2 ^ 64) original;
        ptr = aligned;
      })

-- `none` where MemoryAllocateLocked does not end.
unfoldable pub allocate_aligned : (ℕ → ℕ → ℕ) → Heap → (ℕ → ℕ) → ℕ → ℕ → Option AlignedBlock
allocate_aligned ask g words size alignment =
    let a = if ltb alignment 8 then 8 else alignment in
    if not (bit_and a (a - 1) == 0)
    then some (record { heap = g; words = words; ptr = 0 })
    else keep_pointer words a (memory_allocate ask g ((size + a + 7) % 2 ^ 64))

-- The heap with what MemoryFreeLocked clears; or the bytes from an address on that SecureMemZero clears in
-- front of it, where they are not those of the payload. It writes outside of the block then, where the next
-- header may stand, and what becomes of the heap is not modelled. `astray` is a header that is no block's and passes the guards.
pub data AlignedFree : Type 0 where
  freed : Heap → Option (ℕ × ℕ) → AlignedFree
  overruns : ℕ → ℕ → AlignedFree
  astray : AlignedFree

abbrev pub freed_by : Option (Heap × Option (ℕ × ℕ)) → AlignedFree
freed_by none = astray
freed_by (some (g, cleared)) = freed g cleared

-- SecureMemZero(Ptr, H->Size), where the guards in front of it hold, and then `rest`.
abbrev pub wiped : ℕ → ℕ → BlockHeader → Option BlockHeader → AlignedFree → AlignedFree
wiped ptr original other none rest =
    if (other.magic == magic) && not other.free then astray else rest
wiped ptr original other (some b) rest =
    if (b.magic == magic) && not b.free
    then (if (ptr == original) || (b.size == 0) then rest else overruns ptr b.size)
    else rest

unfoldable pub free_aligned : (ℕ → BlockHeader) → Heap → (ℕ → ℕ) → ℕ → AlignedFree
free_aligned stray g words ptr =
    let original = words ((ptr + 2 ^ 64 - 8) % 2 ^ 64) in
    let h = payload_header original in
    if ptr == 0
    then freed g none
    else wiped ptr original (stray h) (header_at g.blocks h)
        (freed_by (memory_free stray g original))
