-- ===== src/Mem/Heap/Api.antt =====
-- The rest of Kernel/Source/Mem/Allocator.c: initialisation, reallocation, zeroed memory, statistics.
use k_os.Prelude.{
  ℕ, ◌+◌, ◌-◌, ◌*◌, ◌/◌, ◌%◌, ◌^◌, true, not, ◌&&◌, Option, none, some, List, [], ◌∷◌, ltb, leb,
  ◌==◌, if◌then◌else◌,
}
use k_os.Mem.Heap.{
  BlockHeader, Heap, magic, header, payload_header, align_up, split_block, header_at,
  memory_allocate, memory_free,
}

abbrev pub heap_initial_size : ℕ
heap_initial_size = 16 * 1024 * 1024

-- One free block over the initial pages.
abbrev pub first_heap : ℕ → ℕ → Heap
first_heap canary answer = record {
  blocks =
      record {
        addr = answer;
        magic = magic;
        canary = canary;
        size = heap_initial_size - header;
        free = true;
      }
      ∷ [];
  canary = canary;
  end_virt = (answer + heap_initial_size) % 2 ^ 64;
  current_size = heap_initial_size;
}

-- `answer` is that of PhysAllocAllocateRange for the initial pages; `none` is INCORRECT_VALUE.
unfoldable pub allocator_init : ℕ → ℕ → Option Heap
allocator_init canary answer = if answer == 0 then none else some (first_heap canary answer)

-- The new heap, the pointer, and the bytes that MemCpy copies: to, from and how many.
pub record Reallocation : Type 0 where
  pub heap : Heap
  pub ptr : ℕ
  pub copied : Option (ℕ × ℕ × ℕ)

-- The old block is given back.
abbrev after_free : ℕ → Option (ℕ × ℕ × ℕ) → Option (Heap × Option (ℕ × ℕ)) → Option Reallocation
after_free new copied none = none
after_free new copied (some (g, cleared)) = some (record { heap = g; ptr = new; copied = copied })

abbrev moved_to : (ℕ → BlockHeader) → ℕ → ℕ → Option (Heap × ℕ) → Option Reallocation
moved_to stray ptr size none = none
moved_to stray ptr size (some (g, new)) =
    if new == 0
    then some (record { heap = g; ptr = 0; copied = none })
    else after_free new (some (new, ptr, size)) (memory_free stray g ptr)

abbrev allocated : Option (Heap × ℕ) → Option Reallocation
allocated none = none
allocated (some (g, new)) = some (record { heap = g; ptr = new; copied = none })

-- MemoryReallocateLocked, from the test of the magic number on.
unfoldable pub resize :
    (ℕ → ℕ → ℕ) → (ℕ → BlockHeader) → Heap → ℕ → ℕ → Option BlockHeader → Option Reallocation
resize ask stray g ptr size none =
    if not ((stray (payload_header ptr)).magic == magic)
    then some (record { heap = g; ptr = 0; copied = none })
    else none
resize ask stray g ptr size (some b) =
    if not (b.magic == magic)
    then some (record { heap = g; ptr = 0; copied = none })
    else if leb (align_up size) b.size
    then some (record {
      heap = record g {
        blocks = split_block g.canary g.blocks (payload_header ptr) (align_up size);
      };
      ptr = ptr;
      copied = none;
    })
    else moved_to stray ptr b.size (memory_allocate ask g (align_up size))

-- `none` where MemoryAllocate does not end, or where what stands in front of the pointer is no block of
-- the list and passes the guards.
unfoldable pub memory_reallocate :
    (ℕ → ℕ → ℕ) → (ℕ → BlockHeader) → Heap → ℕ → ℕ → Option Reallocation
memory_reallocate ask stray g ptr size =
    if ptr == 0
    then allocated (memory_allocate ask g size)
    else if size == 0
    then after_free 0 none (memory_free stray g ptr)
    else resize ask stray g ptr size (header_at g.blocks (payload_header ptr))

-- MemoryCallocate: the guard is `Size > SIZE_MAX / NMemB`.
unfoldable pub memory_callocate : (ℕ → ℕ → ℕ) → Heap → ℕ → ℕ → Option (Heap × ℕ)
memory_callocate ask g count size =
    if not (count == 0) && ltb ((2 ^ 64 - 1) / count) size
    then some (g, 0)
    else if count * size % 2 ^ 64 == 0
    then some (g, 0)
    else memory_allocate ask g (count * size % 2 ^ 64)

pub record KMemoryStats : Type 0 where
  pub total_managed : ℕ
  pub used_payload : ℕ
  pub free_payload : ℕ
  pub largest_free : ℕ
  pub num_blocks : ℕ
  pub num_used : ℕ
  pub num_free : ℕ

-- The body of the loop of GetKMemoryStats.
unfoldable pub add_block : KMemoryStats → BlockHeader → KMemoryStats
add_block s b =
    let counted = record s {
      num_blocks = (s.num_blocks + 1) % 2 ^ 64;
      total_managed = (s.total_managed + (header + b.size)) % 2 ^ 64;
    } in
    if b.free
    then record counted {
      num_free = (s.num_free + 1) % 2 ^ 64;
      free_payload = (s.free_payload + b.size) % 2 ^ 64;
      largest_free = if ltb s.largest_free b.size then b.size else s.largest_free;
    }
    else record counted {
      num_used = (s.num_used + 1) % 2 ^ 64;
      used_payload = (s.used_payload + b.size) % 2 ^ 64;
    }

unfoldable pub add_blocks : KMemoryStats → List BlockHeader → KMemoryStats
add_blocks s [] = s
add_blocks s (b ∷ bs) = add_blocks (add_block s b) bs

abbrev pub no_blocks : KMemoryStats
no_blocks = record {
  total_managed = 0;
  used_payload = 0;
  free_payload = 0;
  largest_free = 0;
  num_blocks = 0;
  num_used = 0;
  num_free = 0;
}

unfoldable pub memory_stats : Heap → KMemoryStats
memory_stats g = add_blocks no_blocks g.blocks
