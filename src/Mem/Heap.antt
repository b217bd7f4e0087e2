-- ===== src/Mem/Heap.antt =====
-- Kernel/Source/Mem/Allocator.c: the kernel's heap, a list of blocks with a header before each payload.
--
-- The doubly linked list of headers is a list in link order: HeapHead and HeapTail are its ends, Prev
-- and Next are the neighbours. A header is found by its address. What the bytes in front of a pointer read
-- as where no header of the list stands there is a parameter, `stray`; where such a header passes the
-- guards of MemoryFree or MemoryReallocate, what the call does to memory is not modelled. The heap's lock
-- makes one call a step. The canary, made from registers of the processor, is a field; HeapPhysBase, which
-- nothing reads, is none.
-- PhysAllocAllocateRange is a parameter, `ask`: the address that it answers at its i-th call, 0 for
-- NULLPTR. The bytes of a payload are not modelled: what is cleared or copied is an address and a
-- length.
pub mod Tiling
pub mod Requests
pub mod Freeing
pub mod Api
pub mod Aligned
pub mod Account
mod Tests
use k_os.Prelude.{
  ℕ, zero, suc, ◌+◌, ◌-◌, ◌*◌, ◌/◌, ◌%◌, ◌^◌, Bool, true, false, not, ◌&&◌, Option, none, some,
  List, [], ◌∷◌, ◌++◌, ltb, leb, ◌==◌, if◌then◌else◌,
}
use k_os.Prelude.Words.{align_mask}

pub record BlockHeader : Type 0 where
  pub addr : ℕ
  pub magic : ℕ
  pub canary : ℕ
  pub size : ℕ
  pub free : Bool

pub record Heap : Type 0 where
  pub blocks : List BlockHeader
  pub canary : ℕ
  pub end_virt : ℕ
  pub current_size : ℕ

abbrev pub magic : ℕ
magic = 0xb16b00b5

-- sizeof(BlockHeader) and MIN_SPLIT_SIZE
abbrev pub header : ℕ
header = 48

abbrev pub min_split_size : ℕ
min_split_size = header + 8

abbrev pub heap_max_size : ℕ
heap_max_size = 512 * 1024 * 1024

unfoldable pub align_up : ℕ → ℕ
align_up n = align_mask 3 ((n + 7) % 2 ^ 64)

abbrev pub pages_needed : ℕ → ℕ
pages_needed bytes = (align_up ((bytes + header) % 2 ^ 64) + 4095) % 2 ^ 64 / 4096

-- The new heap, or `none` where HeapExpandLocked answers 0. `answer` is that of PhysAllocAllocateRange.
unfoldable pub heap_expand : (ℕ → ℕ) → Heap → ℕ → Option Heap
heap_expand answer g bytes =
    let grown = pages_needed bytes * 4096 % 2 ^ 64 in
    let virt = answer (pages_needed bytes % 2 ^ 32) in
    if ltb heap_max_size ((g.current_size + grown) % 2 ^ 64)
    then none
    else if virt == 0
    then none
    else some (record {
      blocks =
          g.blocks
          ++ (record {
            addr = virt;
            magic = magic;
            canary = g.canary;
            size = grown - header;
            free = true;
          }
              ∷ []);
      canary = g.canary;
      end_virt = (g.end_virt + grown) % 2 ^ 64;
      current_size = (g.current_size + grown) % 2 ^ 64;
    })

unfoldable pub find_fit : List BlockHeader → ℕ → Option ℕ
find_fit [] size = none
find_fit (b ∷ bs) size =
    let rest = find_fit bs size in if b.free && leb size b.size then some b.addr else rest

-- The block that SplitBlockLocked cuts off the end of another.
abbrev pub cut_off : ℕ → BlockHeader → ℕ → BlockHeader
cut_off canary b req = record {
  addr = b.addr + header + req;
  magic = magic;
  canary = canary;
  size = b.size - req - header;
  free = true;
}

unfoldable pub split_block : ℕ → List BlockHeader → ℕ → ℕ → List BlockHeader
split_block canary [] h req = []
split_block canary (b ∷ bs) h req =
    let rest = split_block canary bs h req in
    if b.addr == h
    then (if ltb b.size ((req + min_split_size) % 2 ^ 64)
        then b ∷ bs
        else record b { size = req } ∷ cut_off canary b req ∷ bs)
    else b ∷ rest

abbrev pub merge : BlockHeader → BlockHeader → BlockHeader
merge p n = record p { size = (p.size + (header + n.size)) % 2 ^ 64 }

-- The first half of CoalesceLocked: the block takes in the next one.
unfoldable pub coalesce_next : List BlockHeader → ℕ → List BlockHeader
coalesce_next [] h = []
coalesce_next (b ∷ []) h = b ∷ []
coalesce_next (b ∷ n ∷ bs) h =
    let rest = coalesce_next (n ∷ bs) h in
    if b.addr == h then (if n.free then merge b n ∷ bs else b ∷ n ∷ bs) else b ∷ rest

-- The second half: the block before it takes it in.
unfoldable pub coalesce_prev : List BlockHeader → ℕ → List BlockHeader
coalesce_prev [] h = []
coalesce_prev (p ∷ []) h = p ∷ []
coalesce_prev (p ∷ b ∷ bs) h =
    let rest = coalesce_prev (b ∷ bs) h in
    if b.addr == h then (if p.free then merge p b ∷ bs else p ∷ b ∷ bs) else p ∷ rest

unfoldable pub coalesce : List BlockHeader → ℕ → List BlockHeader
coalesce bs h = coalesce_prev (coalesce_next bs h) h

-- A write to the header at an address.
unfoldable pub update : List BlockHeader → ℕ → (BlockHeader → BlockHeader) → List BlockHeader
update [] h f = []
update (b ∷ bs) h f = let rest = update bs h f in if b.addr == h then f b ∷ bs else b ∷ rest

unfoldable pub header_at : List BlockHeader → ℕ → Option BlockHeader
header_at [] h = none
header_at (b ∷ bs) h = let rest = header_at bs h in if b.addr == h then some b else rest

abbrev pub claim : ℕ → BlockHeader → BlockHeader
claim canary b = record b { free = false; canary = canary }

-- From the block that fits on: split it, mark it used, answer its payload.
unfoldable pub take_fit : Heap → ℕ → ℕ → Heap × ℕ
take_fit g h size = (
  record g { blocks = update (split_block g.canary g.blocks h size) h (claim g.canary) },
  h + header,
)

-- The loop of MemoryAllocateLocked, on fuel: `none` where the fuel is used up.
unfoldable pub fit_loop : ℕ → (ℕ → ℕ → ℕ) → ℕ → Heap → ℕ → Option (Heap × ℕ)
fit_loop zero ask i g size = none
fit_loop (suc fuel) ask i g size = elim (find_fit g.blocks size) [
  | some h ↦ some (take_fit g h size)
  | none ↦ elim (heap_expand (ask i) g size) [
    | none ↦ some (g, 0)
    | some g' ↦ fit_loop fuel ask (suc i) g' size
  ]
]

-- Two rounds: the heap grows at most once for a request.
unfoldable pub memory_allocate : (ℕ → ℕ → ℕ) → Heap → ℕ → Option (Heap × ℕ)
memory_allocate ask g size = if size == 0 then some (g, 0) else fit_loop 2 ask 0 g (align_up size)

abbrev pub release : BlockHeader → BlockHeader
release b = record b { free = true }

-- PayloadToHeader
abbrev pub payload_header : ℕ → ℕ
payload_header ptr = (ptr + 2 ^ 64 - header) % 2 ^ 64

-- The guards of MemoryFreeLocked let the header pass.
abbrev pub is_freeable : Heap → BlockHeader → Bool
is_freeable g b = (b.magic == magic) && ((b.canary == g.canary) && not b.free)

-- From the guards on, for a header of the list, with the address and length that are cleared.
unfoldable pub free_header : Heap → ℕ → BlockHeader → Heap × Option (ℕ × ℕ)
free_header g ptr b =
    let h = payload_header ptr in
    if is_freeable g b
    then (record g { blocks = coalesce (update g.blocks h release) h }, some (ptr, b.size))
    else (g, none)

-- What stands there otherwise: `none` where it passes the guards.
unfoldable pub free_stray : Heap → BlockHeader → Option (Heap × Option (ℕ × ℕ))
free_stray g b = if is_freeable g b then none else some (g, none)

abbrev pub free_found : Heap → ℕ → BlockHeader → Option BlockHeader → Option (Heap × Option (ℕ × ℕ))
free_found g ptr other none = free_stray g other
free_found g ptr other (some b) = some (free_header g ptr b)

unfoldable pub memory_free : (ℕ → BlockHeader) → Heap → ℕ → Option (Heap × Option (ℕ × ℕ))
memory_free stray g ptr =
    let h = payload_header ptr in
    if ptr == 0 then some (g, none) else free_found g ptr (stray h) (header_at g.blocks h)
