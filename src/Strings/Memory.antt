-- ===== src/Strings/Memory.antt =====
-- Kernel/Source/Lib/String.c, the functions on blocks of memory.
--
-- Memory is a function from addresses to bytes; a function that writes gives the new memory. Addresses
-- are numbers that do not wrap: a block that ends beyond the last address is no block of C. MemCpy is the
-- branch for x86, `rep movsb` with the direction flag clear.
pub mod Blocks
pub mod Moves
pub mod Fills
mod Tests
use k_os.Prelude.{
  ℕ, zero, suc, ◌+◌, ◌-◌, ◌*◌, ◌/◌, ◌%◌, ◌^◌, bit_and, bit_or, Bool, ◌&&◌, ◌||◌, ltb, leb, ◌==◌,
  if◌then◌else◌,
}

abbrev pub Memory : Type 0
Memory = ℕ → ℕ

-- Whether an address lies in the `n` bytes from `d` on.
abbrev pub inside : ℕ → ℕ → ℕ → Bool
inside d n x = leb d x && ltb x (d + n)

-- A load of `w` bytes followed by a store of them: `*Dst = *Src` on a byte or on a word.
abbrev pub store : ℕ → ℕ → ℕ → Memory → Memory
store w dst src m = λ x. if inside dst w x then m (src + (x - dst)) else m x

-- What the loops of MemMove hand on: the memory, the pointers and N.
pub record Cursor : Type 0 where
  pub memory : Memory
  pub dst : ℕ
  pub src : ℕ
  pub left : ℕ

-- `(UINTPTR)Dst & (Word - 1)`
abbrev pub is_aligned : ℕ → Bool
is_aligned p = bit_and p 7 == 0

-- while (N && (Dst & (Word - 1))) { *Dst++ = *Src++; --N; }
unfoldable pub align_up_loop : ℕ → Cursor → Cursor
align_up_loop zero c = c
align_up_loop (suc n) c =
    let rest = align_up_loop n (record {
      memory = store 1 c.dst c.src c.memory;
      dst = c.dst + 1;
      src = c.src + 1;
      left = c.left - 1;
    }) in
    if is_aligned c.dst then c else rest

-- while (N >= Word) { *Dw++ = *Sw++; N -= Word; }
unfoldable pub word_up_loop : ℕ → Cursor → Cursor
word_up_loop zero c = c
word_up_loop (suc fuel) c =
    let rest = word_up_loop fuel (record {
      memory = store 8 c.dst c.src c.memory;
      dst = c.dst + 8;
      src = c.src + 8;
      left = c.left - 8;
    }) in
    if leb 8 c.left then rest else c

-- while (N--) *Dst++ = *Src++;
unfoldable pub byte_up_loop : ℕ → Cursor → Cursor
byte_up_loop zero c = c
byte_up_loop (suc n) c = byte_up_loop n (record {
  memory = store 1 c.dst c.src c.memory;
  dst = c.dst + 1;
  src = c.src + 1;
  left = c.left - 1;
})

-- The same three loops downwards, `*--Dst = *--Src`.
unfoldable pub align_down_loop : ℕ → Cursor → Cursor
align_down_loop zero c = c
align_down_loop (suc n) c =
    let rest = align_down_loop n (record {
      memory = store 1 (c.dst - 1) (c.src - 1) c.memory;
      dst = c.dst - 1;
      src = c.src - 1;
      left = c.left - 1;
    }) in
    if is_aligned c.dst then c else rest

unfoldable pub word_down_loop : ℕ → Cursor → Cursor
word_down_loop zero c = c
word_down_loop (suc fuel) c =
    let rest = word_down_loop fuel (record {
      memory = store 8 (c.dst - 8) (c.src - 8) c.memory;
      dst = c.dst - 8;
      src = c.src - 8;
      left = c.left - 8;
    }) in
    if leb 8 c.left then rest else c

unfoldable pub byte_down_loop : ℕ → Cursor → Cursor
byte_down_loop zero c = c
byte_down_loop (suc n) c = byte_down_loop n (record {
  memory = store 1 (c.dst - 1) (c.src - 1) c.memory;
  dst = c.dst - 1;
  src = c.src - 1;
  left = c.left - 1;
})

-- The three loops one after the other. There are at most as many rounds as bytes.
unfoldable pub copy_up : Cursor → Memory
copy_up c =
    let aligned = align_up_loop c.left c in
    let words = word_up_loop aligned.left aligned in (byte_up_loop words.left words).memory

unfoldable pub copy_down : Cursor → Memory
copy_down c =
    let aligned = align_down_loop c.left c in
    let words = word_down_loop aligned.left aligned in (byte_down_loop words.left words).memory

unfoldable pub mem_move : Memory → ℕ → ℕ → ℕ → Memory
mem_move m dst src n =
    if n == 0 || dst == src
    then m
    else if ltb dst src
    then copy_up (record { memory = m; dst = dst; src = src; left = n })
    else copy_down (record { memory = m; dst = dst + n; src = src + n; left = n })

-- The copy of N bytes by `rep movsb`.
unfoldable pub mem_cpy : Memory → ℕ → ℕ → ℕ → Memory
mem_cpy m dst src n =
    if n == 0 || dst == src
    then m
    else (byte_up_loop n (record { memory = m; dst = dst; src = src; left = n })).memory

-- A store of the `w` lowest bytes of a number, the lowest first.
abbrev pub put : ℕ → ℕ → ℕ → Memory → Memory
put w dst value m = λ x. if inside dst w x then value / 2 ^ (8 * (x - dst)) % 2 ^ 8 else m x

-- Word = Val; Word |= Word << 8; Word |= Word << 16; Word |= Word << 32;
unfoldable pub fill_word : ℕ → ℕ
fill_word value =
    let two = bit_or value (value * 2 ^ 8) in
    let four = bit_or two (two * 2 ^ 16) in bit_or four (four * 2 ^ 32)

-- The loops of MemSet: memory, pointer and N.
pub record Fill : Type 0 where
  pub memory : Memory
  pub at : ℕ
  pub left : ℕ

unfoldable pub fill_align_loop : ℕ → ℕ → Fill → Fill
fill_align_loop value zero f = f
fill_align_loop value (suc n) f =
    let rest =
      fill_align_loop value n
        (record { memory = put 1 f.at value f.memory; at = f.at + 1; left = f.left - 1 }) in
    if is_aligned f.at then f else rest

unfoldable pub fill_word_loop : ℕ → ℕ → Fill → Fill
fill_word_loop value zero f = f
fill_word_loop value (suc fuel) f =
    let rest = fill_word_loop value fuel (record {
      memory = put 8 f.at (fill_word value) f.memory;
      at = f.at + 8;
      left = f.left - 8;
    }) in
    if leb 8 f.left then rest else f

unfoldable pub fill_byte_loop : ℕ → ℕ → Fill → Fill
fill_byte_loop value zero f = f
fill_byte_loop value (suc n) f =
    fill_byte_loop value n
      (record { memory = put 1 f.at value f.memory; at = f.at + 1; left = f.left - 1 })

-- Val is C cut to a byte.
unfoldable pub mem_set : Memory → ℕ → ℕ → ℕ → Memory
mem_set m s c n =
    let value = c % 2 ^ 8 in
    let aligned = fill_align_loop value n (record { memory = m; at = s; left = n }) in
    let words = fill_word_loop value aligned.left aligned in
    (fill_byte_loop value words.left words).memory

-- SecureMemZero
unfoldable pub secure_mem_zero : Memory → ℕ → ℕ → Memory
secure_mem_zero m p n = (fill_byte_loop 0 n (record { memory = m; at = p; left = n })).memory
