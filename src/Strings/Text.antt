-- ===== src/Strings/Text.antt =====
-- Kernel/Source/Lib/String.c, the functions on strings that they only read, MemCmp and MemMem.
--
-- A pointer to a string is the list of the characters from there up to its terminator, which is read
-- behind them; characters are bytes. Incrementing the pointer is taking the tail. A block is the list of
-- its bytes. A pointer into a string is its index, `none` for NULLPTR.
pub mod Compare
pub mod Search
pub mod Numbers
pub mod Reverse
pub mod Tokens
pub mod RoundTrip
mod Tests
use k_os.Prelude.{
  ℕ, zero, suc, ◌+◌, ◌-◌, ◌%◌, ◌^◌, Bool, true, false, not, ◌&&◌, Option, none, some, List, [], ◌∷◌,
  ltb, leb, ◌==◌, if◌then◌else◌, length,
}
use k_os.Prelude.Ints.{ℤ, pos, negsuc, sub_int, neg}

-- *S
abbrev pub head : List ℕ → ℕ
head [] = 0
head (c ∷ s) = c

-- S + 1
abbrev pub tail : List ℕ → List ℕ
tail [] = []
tail (c ∷ s) = s

-- for (I = 0; I < Num; I++)
unfoldable pub mem_cmp : List ℕ → List ℕ → ℕ → ℤ
mem_cmp a b zero = pos 0
mem_cmp [] b (suc n) = pos 0
mem_cmp (x ∷ a) [] (suc n) = pos 0
mem_cmp (x ∷ a) (y ∷ b) (suc n) =
    let rest = mem_cmp a b n in if not (x == y) then sub_int x y else rest

-- Whether the block starts with the other, the loop over J of MemMem.
unfoldable pub starts_with : List ℕ → List ℕ → Bool
starts_with h [] = true
starts_with [] (y ∷ n) = false
starts_with (x ∷ h) (y ∷ n) = let rest = starts_with h n in if not (x == y) then false else rest

-- The loop over I, with the number of rounds that are left.
unfoldable pub mem_mem_loop : ℕ → ℕ → List ℕ → List ℕ → Option ℕ
mem_mem_loop zero i h n = none
mem_mem_loop (suc rounds) i h n =
    let rest = mem_mem_loop rounds (suc i) (tail h) n in if starts_with h n then some i else rest

unfoldable pub mem_mem : List ℕ → List ℕ → Option ℕ
mem_mem h n =
    if length n == 0
    then some 0
    else if ltb (length h) (length n)
    then none
    else mem_mem_loop (length h - length n + 1) 0 h n

unfoldable pub str_len : List ℕ → ℕ
str_len [] = 0
str_len (c ∷ s) = let rest = str_len s in if not (c == 0) then suc rest else 0

unfoldable pub str_cmp : List ℕ → List ℕ → ℤ
str_cmp [] b = sub_int 0 (head b)
str_cmp (x ∷ a) [] = sub_int x 0
str_cmp (x ∷ a) (y ∷ b) =
    let rest = str_cmp a b in if x == y && not (x == 0) then rest else sub_int x y

-- 'A' is 65, 'Z' is 90 and 'a' is 97.
unfoldable pub str_case_fold : ℕ → ℕ
str_case_fold c = if leb b'A' c && leb c b'Z' then c + (b'a' - b'A') else c

-- StrCaseCmp of pointers that are not NULL.
unfoldable pub str_case_cmp : List ℕ → List ℕ → ℤ
str_case_cmp [] b = sub_int (str_case_fold 0) (str_case_fold (head b))
str_case_cmp (x ∷ a) [] = sub_int (str_case_fold x) (str_case_fold 0)
str_case_cmp (x ∷ a) (y ∷ b) =
    let rest = str_case_cmp a b in
    if str_case_fold x == str_case_fold y && not (x == 0)
    then rest
    else sub_int (str_case_fold x) (str_case_fold y)

unfoldable pub strn_cmp : List ℕ → List ℕ → ℕ → ℤ
strn_cmp a b zero = pos 0
strn_cmp [] b (suc n) = if not (0 == head b) then sub_int 0 (head b) else pos 0
strn_cmp (x ∷ a) [] (suc n) = if not (x == 0) then sub_int x 0 else pos 0
strn_cmp (x ∷ a) (y ∷ b) (suc n) =
    let rest = strn_cmp a b n in
    if not (x == y) then sub_int x y else if x == 0 then pos 0 else rest

-- 1 where the names are equal.
unfoldable pub name_eq : List ℕ → List ℕ → ℕ → ℕ
name_eq a b zero = 1
name_eq [] b (suc n) = if head b == 0 then 1 else 0
name_eq (x ∷ a) [] (suc n) = if x == 0 then 1 else 0
name_eq (x ∷ a) (y ∷ b) (suc n) =
    let rest = name_eq a b n in if x == 0 && y == 0 then 1 else if not (x == y) then 0 else rest

-- The index of the character from an index on.
unfoldable pub str_chr_from : ℕ → List ℕ → ℕ → Option ℕ
str_chr_from i [] c = if c == 0 then some i else none
str_chr_from i (x ∷ s) c = let rest = str_chr_from (suc i) s c in if x == c then some i else rest

-- `(CHAR)C`
abbrev pub str_chr : List ℕ → ℕ → Option ℕ
str_chr s c = str_chr_from 0 s (c % 2 ^ 8)

-- The loop over I of StrStr. The loop over J starts behind the first character.
unfoldable pub str_str_loop : ℕ → ℕ → List ℕ → List ℕ → Option ℕ
str_str_loop zero i h n = none
str_str_loop (suc rounds) i [] n = none
str_str_loop (suc rounds) i (x ∷ h) n =
    let rest = str_str_loop rounds (suc i) h n in
    if not (x == head n) then rest else if starts_with h (tail n) then some i else rest

-- StrStr of pointers that are not NULL.
unfoldable pub str_str : List ℕ → List ℕ → Option ℕ
str_str h n =
    if head n == 0
    then some 0
    else if ltb (str_len h) (str_len n)
    then none
    else str_str_loop (str_len h - str_len n + 1) 0 h n
