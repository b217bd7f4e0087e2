-- ===== src/Strings/Text/Numbers.antt =====
-- Kernel/Source/Lib/String.c: numbers as digits, and back.
use k_os.Prelude.{
  ℕ, zero, suc, ◌+◌, ◌-◌, ◌*◌, ◌/◌, ◌%◌, ◌^◌, bit_or, Bool, ◌&&◌, ◌||◌, List, [], ◌∷◌, ltb, leb,
  ◌==◌, if◌then◌else◌, length, get_or, set,
}
use k_os.Strings.Text.{head, tail}

-- The table "0123456789abcdefghijklmnopqrstuvwxyz".
abbrev pub digit : ℕ → ℕ
digit d = if ltb d 10 then b'0' + d else b'a' + (d - 10)

-- The do-while loop of UToA: the digits from the lowest on. A number has fewer digits than its value plus
-- one.
unfoldable pub emit : ℕ → ℕ → ℕ → List ℕ
emit zero value base = []
emit (suc fuel) value base =
    let rest = emit fuel (value / base) base in
    if value / base == 0 then digit (value % base) ∷ [] else digit (value % base) ∷ rest

-- TmpChar = *Ptr; *Ptr-- = *Ptr1; *Ptr1++ = TmpChar;
abbrev pub exchange : ℕ → ℕ → List ℕ → List ℕ
exchange i j s = set (set s j (get_or s i 0)) i (get_or s j 0)

-- while (Ptr1 < Ptr)
unfoldable pub reverse_loop : ℕ → ℕ → ℕ → List ℕ → List ℕ
reverse_loop zero i j s = s
reverse_loop (suc fuel) i j s =
    let rest = reverse_loop fuel (suc i) (j - 1) (exchange i j s) in if ltb i j then rest else s

-- The string that UToA leaves at Str.
unfoldable pub u_to_a : ℕ → ℕ → List ℕ
u_to_a value base =
    let digits = emit (suc value) value base in
    if ltb base 2 || ltb 36 base
    then []
    else reverse_loop (length digits) 0 (length digits - 1) digits

-- while (*Str == ' ' || *Str == '\t') Str++;
unfoldable pub skip_spaces : List ℕ → List ℕ
skip_spaces [] = []
skip_spaces (c ∷ s) = let rest = skip_spaces s in if c == b' ' || c == 9 then rest else c ∷ s

abbrev pub is_digit : ℕ → Bool
is_digit c = leb b'0' c && leb c b'9'

-- while (*Str >= '0' && *Str <= '9'): Result as the bits of an INT of `w` bits.
unfoldable pub read_digits : ℕ → List ℕ → ℕ → ℕ
read_digits w [] result = result
read_digits w (c ∷ s) result =
    let rest = read_digits w s ((result * 10 + (c - b'0')) % 2 ^ w) in
    if is_digit c then rest else result

-- `Result * Sign`, as bits.
abbrev pub negated : ℕ → ℕ → ℕ
negated w r = (2 ^ w - r) % 2 ^ w

-- Sign Processing and the digits; `w` is 32 for AToI and 64 for AToL.
unfoldable pub read_signed : ℕ → List ℕ → ℕ
read_signed w s =
    if head s == b'-'
    then negated w (read_digits w (tail s) 0)
    else if head s == b'+'
    then read_digits w (tail s) 0
    else read_digits w s 0

-- AToI of a pointer that is not NULL: the bits of its INT, wrapping around where a sum overflows.
unfoldable pub a_to_i : List ℕ → ℕ
a_to_i s = read_signed 32 (skip_spaces s)

unfoldable pub a_to_l : List ℕ → ℕ
a_to_l s = read_signed 64 (skip_spaces s)

-- 0xFF is the error marker.
unfoldable pub char_to_hex_digit : ℕ → ℕ
char_to_hex_digit c =
    if leb b'0' c && leb c b'9'
    then c - b'0'
    else if leb b'A' c && leb c b'F'
    then c - b'A' + 10
    else if leb b'a' c && leb c b'f'
    then c - b'a' + 10
    else 0xff

unfoldable pub skip_blanks : List ℕ → List ℕ
skip_blanks [] = []
skip_blanks (c ∷ s) = let rest = skip_blanks s in if c == b' ' then rest else c ∷ s

abbrev skip_prefix : List ℕ → List ℕ
skip_prefix s =
    if head s == b'0' && (head (tail s) == b'x' || head (tail s) == b'X') then tail (tail s) else s

abbrev two_digits : ℕ → ℕ → ℕ
two_digits high low = if high == 0xff || low == 0xff then 0 else bit_or (high * 2 ^ 4) low % 2 ^ 8

unfoldable pub a_to_hex : List ℕ → ℕ
a_to_hex s =
    let digits = skip_prefix (skip_blanks s) in
    two_digits (char_to_hex_digit (head digits)) (char_to_hex_digit (head (tail digits)))
