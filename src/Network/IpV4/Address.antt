-- ===== src/Network/IpV4/Address.antt =====
-- Kernel/Source/Network/IpV4.c: addresses as text, and the kinds of addresses. A string is the list of its
-- characters.
pub mod RoundTrip
use k_os.Strings.Text.Numbers.{is_digit}
use k_os.Prelude.{
  ℕ, ◌+◌, ◌-◌, ◌*◌, ◌/◌, ◌%◌, ◌^◌, Bool, true, false, not, ◌||◌, Option, none, some, List, [], ◌∷◌,
  ◌++◌, ltb, leb, ◌==◌, if◌then◌else◌, length, get_or,
}

-- Octets[0 .. I), Val and HaveDigit.
pub record Parse : Type 0 where
  pub octets : List ℕ
  pub val : ℕ
  pub have_digit : Bool

-- A round of the loop; `none` is `return 0`.
unfoldable pub parse_char : Parse → ℕ → Option Parse
parse_char p c =
    let val = (p.val * 10 + (c - b'0')) % 2 ^ 32 in
    if is_digit c
    then (if ltb 255 val then none else some (record p { val = val; have_digit = true }))
    else if c == b'.'
    then (if not p.have_digit
        then none
        else some (record { octets = p.octets ++ (p.val ∷ []); val = 0; have_digit = false }))
    else none

unfoldable pub parse_loop : Parse → List ℕ → Option Parse
parse_loop p [] = some p
parse_loop p (c ∷ cs) =
    if ltb (length p.octets) 4
    then elim (parse_char p c) [ none ↦ none | some q ↦ parse_loop q cs ]
    else some p

abbrev nothing_yet : Parse
nothing_yet = record { octets = []; val = 0; have_digit = false }

-- The parts of the result have no bit in common, so that `|` adds them.
abbrev pub address_of : Option Parse → ℕ
address_of none = 0
address_of (some p) =
    if not (length p.octets == 3) || not p.have_digit
    then 0
    else get_or p.octets 0 0 % 2 ^ 8 * 2 ^ 24
      + get_or p.octets 1 0 % 2 ^ 8 * 2 ^ 16
      + get_or p.octets 2 0 % 2 ^ 8 * 2 ^ 8
      + p.val % 2 ^ 8

-- `Str` is not NULL.
unfoldable pub ip_pton : List ℕ → ℕ
ip_pton s = address_of (parse_loop nothing_yet s)

-- The digits of one number.
unfoldable pub octet_chars : ℕ → List ℕ
octet_chars o =
    (if leb 100 o then (b'0' + o / 100) ∷ [] else [])
    ++ ((if leb 10 o then (b'0' + o / 10 % 10) ∷ [] else []) ++ ((b'0' + o % 10) ∷ []))

-- What is written to Buf, in front of the NUL; `none` is a buffer of less than 16 characters.
unfoldable pub ip_ntop : ℕ → ℕ → Option (List ℕ)
ip_ntop addr size =
    if ltb size 16
    then none
    else some (
        octet_chars (addr / 2 ^ 24 % 2 ^ 8)
        ++ (b'.'
            ∷ (octet_chars (addr / 2 ^ 16 % 2 ^ 8)
                ++ (b'.'
                    ∷ (octet_chars (addr / 2 ^ 8 % 2 ^ 8)
                        ++ (b'.' ∷ octet_chars (addr % 2 ^ 8)))))))

-- (Addr >> 24) & 0xF0: the high half of the first octet.
unfoldable pub is_multicast : ℕ → Bool
is_multicast addr = addr / 2 ^ 28 * 2 ^ 4 == 0xE0

unfoldable pub is_broadcast : ℕ → Bool
is_broadcast addr = addr == 0xFFFFFFFF

unfoldable pub is_loopback : ℕ → Bool
is_loopback addr = addr / 2 ^ 24 == 127
