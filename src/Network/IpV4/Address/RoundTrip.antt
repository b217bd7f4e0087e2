-- ===== src/Network/IpV4/Address/RoundTrip.antt =====
-- Kernel/Source/Network/IpV4.c: IpV4PTon of what IpV4NTop writes.
use k_os.Prelude.{
  ℕ, ◌+◌, ◌-◌, ◌*◌, ◌/◌, ◌%◌, ◌^◌, ◌≤◌, ◌<◌, ◌≡◌, refl, sym, ap, ◌∙◌, inl, inr, true, false, some,
  List, [], ◌∷◌, ◌++◌, arith, leb, lt→ltb, le→ltb, leb→le, leb→lt, Bool-cases, length,
}
use k_os.Network.IpV4.Address.{
  Parse, parse_char, parse_loop, octet_chars, ip_ntop, ip_pton, address_of,
}

abbrev begun : List ℕ → ℕ → Parse
begun octets val = record { octets = octets; val = val; have_digit = true }

abbrev empty : List ℕ → Parse
empty octets = record { octets = octets; val = 0; have_digit = false }

at_most : (a n : ℕ) → leb a (a + n) ≡ true
at_most a n = ground arith

-- A digit behind what has been read.
digit_lem :
    (p : Parse) (n : ℕ) (cs : List ℕ)
    → length p.octets < 4
    → n < 10
    → p.val * 10 + n < 256
    → parse_loop p ((b'0' + n) ∷ cs) ≡ parse_loop (begun p.octets (p.val * 10 + n)) cs
unfolding parse_loop parse_char
digit_lem p n cs few digit small =
    let in_range = lt→ltb (length p.octets) 4 few in
    let low = at_most b'0' n in
    let high : leb (b'0' + n) b'9' ≡ true = ground arith in
    let value : (p.val * 10 + (b'0' + n - b'0')) % 2 ^ 32 ≡ p.val * 10 + n = omega (arith, small) in
    let byte = le→ltb 255 (p.val * 10 + n) (omega (arith, small)) in
    rw (in_range, low, high, value, byte) refl

dot_lem :
    (octets : List ℕ) (val : ℕ) (cs : List ℕ)
    → length octets < 4
    → parse_loop (begun octets val) (b'.' ∷ cs) ≡ parse_loop (empty (octets ++ (val ∷ []))) cs
unfolding parse_loop parse_char
dot_lem octets val cs few = rw (lt→ltb (length octets) 4 few) refl

octet_lem :
    (octets : List ℕ) (o : ℕ) (cs : List ℕ)
    → length octets < 4
    → o < 256
    → parse_loop (empty octets) (octet_chars o ++ cs) ≡ parse_loop (begun octets o) cs
unfolding octet_chars
octet_lem octets o cs few small = elim (Bool-cases (leb 100 o)) [
  | inl y ↦
      let le = leb→le 100 o y in
      let ten : leb 10 o ≡ true = ground arith in
      rw (y, ten)
        (digit_lem (empty octets) (o / 100) ((b'0' + o / 10 % 10) ∷ (b'0' + o % 10) ∷ cs) few
            (omega (arith, small)) (omega (arith, small))
          ∙ digit_lem (begun octets (0 * 10 + o / 100)) (o / 10 % 10) ((b'0' + o % 10) ∷ cs) few
              (omega arith) (omega (arith, small))
          ∙ digit_lem (begun octets ((0 * 10 + o / 100) * 10 + o / 10 % 10)) (o % 10) cs few
              (omega arith) (omega (arith, small))
          ∙ ap (λ v. parse_loop (begun octets v) cs) (omega arith))
  | inr n ↦
      let lt = leb→lt 100 o n in
      elim (Bool-cases (leb 10 o)) [
        | inl y ↦
            rw (n, y)
              (digit_lem (empty octets) (o / 10 % 10) ((b'0' + o % 10) ∷ cs) few (omega arith)
                  (omega arith)
                ∙ digit_lem (begun octets (0 * 10 + o / 10 % 10)) (o % 10) cs few (omega arith)
                    (omega (arith, lt))
                ∙ ap (λ v. parse_loop (begun octets v) cs) (omega (arith, lt)))
        | inr less ↦
            let under = leb→lt 10 o less in
            rw (n, less)
              (digit_lem (empty octets) (o % 10) cs few (omega arith) (omega arith)
                ∙ ap (λ v. parse_loop (begun octets v) cs) (omega (arith, under)))
      ]
]

append_nil : (xs : List ℕ) → xs ++ [] ≡ xs
append_nil [] = refl
append_nil (x ∷ xs) = ap (◌∷◌ x) (append_nil xs)

-- An octet and the dot behind it.
part_lem :
    (octets : List ℕ) (o : ℕ) (cs : List ℕ)
    → length octets < 4
    → o < 256
    → parse_loop (empty octets) (octet_chars o ++ (b'.' ∷ cs))
      ≡ parse_loop (empty (octets ++ (o ∷ []))) cs
part_lem octets o cs few small = octet_lem octets o (b'.' ∷ cs) few small ∙ dot_lem octets o cs few

last_lem :
    (octets : List ℕ) (o : ℕ)
    → length octets < 4
    → o < 256
    → parse_loop (empty octets) (octet_chars o) ≡ some (begun octets o)
unfolding parse_loop
last_lem octets o few small =
    ap (parse_loop (empty octets)) (sym (append_nil (octet_chars o)))
    ∙ octet_lem octets o [] few small

-- IpV4NTop writes every address of 32 bits to a buffer of 16 characters or more, and IpV4PTon of
-- the text is the address.
pub ip_pton-ip_ntop :
    (addr size : ℕ)
    → addr < 2 ^ 32
    → 16 ≤ size
    → (text : List ℕ) × (ip_ntop addr size ≡ some text) × (ip_pton text ≡ addr)
unfolding ip_ntop ip_pton
ip_pton-ip_ntop addr size small room =
    let a = addr / 2 ^ 24 % 2 ^ 8 in
    let b = addr / 2 ^ 16 % 2 ^ 8 in
    let c = addr / 2 ^ 8 % 2 ^ 8 in
    let d = addr % 2 ^ 8 in
    let read =
      part_lem [] a (octet_chars b ++ (b'.' ∷ (octet_chars c ++ (b'.' ∷ octet_chars d))))
        (omega arith) (omega arith)
      ∙ part_lem (a ∷ []) b (octet_chars c ++ (b'.' ∷ octet_chars d)) (omega arith) (omega arith)
      ∙ part_lem (a ∷ b ∷ []) c (octet_chars d) (omega arith) (omega arith)
      ∙ last_lem (a ∷ b ∷ c ∷ []) d (omega arith) (omega arith) in
    (_, rw (le→ltb size 16 room) refl, ap address_of read ∙ omega (arith, small))
