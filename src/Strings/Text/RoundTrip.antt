-- ===== src/Strings/Text/RoundTrip.antt =====
-- AToI reads what UToA writes.
use k_os.Prelude.{
  ℕ, zero, suc, ◌+◌, ◌-◌, ◌*◌, ◌/◌, ◌%◌, ◌^◌, ◌<◌, ◌≡◌, refl, ap, ◌∙◌, inl, inr, true, false, ◌||◌,
  List, [], ◌∷◌, ◌++◌, arith, ◌==◌, ==→eq, ==→ne, Bool-cases, All,
}
use k_os.Strings.Text.Numbers.{
  digit, emit, u_to_a, skip_spaces, is_digit, read_digits, read_signed, a_to_i,
}
use k_os.Strings.Text.Reverse.{reversed, reverse_loop-reversed}

abbrev IsDigits : List ℕ → Type 0
IsDigits = All (λ c. is_digit c ≡ true)

digit-lem : (d : ℕ) → d < 10 → (is_digit (digit d) ≡ true) × (digit d - 48 ≡ d)
digit-lem d h = (ground arith, ground arith)

read_digits-append :
    (w : ℕ) (xs ys : List ℕ) (r : ℕ)
    → IsDigits xs
    → read_digits w (xs ++ ys) r ≡ read_digits w ys (read_digits w xs r)
unfolding read_digits
read_digits-append w [] ys r h = refl
read_digits-append w (x ∷ xs) ys r h =
    rw h.0 (read_digits-append w xs ys ((r * 10 + (x - 48)) % 2 ^ w) h.1)

All-append_one : (xs : List ℕ) (y : ℕ) → IsDigits xs → is_digit y ≡ true → IsDigits (xs ++ (y ∷ []))
All-append_one [] y h k = (k, tt)
All-append_one (x ∷ xs) y h k = (h.0, All-append_one xs y h.1 k)

next_digit :
    (c r v : ℕ)
    → is_digit c ≡ true
    → r * 10 + (c - 48) ≡ v
    → v < 2 ^ 32
    → read_digits 32 (c ∷ []) r ≡ v
unfolding read_digits
next_digit c r v is e small = rw is (omega arith)

-- The decimal digits of a number, the highest first, are digits, and are read as the number.
emit_lem :
    (fuel v : ℕ)
    → v < fuel
    → v < 2 ^ 32
    → IsDigits (reversed (emit fuel v 10)) × (read_digits 32 (reversed (emit fuel v 10)) 0 ≡ v)
unfolding emit
emit_lem zero v enough small = absurd (omega arith)
emit_lem (suc fuel) v enough small =
    let (is, value) = digit-lem (v % 10) (omega arith) in
    elim (Bool-cases (v / 10 == 0)) [
      | inl y ↦
          let last = ==→eq _ _ y in
          rw y ((is, tt), next_digit (digit (v % 10)) 0 v is (omega (arith, value, last)) small)
      | inr more ↦
          let ne = ==→ne _ _ more in
          let (digits, read) = emit_lem fuel (v / 10) (omega arith) (omega arith) in
          rw more (
            All-append_one (reversed (emit fuel (v / 10) 10)) (digit (v % 10)) digits is,
            read_digits-append 32 (reversed (emit fuel (v / 10) 10)) (digit (v % 10) ∷ []) 0 digits
                ∙ ap (read_digits 32 (digit (v % 10) ∷ [])) read
                ∙ next_digit (digit (v % 10)) (v / 10) v is (omega (arith, value)) small,
          )
    ]

read_digits-a_to_i : (s : List ℕ) → IsDigits s → a_to_i s ≡ read_digits 32 s 0
unfolding a_to_i skip_spaces read_signed
read_digits-a_to_i [] h = refl
read_digits-a_to_i (c ∷ s) h =
    let first = h.0 in
    let no_space : (c == b' ' || c == 9) ≡ false = ground arith in
    let no_minus : (c == b'-') ≡ false = ground arith in
    let no_plus : (c == b'+') ≡ false = ground arith in simp (no_space, no_minus, no_plus) refl

-- AToI of the decimal digits that UToA writes gives back the number, as the bits of an INT.
pub a_to_i-u_to_a : (v : ℕ) → v < 2 ^ 32 → a_to_i (u_to_a v 10) ≡ v
unfolding u_to_a
a_to_i-u_to_a v small =
    let (digits, read) = emit_lem (suc v) v (omega arith) small in
    rw (reverse_loop-reversed (emit (suc v) v 10))
      (read_digits-a_to_i (reversed (emit (suc v) v 10)) digits ∙ read)
