-- ===== src/Network/IpV4/Checksum.antt =====
-- A header with its checksum filled in.
use k_os.Prelude.{
  ℕ, zero, suc, ◌+◌, ◌*◌, ◌/◌, ◌%◌, ◌^◌, ◌≤◌, ◌<◌, ◌≡◌, ◌∙◌, ◌⊎◌, inl, inr, List, [], ◌∷◌, ◌++◌,
  arith, length, All,
}
use native.Mathlib.Decide.{ℕ_discrete}
use k_os.Network.IpV4.{sum_loop, fold_loop, ip_checksum}

abbrev pub IsBytes : List ℕ → Type 0
IsBytes = All (λ b. b < 256)

-- The sum without a bound.
unfoldable total : List ℕ → ℕ
total [] = 0
total (a ∷ []) = a * 256
total (a ∷ b ∷ bytes) = a * 256 + b + total bytes

total-le : (bytes : List ℕ) → IsBytes bytes → total bytes ≤ length bytes * 65535
unfolding total
total-le [] h = omega arith
total-le (a ∷ []) h = omega (arith, h.0)
total-le (a ∷ b ∷ bytes) h = omega (arith, h.0, h.1.0, total-le bytes h.1.1)

sum_loop-total :
    (sum : ℕ) (bytes : List ℕ) → sum + total bytes < 2 ^ 32 → sum_loop sum bytes ≡ sum + total bytes
unfolding sum_loop total
sum_loop-total sum [] lt = omega arith
sum_loop-total sum (a ∷ []) lt = omega arith
sum_loop-total sum (a ∷ b ∷ bytes) lt =
    let whole : (sum + (a * 2 ^ 8 + b)) % 2 ^ 32 ≡ sum + (a * 2 ^ 8 + b) = omega arith in
    rw whole (sum_loop-total (sum + (a * 2 ^ 8 + b)) bytes (omega arith) ∙ omega arith)

-- Two more bytes at an even place.
total-append :
    (n : ℕ) (before : List ℕ) (a b : ℕ) (after : List ℕ)
    → length before ≡ n * 2
    → total (before ++ (a ∷ b ∷ after)) ≡ total (before ++ (0 ∷ 0 ∷ after)) + (a * 256 + b)
unfolding total
total-append n [] a b after even = omega arith
total-append n (x ∷ []) a b after even = absurd (omega arith)
total-append zero (x ∷ y ∷ before) a b after even = absurd (omega arith)
total-append (suc n) (x ∷ y ∷ before) a b after even =
    omega (arith, total-append n before a b after (omega arith))

-- The loop ends, and keeps the remainder modulo 65535.
record Folded (sum r : ℕ) : Type 0 where
  ended : r < 2 ^ 16
  same : r % 65535 ≡ sum % 65535
  some_bits : ((sum ≡ 0) × (r ≡ 0)) ⊎ ((0 < sum) × (0 < r))

fold_loop-Folded : (sum : ℕ) → sum < 2 ^ 32 → Folded sum (fold_loop 2 sum)
unfolding fold_loop
fold_loop-Folded sum lt = record {
  ended = ground arith;
  same = ground arith;
  some_bits = elim (ℕ_discrete sum 0) [
    | yes e ↦ inl (e, ground arith)
    | no ne ↦ inr (omega arith, ground arith)
  ];
}

-- The checksum is what is missing from the folded sum to 65535.
record Checked (bytes : List ℕ) (c : ℕ) : Type 0 where
  small : c < 2 ^ 16
  missing : (c + total bytes) % 65535 ≡ 0
  none_missing : ((total bytes ≡ 0) × (c ≡ 65535)) ⊎ ((0 < total bytes) × (c < 65535))

ip_checksum-Checked : (bytes : List ℕ) → total bytes < 2 ^ 32 → Checked bytes (ip_checksum bytes)
unfolding ip_checksum
ip_checksum-Checked bytes lt =
    let sum = sum_loop-total 0 bytes (omega arith) in
    let v = fold_loop-Folded (total bytes) lt in
    let whole : sum_loop 0 bytes ≡ total bytes = omega (arith, sum) in
    rw whole (record {
      small = omega arith;
      missing = omega (arith, v.ended, v.same);
      none_missing = elim v.some_bits [
        | inl (nothing, e) ↦ inl (nothing, omega arith)
        | inr (some_sum, pos) ↦ inr (some_sum, omega (arith, v.ended))
      ];
    })

-- The checksum of a header, put into its field where that was zero, makes the checksum of the header 0. The
-- header is of less than 2^15 bytes, and the field stands at an even place.
pub ip_checksum_filled :
    (n : ℕ) (before after : List ℕ)
    → IsBytes (before ++ (0 ∷ 0 ∷ after))
    → length before ≡ n * 2
    → length (before ++ (0 ∷ 0 ∷ after)) < 2 ^ 15
    → ip_checksum (
        before
        ++ (ip_checksum (before ++ (0 ∷ 0 ∷ after)) / 256
            ∷ ip_checksum (before ++ (0 ∷ 0 ∷ after)) % 256
            ∷ after))
      ≡ 0
unfolding ip_checksum
ip_checksum_filled n before after all even short =
    let zeroed = before ++ (0 ∷ 0 ∷ after) in
    let bound = total-le zeroed all in
    let c = ip_checksum zeroed in
    let v = ip_checksum-Checked zeroed (omega arith) in
    let filled = before ++ (c / 256 ∷ c % 256 ∷ after) in
    let grown = total-append n before (c / 256) (c % 256) after even in
    let w = ip_checksum-Checked filled (omega (arith, v.small)) in
    elim v.none_missing [
      | inl (nothing, full) ↦ elim w.none_missing [
        | inl (e, _) ↦ absurd (omega arith)
        | inr (_, lt) ↦ omega (arith, v.missing, w.missing)
      ]
      | inr (some_sum, _) ↦ elim w.none_missing [
        | inl (e, _) ↦ absurd (omega arith)
        | inr (_, lt) ↦ omega (arith, v.missing, w.missing)
      ]
    ]
