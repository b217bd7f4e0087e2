-- ===== src/Strings/Text/Compare.antt =====
-- What the comparisons of strings decide.
use k_os.Prelude.{
  ℕ, zero, suc, ◌≡◌, refl, sym, ap, ap₂, subst, ◌≢◌, ◌↔◌, ◌⊎◌, inl, inr, true, false, ◌&&◌, List,
  [], ◌∷◌, map, arith, ◌==◌, ==→eq, ==→ne, ne→==, ==_refl, Bool-cases, length, All,
}
use native.Mathlib.Decide.{ℕ_discrete}
use k_os.Prelude.Ints.{pos, sub_int-eq}
use k_os.Strings.Text.{head, str_len, str_cmp, str_case_fold, str_case_cmp, strn_cmp, name_eq}

-- No character of a string is its terminator.
abbrev pub IsText : List ℕ → Type 0
IsText = All (λ c. c ≢ 0)

pub str_len-length : (s : List ℕ) → IsText s → str_len s ≡ length s
unfolding str_len
str_len-length [] t = refl
str_len-length (c ∷ s) t = rw (ne→== c 0 t.0) (ap suc (str_len-length s t.1))

str_cmp_self : (a : List ℕ) → IsText a → str_cmp a a ≡ pos 0
unfolding str_cmp
str_cmp_self [] t = refl
str_cmp_self (x ∷ a) t = rw (==_refl x, ne→== x 0 t.0) (str_cmp_self a t.1)

str_cmp-eq : (a b : List ℕ) → IsText a → IsText b → str_cmp a b ≡ pos 0 → a ≡ b
unfolding str_cmp
str_cmp-eq [] [] t u h = refl
str_cmp-eq [] (y ∷ b) t u h = absurd (u.0 (sym (sub_int-eq 0 y h)))
str_cmp-eq (x ∷ a) [] t u h = absurd (t.0 (sub_int-eq x 0 h))
str_cmp-eq (x ∷ a) (y ∷ b) t u h = elim (Bool-cases (x == y)) [
  | inl same ↦
      let tails = str_cmp-eq a b t.1 u.1 (rw (same, ne→== x 0 t.0) at h) in
      ap₂ ◌∷◌ (==→eq x y same) tails
  | inr other ↦ absurd (==→ne x y other (sub_int-eq x y (rw other at h)))
]

-- NameEq answers 1 exactly where StrnCmp of the same arguments answers 0, and 0 elsewhere.
pub name_eq-strn_cmp :
    (a b : List ℕ) (n : ℕ)
    → ((name_eq a b n ≡ 1) × (strn_cmp a b n ≡ pos 0))
      ⊎ ((name_eq a b n ≡ 0) × (strn_cmp a b n ≢ pos 0))
unfolding name_eq strn_cmp
name_eq-strn_cmp a b zero = inl (refl, refl)
name_eq-strn_cmp [] b (suc n) = elim (ℕ_discrete 0 (head b)) [
  | yes e ↦ inl (rw (← e) refl, rw (← e) refl)
  | no ne ↦ inr (
    rw (ne→== (head b) 0 (λ e. ne (sym e))) refl,
    λ h. ne (sub_int-eq 0 (head b) (rw (ne→== 0 (head b) ne) at h)),
  )
]
name_eq-strn_cmp (x ∷ a) [] (suc n) = elim (ℕ_discrete x 0) [
  | yes e ↦ inl (rw e refl, rw e refl)
  | no ne ↦ inr (rw (ne→== x 0 ne) refl, λ h. ne (sub_int-eq x 0 (rw (ne→== x 0 ne) at h)))
]
name_eq-strn_cmp (x ∷ a) (y ∷ b) (suc n) = elim (ℕ_discrete x y) [
  | no ne ↦
      let apart : (x == 0 && y == 0) ≡ false = ground arith in
      inr (rw (apart, ne→== x y ne) refl, λ h. ne (sub_int-eq x y (rw (ne→== x y ne) at h)))
  | yes e ↦ elim (ℕ_discrete x 0) [
    | yes z ↦
        let both : (x == 0 && y == 0) ≡ true = ground arith in
        let same : (x == y) ≡ true = ground arith in inl (rw both refl, rw (same, z) refl)
    | no nz ↦
        let going : (x == 0 && y == 0) ≡ false = ground arith in
        let same : (x == y) ≡ true = ground arith in
        rw (going, same, ne→== x 0 nz) (name_eq-strn_cmp a b n)
  ]
]

-- Lower case, character by character.
abbrev pub folded : List ℕ → List ℕ
folded = map str_case_fold

fold_nothing : str_case_fold 0 ≡ 0
unfolding str_case_fold
fold_nothing = refl

fold_zero : (c : ℕ) → (str_case_fold c == 0) ≡ (c == 0)
unfolding str_case_fold
fold_zero c = ground arith

-- StrCaseCmp is StrCmp of the strings in lower case.
pub str_case_cmp-folded : (a b : List ℕ) → str_case_cmp a b ≡ str_cmp (folded a) (folded b)
unfolding str_case_cmp str_cmp
str_case_cmp-folded [] [] = rw fold_nothing refl
str_case_cmp-folded [] (y ∷ b) = rw fold_nothing refl
str_case_cmp-folded (x ∷ a) [] = rw fold_nothing refl
str_case_cmp-folded (x ∷ a) (y ∷ b) = rw (fold_zero x, str_case_cmp-folded a b) refl

-- StrCmp answers 0 exactly for equal strings.
pub str_cmp_iff : (a b : List ℕ) → IsText a → IsText b → (str_cmp a b ≡ pos 0) ↔ (a ≡ b)
str_cmp_iff a b t u =
    (str_cmp-eq a b t u, λ e. subst (λ c. str_cmp a c ≡ pos 0) e (str_cmp_self a t))
