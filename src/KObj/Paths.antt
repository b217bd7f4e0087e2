-- ===== src/KObj/Paths.antt =====
-- Paths that are put together from a path and a path below it.
use k_os.Prelude.{
  ℕ, ◌+◌, ◌<◌, ◌≡◌, refl, sym, ap, ◌∙◌, ◌≢◌, inl, inr, false, List, [], ◌∷◌, ◌++◌, arith, ◌==◌,
  if◌then◌else◌, ==→ne, ne→==, Bool-cases, length, length-append,
}
use k_os.Strings.Text.{head}
use k_os.Strings.Text.Compare.{IsText}
use k_os.KObj.{Namespace}
use k_os.KObj.Objects.{bounded_text}
use k_os.KObj.Walk.{is_separator, with_token, split, step, walk, find_by_path_relative}

with_token-append :
    (token : List ℕ) (xs ys : List (List ℕ))
    → with_token token xs ++ ys ≡ with_token token (xs ++ ys)
with_token-append [] xs ys = refl
with_token-append (c ∷ token) xs ys = refl

split-append : (token a b : List ℕ) → split token (a ++ (b'\\' ∷ b)) ≡ split token a ++ split [] b
unfolding split
split-append token [] b = sym (with_token-append token [] (split [] b))
split-append token (c ∷ a) b = elim (Bool-cases (is_separator c)) [
  | inl y ↦ rw (y, split-append [] a b) (sym (with_token-append token (split [] a) (split [] b)))
  | inr n ↦ rw n (split-append (token ++ (c ∷ [])) a b)
]

walk-append :
    (s : Namespace) (cur : ℕ) (xs ys : List (List ℕ))
    → cur ≢ 0
    → walk s cur (xs ++ ys) ≡ (if walk s cur xs == 0 then 0 else walk s (walk s cur xs) ys)
unfolding walk
walk-append s cur [] ys ne = rw (ne→== cur 0 ne) refl
walk-append s cur (x ∷ xs) ys ne = elim (Bool-cases (step s cur x == 0)) [
  | inl y ↦ rw y refl
  | inr n ↦ rw n (walk-append s (step s cur x) xs ys (==→ne _ _ n))
]

IsText-append : (a b : List ℕ) → IsText a → IsText b → IsText (a ++ (b'\\' ∷ b))
IsText-append [] b t u = (λ e. omega arith, u)
IsText-append (c ∷ a) b t u = (t.0, IsText-append a b t.1 u)

-- A path that starts at an object: not empty, and without a separator in front.
pub record IsRelative (path : List ℕ) : Type 0 where
  pub text : IsText path
  pub some_path : head path ≢ 0
  pub below : is_separator (head path) ≡ false

head-append : (a b : List ℕ) → head a ≢ 0 → head (a ++ (b'\\' ∷ b)) ≡ head a
head-append [] b ne = absurd (ne refl)
head-append (c ∷ a) b ne = refl

found_at :
    (s : Namespace) (base : ℕ) (path : List ℕ)
    → base ≢ 0
    → IsText path
    → length path < 256
    → is_separator (head path) ≡ false
    → (find_by_path_relative s base path).1 ≡ walk s base (split [] path)
unfolding find_by_path_relative
found_at s base path ne t lt below =
    let whole = bounded_text 255 path t (omega arith) in rw (whole, below, ne→== base 0 ne) refl

-- KObjFindByPathRelative, from a base that is not NULLPTR, of a path, a backslash and a second path finds what
-- it finds for the second path from the object that it finds for the first, and NULLPTR where it finds none
-- for the first. Neither path is empty or begins with a separator, and they are shorter than 255 together.
pub find_by_path_relative-append :
    (s : Namespace) (base : ℕ) (a b : List ℕ)
    → base ≢ 0
    → IsRelative a
    → IsRelative b
    → length a + length b < 255
    → (find_by_path_relative s base (a ++ (b'\\' ∷ b))).1 ≡ (
        if (find_by_path_relative s base a).1 == 0
        then 0
        else (find_by_path_relative s (find_by_path_relative s base a).1 b).1)
find_by_path_relative-append s base a b ne v u fits =
    let c = walk s base (split [] a) in
    let long = length-append a (b'\\' ∷ b) in
    let below = ap is_separator (head-append a b v.some_path) ∙ v.below in
    let whole =
      found_at s base (a ++ (b'\\' ∷ b)) ne (IsText-append a b v.text u.text) (omega (arith, long))
        below in
    let first = found_at s base a ne v.text (omega arith) v.below in
    rw (whole, first)
      (ap (walk s base) (split-append [] a b)
        ∙ walk-append s base (split [] a) (split [] b) ne
        ∙ elim (Bool-cases (c == 0)) [
          | inl y ↦ rw y refl
          | inr n ↦ rw n (sym (found_at s c b (==→ne c 0 n) u.text (omega arith) u.below))
        ])
