-- ===== src/Strings/Text/Reverse.antt =====
-- The loop that exchanges the ends of a string reverses it.
use k_os.Prelude.{
  ℕ, zero, suc, ◌+◌, ◌-◌, ◌≤◌, ◌<◌, ◌≡◌, refl, sym, ap₂, ◌∙◌, inl, inr, true, false, ◌&&◌, List, [],
  ◌∷◌, ◌++◌, arith, ltb, leb, ◌==◌, if◌then◌else◌, ltb→lt, ltb→le, ne→==, ==_refl, Bool-cases,
  either-branch, length, get_or, set, length-append, length-set, get_or-set_self, get_or-set_ne,
}
use native.Mathlib.Decide.{ℕ_discrete}
use k_os.Strings.Text.Numbers.{exchange, reverse_loop}

abbrev pub reversed : List ℕ → List ℕ
reversed [] = []
reversed (x ∷ xs) = reversed xs ++ (x ∷ [])

length-reversed : (xs : List ℕ) → length (reversed xs) ≡ length xs
length-reversed [] = refl
length-reversed (x ∷ xs) = omega (arith, length-append (reversed xs) (x ∷ []), length-reversed xs)

get_or-append_left :
    (xs ys : List ℕ) (k : ℕ) → k < length xs → get_or (xs ++ ys) k 0 ≡ get_or xs k 0
get_or-append_left [] ys k h = absurd (omega arith)
get_or-append_left (x ∷ xs) ys zero h = refl
get_or-append_left (x ∷ xs) ys (suc k) h = get_or-append_left xs ys k (omega arith)

get_or-append_last : (xs : List ℕ) (y k : ℕ) → k ≡ length xs → get_or (xs ++ (y ∷ [])) k 0 ≡ y
get_or-append_last [] y zero h = refl
get_or-append_last [] y (suc k) h = absurd (omega arith)
get_or-append_last (x ∷ xs) y zero h = absurd (omega arith)
get_or-append_last (x ∷ xs) y (suc k) h = get_or-append_last xs y k (omega arith)

get_or-reversed :
    (xs : List ℕ) (k : ℕ)
    → k < length xs
    → get_or (reversed xs) k 0 ≡ get_or xs (length xs - 1 - k) 0
get_or-reversed [] k h = absurd (omega arith)
get_or-reversed (x ∷ xs) k h = elim (ℕ_discrete k (length xs)) [
  | yes e ↦
      let place : suc (length xs) - 1 - k ≡ 0 = omega arith in
      rw place (get_or-append_last (reversed xs) x k (omega (arith, length-reversed xs)))
  | no ne ↦
      let place : suc (length xs) - 1 - k ≡ suc (length xs - 1 - k) = omega arith in
      rw place (
        get_or-append_left (reversed xs) (x ∷ []) k (omega (arith, length-reversed xs))
        ∙ get_or-reversed xs k (omega arith))
]

-- Lists with the same elements at the same places.
List-ext :
    (xs ys : List ℕ)
    → length xs ≡ length ys
    → ((k : ℕ) → k < length xs → get_or xs k 0 ≡ get_or ys k 0)
    → xs ≡ ys
List-ext [] [] e h = refl
List-ext [] (y ∷ ys) e h = absurd (omega arith)
List-ext (x ∷ xs) [] e h = absurd (omega arith)
List-ext (x ∷ xs) (y ∷ ys) e h =
    ap₂ ◌∷◌ (h 0 (omega arith)) (List-ext xs ys (omega arith) (λ k lt. h (suc k) (omega arith)))

length-exchange : (i j : ℕ) (s : List ℕ) → length (exchange i j s) ≡ length s
length-exchange i j s =
    length-set (set s j (get_or s i 0)) i (get_or s j 0) ∙ length-set s j (get_or s i 0)

get_or-exchange :
    (i j k : ℕ) (s : List ℕ)
    → i < length s
    → j < length s
    → get_or (exchange i j s) k 0
      ≡ (if i == k then get_or s j 0 else if j == k then get_or s i 0 else get_or s k 0)
get_or-exchange i j k s hi hj = elim (ℕ_discrete i k) [
  | yes e ↦
      let here : (i == k) ≡ true = rw e (==_refl k) in
      rw here (
        rw (← e) (
          get_or-set_self (set s j (get_or s i 0)) i (get_or s j 0) 0
            (omega (arith, length-set s j (get_or s i 0)))))
  | no ne ↦ rw (ne→== i k ne) (
      get_or-set_ne (set s j (get_or s i 0)) i k (get_or s j 0) 0 ne ∙ (elim (ℕ_discrete j k) [
        | yes e ↦
            let here : (j == k) ≡ true = rw e (==_refl k) in
            rw here (rw (← e) (get_or-set_self s j (get_or s i 0) 0 hj))
        | no ne' ↦ rw (ne→== j k ne') (get_or-set_ne s j k (get_or s i 0) 0 ne')
      ]))
]

length-reverse_loop : (fuel i j : ℕ) (s : List ℕ) → length (reverse_loop fuel i j s) ≡ length s
unfolding reverse_loop
length-reverse_loop zero i j s = refl
length-reverse_loop (suc fuel) i j s =
    either-branch (λ r. length r ≡ length s) (ltb i j)
      (reverse_loop fuel (suc i) (j - 1) (exchange i j s)) s
      (length-reverse_loop fuel (suc i) (j - 1) (exchange i j s) ∙ length-exchange i j s) refl

mirror_step :
    (f : ℕ → ℕ) (i j k : ℕ)
    → i < j
    → (if leb (suc i) k && leb k (j - 1)
        then (if i == i + j - k then f j else if j == i + j - k then f i else f (i + j - k))
        else if i == k
        then f j
        else if j == k
        then f i
        else f k)
      ≡ (if leb i k && leb k j then f (i + j - k) else f k)
mirror_step f i j k lt = grind arith

-- Between the two places the string is reversed, elsewhere it stays.
get_or-reverse_loop :
    (fuel i j k : ℕ) (s : List ℕ)
    → i ≤ j + 1
    → j < length s
    → j < fuel + i
    → get_or (reverse_loop fuel i j s) k 0
      ≡ (if leb i k && leb k j then get_or s (i + j - k) 0 else get_or s k 0)
unfolding reverse_loop
get_or-reverse_loop zero i j k s order room enough =
    let out : (leb i k && leb k j) ≡ false = ground arith in rw out refl
get_or-reverse_loop (suc fuel) i j k s order room enough = elim (Bool-cases (ltb i j)) [
  | inr stop ↦
      let ge = ltb→le _ _ stop in
      rw stop (elim (Bool-cases (leb i k && leb k j)) [
        | inl y ↦ let same : i + j - k ≡ k = ground arith in rw (y, same) refl
        | inr n ↦ rw n refl
      ])
  | inl go ↦
      let lt = ltb→lt _ _ go in
      let ih =
        get_or-reverse_loop fuel (suc i) (j - 1) k (exchange i j s) (omega arith)
          (omega (arith, length-exchange i j s)) (omega arith) in
      let sum : suc i + (j - 1) - k ≡ i + j - k = omega arith in
      let there = get_or-exchange i j (i + j - k) s (omega arith) room in
      let here = get_or-exchange i j k s (omega arith) room in
      rw (go, ih, sum, there, here) (mirror_step (λ n. get_or s n 0) i j k lt)
]

pub reverse_loop-reversed : (s : List ℕ) → reverse_loop (length s) 0 (length s - 1) s ≡ reversed s
unfolding reverse_loop
reverse_loop-reversed [] = refl
reverse_loop-reversed (x ∷ s) =
    let n = length (x ∷ s) in
    let size = length-reverse_loop n 0 (n - 1) (x ∷ s) in
    List-ext (reverse_loop n 0 (n - 1) (x ∷ s)) (reversed (x ∷ s))
      (size ∙ sym (length-reversed (x ∷ s)))
      (λ k lt.
        let below : k < n = omega (arith, size) in
        let inside : (leb 0 k && leb k (n - 1)) ≡ true = ground arith in
        let sum : 0 + (n - 1) - k ≡ n - 1 - k = omega arith in
        get_or-reverse_loop n 0 (n - 1) k (x ∷ s) (omega arith) (omega arith) (omega arith)
        ∙ (rw (inside, sum) (sym (get_or-reversed (x ∷ s) k below))))
