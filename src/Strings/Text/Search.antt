-- ===== src/Strings/Text/Search.antt =====
-- MemMem finds the first occurrence, and StrStr is MemMem on the characters.
use k_os.Prelude.{
  ℕ, zero, suc, ◌+◌, ◌-◌, ◌≤◌, ◌<◌, ◌≡◌, refl, sym, ap, ap₂, ◌∙◌, inl, inr, true, false, Option,
  none, some, List, [], ◌∷◌, ◌++◌, arith, ltb, ◌==◌, ltb→lt, ltb→le, ==→eq, ne→==, ==_refl,
  true≢false, Bool-cases, length, length-append,
}
use k_os.Strings.Text.{tail, starts_with, mem_mem_loop, mem_mem, str_str_loop, str_str}
use k_os.Strings.Text.Compare.{IsText, str_len-length}

-- `n` stands in `h` behind `i` bytes.
pub record Occurs (h n : List ℕ) (i : ℕ) : Type 0 where
  pub before : List ℕ
  pub after : List ℕ
  pub split : h ≡ before ++ (n ++ after)
  pub place : length before ≡ i

starts_with-split : (h n : List ℕ) → starts_with h n ≡ true → (after : List ℕ) × (h ≡ n ++ after)
unfolding starts_with
starts_with-split h [] e = (h, refl)
starts_with-split [] (y ∷ n) e = absurd (ground arith)
starts_with-split (x ∷ h) (y ∷ n) e = elim (Bool-cases (x == y)) [
  | inl same ↦
      let (after, split) = starts_with-split h n (rw same at e) in
      (after, ap₂ ◌∷◌ (==→eq x y same) split)
  | inr other ↦ absurd (true≢false (sym e ∙ (rw other refl)))
]

starts_with-append : (n after : List ℕ) → starts_with (n ++ after) n ≡ true
unfolding starts_with
starts_with-append [] after = refl
starts_with-append (y ∷ n) after = rw (==_refl y) (starts_with-append n after)

-- An occurrence in `h` is at its front or in its tail.
Occurs-here : (h n : List ℕ) → starts_with h n ≡ true → Occurs h n 0
Occurs-here h n e =
    let (after, split) = starts_with-split h n e in
    record { before = []; after = after; split = split; place = refl }

Occurs-later : (x : ℕ) (h n : List ℕ) (i : ℕ) → Occurs h n i → Occurs (x ∷ h) n (suc i)
Occurs-later x h n i o = record {
  before = x ∷ o.before;
  after = o.after;
  split = ap (◌∷◌ x) o.split;
  place = ap suc o.place;
}

-- A piece that has occurred behind another byte.
Occurs-tail : (x : ℕ) (h n : List ℕ) (i : ℕ) → Occurs (x ∷ h) n (suc i) → Occurs h n i
Occurs-tail x h n i o = go o.before o.split o.place
  where
    go : (before : List ℕ) → x ∷ h ≡ before ++ (n ++ o.after) → length before ≡ suc i → Occurs h n i
    go [] split place = absurd (omega arith)
    go (y ∷ before) split place = record {
      before = before;
      after = o.after;
      split = ap tail split;
      place = omega arith;
    }

not-Occurs-here : (h n : List ℕ) → starts_with h n ≡ false → ¬ Occurs h n 0
not-Occurs-here h n e o = go o.before o.split o.place
  where
    go : (before : List ℕ) → h ≡ before ++ (n ++ o.after) → length before ≡ 0 → ⊥
    go [] split place =
        true≢false (sym (starts_with-append n o.after) ∙ ap (λ s. starts_with s n) (sym split) ∙ e)
    go (y ∷ before) split place = absurd (omega arith)

-- The place of the first occurrence, or that there is none.
abbrev pub FindsFirst : List ℕ → List ℕ → Option ℕ → Type 0
FindsFirst h n none = (j : ℕ) → ¬ Occurs h n j
FindsFirst h n (some k) = Occurs h n k × ((j : ℕ) → j < k → ¬ Occurs h n j)

-- A piece ends inside the block.
Occurs-le : (h n : List ℕ) (i : ℕ) → Occurs h n i → i + length n ≤ length h
Occurs-le h n i o =
    let whole = ap length o.split in
    omega (arith, o.place, whole, length-append o.before (n ++ o.after), length-append n o.after)

-- What a search from index `i` on has found, as places in the rest of the block.
abbrev Answers : List ℕ → List ℕ → ℕ → Option ℕ → Type 0
Answers h n i none = (j : ℕ) → ¬ Occurs h n j
Answers h n i (some k) = (i ≤ k) × Occurs h n (k - i) × ((j : ℕ) → i + j < k → ¬ Occurs h n j)

mem_mem_loop-Answers :
    (rounds i : ℕ) (h n : List ℕ)
    → length h < rounds + length n
    → 0 < length n
    → Answers h n i (mem_mem_loop rounds i h n)
unfolding mem_mem_loop
mem_mem_loop-Answers zero i h n enough pos = λ j o. absurd (omega (arith, Occurs-le h n j o))
mem_mem_loop-Answers (suc rounds) i h n enough pos = elim (Bool-cases (starts_with h n)) [
  | inl y ↦
      let here : i - i ≡ 0 = omega arith in
      rw y (omega arith, rw here (Occurs-here h n y), λ j lt. absurd (omega arith))
  | inr no_more ↦
      rw no_more (later h no_more enough (mem_mem_loop-Answers rounds (suc i) (tail h) n))
]
  where
    shift :
        (x : ℕ) (h : List ℕ) (o : Option ℕ)
        → starts_with (x ∷ h) n ≡ false
        → Answers h n (suc i) o
        → Answers (x ∷ h) n i o
    shift x h none no_more ih = nowhere_in
      where
        nowhere_in : (j : ℕ) → ¬ Occurs (x ∷ h) n j
        nowhere_in zero oc = not-Occurs-here (x ∷ h) n no_more oc
        nowhere_in (suc j) oc = ih j (Occurs-tail x h n j oc)
    shift x h (some k) no_more ih =
        let place : k - i ≡ suc (k - suc i) = omega (arith, ih.0) in
        (omega (arith, ih.0), rw place (Occurs-later x h n (k - suc i) ih.1), before)
      where
        before : (j : ℕ) → i + j < k → ¬ Occurs (x ∷ h) n j
        before zero lt oc = not-Occurs-here (x ∷ h) n no_more oc
        before (suc j) lt oc = ih.2 j (omega arith) (Occurs-tail x h n j oc)

    nowhere : (o : Option ℕ) → Answers [] n (suc i) o → Answers [] n i o
    nowhere none ih = ih
    nowhere (some k) ih = absurd (omega (arith, Occurs-le [] n (k - suc i) ih.1))

    later :
        (h : List ℕ)
        → starts_with h n ≡ false
        → length h < suc rounds + length n
        → (length (tail h) < rounds + length n
            → 0 < length n
            → Answers (tail h) n (suc i) (mem_mem_loop rounds (suc i) (tail h) n))
        → Answers h n i (mem_mem_loop rounds (suc i) (tail h) n)
    later [] no_more enough ih = nowhere _ (ih (omega arith) pos)
    later (x ∷ h) no_more enough ih = shift x h _ no_more (ih (omega arith) pos)

-- MemMem answers the place of the first occurrence of the needle, and NULLPTR exactly where it does not
-- occur.
pub mem_mem-FindsFirst : (h n : List ℕ) → FindsFirst h n (mem_mem h n)
unfolding mem_mem
mem_mem-FindsFirst h [] =
    (record { before = []; after = h; split = refl; place = refl }, λ j lt. absurd (omega arith))
mem_mem-FindsFirst h (y ∷ n) = elim (Bool-cases (ltb (length h) (length (y ∷ n)))) [
  | inl y' ↦
      let short = ltb→lt _ _ y' in
      rw (ne→== (length (y ∷ n)) 0 (omega arith), y')
        (λ j o. absurd (omega (arith, Occurs-le h (y ∷ n) j o)))
  | inr room ↦
      let le = ltb→le _ _ room in
      rw (ne→== (length (y ∷ n)) 0 (omega arith), room)
        (finish _ (
          mem_mem_loop-Answers (length h - length (y ∷ n) + 1) 0 h (y ∷ n) (omega arith)
            (omega arith)))
]
  where
    finish : (o : Option ℕ) → Answers h (y ∷ n) 0 o → FindsFirst h (y ∷ n) o
    finish none a = a
    finish (some k) a =
        let same : k - 0 ≡ k = omega arith in (rw same at a.1, λ j lt. a.2 j (omega arith))

str_str_loop-mem_mem_loop :
    (rounds i : ℕ) (h : List ℕ) (y : ℕ) (n : List ℕ)
    → str_str_loop rounds i h (y ∷ n) ≡ mem_mem_loop rounds i h (y ∷ n)
unfolding str_str_loop mem_mem_loop starts_with
str_str_loop-mem_mem_loop zero i h y n = refl
str_str_loop-mem_mem_loop (suc rounds) i [] y n = sym (nothing_left rounds (suc i))
  where
    nothing_left : (rounds i : ℕ) → mem_mem_loop rounds i [] (y ∷ n) ≡ none
    nothing_left zero i = refl
    nothing_left (suc rounds) i = nothing_left rounds (suc i)
str_str_loop-mem_mem_loop (suc rounds) i (x ∷ h) y n =
    ground (arith, str_str_loop-mem_mem_loop rounds (suc i) h y n)

-- StrStr of two strings answers what MemMem answers of their characters.
pub str_str-mem_mem : (h n : List ℕ) → IsText h → IsText n → str_str h n ≡ mem_mem h n
unfolding str_str mem_mem
str_str-mem_mem h [] t u = refl
str_str-mem_mem h (y ∷ n) t u =
    rw
      (
        ne→== y 0 u.0,
        ne→== (length (y ∷ n)) 0 (omega arith),
        str_len-length h t,
        str_len-length (y ∷ n) u,
        str_str_loop-mem_mem_loop,
      )
      refl
