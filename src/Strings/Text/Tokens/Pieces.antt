-- ===== src/Strings/Text/Tokens/Pieces.antt =====
-- The tokens that calls of StrTokR give one after the other.
use k_os.Prelude.{
  ℕ, zero, suc, ◌≡◌, refl, sym, ap, ◌∙◌, inl, inr, Bool, false, Option, none, some, List, [], ◌∷◌,
  if◌then◌else◌, Bool-cases, in_branch,
}
use k_os.Strings.Text.Tokens.{is_delim, skip_delims, take_token, token_from, str_tok_r}

-- The text between delimiters, with the empty pieces.
abbrev pub longer : ℕ → List (List ℕ) → List (List ℕ)
longer c [] = (c ∷ []) ∷ []
longer c (piece ∷ rest) = (c ∷ piece) ∷ rest

unfoldable pub pieces : (ℕ → Bool) → List ℕ → List (List ℕ)
pieces d [] = [] ∷ []
pieces d (c ∷ s) = let rest = pieces d s in if d c then [] ∷ rest else longer c rest

abbrev pub without_empty : List (List ℕ) → List (List ℕ)
without_empty [] = []
without_empty ([] ∷ rest) = without_empty rest
without_empty ((c ∷ piece) ∷ rest) = (c ∷ piece) ∷ without_empty rest

-- What the calls answer, the first with `str` and the others with NULLPTR.
unfoldable pub all_tokens : ℕ → List ℕ → Option (List ℕ) → Option (List ℕ) → List (Option (List ℕ))
all_tokens zero delim str save = []
all_tokens (suc calls) delim str save =
    let answer = str_tok_r str delim save in answer.0 ∷ all_tokens calls delim none answer.1

-- The pieces, and NULLPTR for each call that is left.
unfoldable pub answers : ℕ → List (List ℕ) → List (Option (List ℕ))
answers zero ts = []
answers (suc calls) [] = none ∷ answers calls []
answers (suc calls) (t ∷ ts) = some t ∷ answers calls ts

module _ (delim : List ℕ) where
  abbrev pub d : ℕ → Bool
  d = is_delim delim

  -- Delimiters in front are empty pieces.
  skip-pieces :
      (s : List ℕ) → without_empty (pieces d (skip_delims delim s)) ≡ without_empty (pieces d s)
  unfolding skip_delims pieces
  skip-pieces [] = refl
  skip-pieces (c ∷ s) =
      in_branch (λ t. without_empty (pieces d t) ≡ without_empty (pieces d (c ∷ s))) (d c)
        (skip_delims delim s) (c ∷ s) (λ y. skip-pieces s ∙ rw y refl) (λ _. refl)

  -- What is behind a token.
  abbrev rest_of : Option (List ℕ) → List (List ℕ)
  rest_of none = []
  rest_of (some s) = pieces d s

  take_token-pieces :
      (s : List ℕ) → pieces d s ≡ (take_token delim s).0 ∷ rest_of (take_token delim s).1
  unfolding take_token pieces
  take_token-pieces [] = refl
  take_token-pieces (c ∷ s) = elim (Bool-cases (d c)) [
    | inl y ↦ rw y refl
    | inr n ↦ rw n (ap (longer c) (take_token-pieces s))
  ]

  -- A text without delimiters in front.
  Starts : List ℕ → Type 0
  Starts [] = Unit
  Starts (c ∷ s) = d c ≡ false

  skip-Starts : (s : List ℕ) → Starts (skip_delims delim s)
  unfolding skip_delims Starts
  skip-Starts [] = tt
  skip-Starts (c ∷ s) =
      in_branch Starts (d c) (skip_delims delim s) (c ∷ s) (λ _. skip-Starts s) (λ n. n)

  -- A token in front of the tokens of what is behind it.
  token_from-pieces :
      (t : List ℕ) (calls : ℕ)
      → Starts t
      → ((o : Option (List ℕ))
          → all_tokens calls delim none o ≡ answers calls (without_empty (rest_of o)))
      → (token_from delim t).0 ∷ all_tokens calls delim none (token_from delim t).1
        ≡ answers (suc calls) (without_empty (pieces d t))
  unfolding take_token pieces Starts answers
  token_from-pieces [] calls h ih = ap (◌∷◌ none) (ih none)
  token_from-pieces (c ∷ t) calls h ih =
      let behind = ih (take_token delim t).1 in
      let parts : without_empty (longer c (pieces d t))
          ≡ (c ∷ (take_token delim t).0) ∷ without_empty (rest_of (take_token delim t).1) =
        ap (λ l. without_empty (longer c l)) (take_token-pieces t) in
      rw h (
        ap (λ l. some (c ∷ (take_token delim t).0) ∷ l) behind
        ∙ ap (answers (suc calls)) (sym parts))

  rest_of-tokens :
      (calls : ℕ) (o : Option (List ℕ))
      → all_tokens calls delim none o ≡ answers calls (without_empty (rest_of o))
  unfolding all_tokens str_tok_r answers
  rest_of-tokens zero o = refl
  rest_of-tokens (suc calls) none = ap (◌∷◌ none) (rest_of-tokens calls none)
  rest_of-tokens (suc calls) (some s) =
      token_from-pieces (skip_delims delim s) calls (skip-Starts s) (λ o. rest_of-tokens calls o)
      ∙ ap (answers (suc calls)) (skip-pieces s)

  -- As many calls of StrTokR as there are, the first with a string and the others with NULLPTR, answer the
  -- pieces of the string between delimiters that are not empty, in their order, and NULLPTR in each call
  -- behind the last of them.
  pub all_tokens-pieces :
      (n : ℕ) (s : List ℕ) (save : Option (List ℕ))
      → all_tokens (suc n) delim (some s) save ≡ answers (suc n) (without_empty (pieces d s))
  unfolding all_tokens str_tok_r
  all_tokens-pieces n s save =
      token_from-pieces (skip_delims delim s) n (skip-Starts s) (λ o. rest_of-tokens n o)
      ∙ ap (answers (suc n)) (skip-pieces s)
