-- ===== src/Strings/Text/Tokens.antt =====
-- Kernel/Source/Lib/String.c: StrTokR and StrrChr. The NUL that StrTokR writes behind a token ends the list of
-- the token, which is what the pointer that is answered points to then.
pub mod Pieces
use k_os.Prelude.{
  ℕ, suc, ◌%◌, ◌^◌, Bool, true, false, Option, none, some, List, [], ◌∷◌, ◌==◌, if◌then◌else◌,
}
use k_os.Strings.Text.{str_chr}

-- StrChr(Delim, C)
abbrev pub is_found : Option ℕ → Bool
is_found none = false
is_found (some i) = true

abbrev pub is_delim : List ℕ → ℕ → Bool
is_delim delim c = is_found (str_chr delim c)

-- while (*Start && StrChr(Delim, *Start)) Start++;
unfoldable pub skip_delims : List ℕ → List ℕ → List ℕ
skip_delims delim [] = []
skip_delims delim (c ∷ s) =
    let rest = skip_delims delim s in if is_delim delim c then rest else c ∷ s

-- The loop over P, and the pointer behind the delimiter that it has found.
unfoldable pub take_token : List ℕ → List ℕ → List ℕ × Option (List ℕ)
take_token delim [] = ([], none)
take_token delim (c ∷ s) =
    let rest = take_token delim s in if is_delim delim c then ([], some s) else (c ∷ rest.0, rest.1)

-- From Start on; the token, `none` for NULLPTR, and what is stored at SavePtr.
abbrev pub token_from : List ℕ → List ℕ → Option (List ℕ) × Option (List ℕ)
token_from delim [] = (none, none)
token_from delim (c ∷ s) = let found = take_token delim (c ∷ s) in (some found.0, found.1)

abbrev pub token_of : List ℕ → Option (List ℕ) → Option (List ℕ) × Option (List ℕ)
token_of delim none = (none, none)
token_of delim (some s) = token_from delim (skip_delims delim s)

-- if (Str) *SavePtr = Str;
abbrev pub first_or : Option (List ℕ) → Option (List ℕ) → Option (List ℕ)
first_or none save = save
first_or (some s) save = some s

unfoldable pub str_tok_r :
    Option (List ℕ) → List ℕ → Option (List ℕ) → Option (List ℕ) × Option (List ℕ)
str_tok_r str delim save = token_of delim (first_or str save)

-- The loop of StrrChr, with the index of Last.
unfoldable pub str_rchr_loop : ℕ → Option ℕ → List ℕ → ℕ → Option ℕ
str_rchr_loop i last [] c = if c == 0 then some i else last
str_rchr_loop i last (x ∷ s) c = str_rchr_loop (suc i) (if x == c then some i else last) s c

unfoldable pub str_rchr : List ℕ → ℕ → Option ℕ
str_rchr s c = str_rchr_loop 0 none s (c % 2 ^ 8)
