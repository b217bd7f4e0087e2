-- ===== src/Strings/Text/Tests.antt =====
-- Small strings.
use k_os.Prelude.{ℕ, ◌-◌, ◌^◌, ◌≡◌, refl, none, some, List, [], ◌∷◌, arith}
use k_os.Prelude.Ints.{pos}
use k_os.Strings.Text.Tokens.{is_delim, skip_delims, take_token, str_tok_r, str_rchr, str_rchr_loop}
use k_os.Strings.Text.Tokens.Pieces.{pieces, without_empty, answers, all_tokens, all_tokens-pieces}
use k_os.Strings.Text.{
  starts_with, mem_cmp, str_case_cmp, str_case_fold, str_chr_from, str_len, str_str, str_str_loop,
}
use k_os.Strings.Text.Compare.{IsText}
use k_os.Strings.Text.Numbers.{
  a_to_i, u_to_a, emit, reverse_loop, skip_spaces, read_signed, read_digits, a_to_hex,
  char_to_hex_digit, skip_blanks,
}
use k_os.Strings.Text.RoundTrip.{a_to_i-u_to_a}

abbrev banana : List ℕ
banana = b'b' ∷ b'a' ∷ b'n' ∷ b'a' ∷ b'n' ∷ b'a' ∷ []

abbrev ana : List ℕ
ana = b'a' ∷ b'n' ∷ b'a' ∷ []

abbrev upper_ana : List ℕ
upper_ana = b'A' ∷ b'n' ∷ b'A' ∷ []

finds_ana : str_str banana ana ≡ some 1
unfolding str_str str_len str_str_loop starts_with
finds_ana = refl

no_case : str_case_cmp ana upper_ana ≡ pos 0
unfolding str_case_cmp str_case_fold
no_case = refl

first_of : str_chr_from 0 banana b'n' ≡ some 2
unfolding str_chr_from
first_of = refl

second_byte : mem_cmp banana ana 3 ≡ pos 1
unfolding mem_cmp
second_byte = refl

reads_sign : a_to_i (b' ' ∷ b'-' ∷ b'4' ∷ b'2' ∷ b'x' ∷ []) ≡ 2 ^ 32 - 42
unfolding a_to_i skip_spaces read_signed read_digits
reads_sign = refl

reads_hex : a_to_hex (b'0' ∷ b'x' ∷ b'f' ∷ b'C' ∷ []) ≡ 0xfc
unfolding a_to_hex skip_blanks char_to_hex_digit
reads_hex = refl

binary : u_to_a 10 2 ≡ b'1' ∷ b'0' ∷ b'1' ∷ b'0' ∷ []
unfolding u_to_a emit reverse_loop
binary = refl

banana-IsText : IsText banana
banana-IsText = (
  λ e. omega arith,
  (
    (λ e. omega arith),
    ((λ e. omega arith), ((λ e. omega arith), ((λ e. omega arith), ((λ e. omega arith), tt)))),
  ),
)

ana-IsText : IsText ana
ana-IsText = ((λ e. omega arith), ((λ e. omega arith), ((λ e. omega arith), tt)))

a_to_i_example : a_to_i (u_to_a 4095 10) ≡ 4095
a_to_i_example = a_to_i-u_to_a 4095 (omega arith)

-- "a,,bc"
abbrev two_words : List ℕ
two_words = b'a' ∷ b',' ∷ b',' ∷ b'b' ∷ b'c' ∷ []

last_comma : str_rchr two_words b',' ≡ some 2
unfolding str_rchr str_rchr_loop
last_comma = refl

behind_first :
    str_tok_r (some two_words) (b',' ∷ []) none ≡ (some (b'a' ∷ []), some (b',' ∷ b'b' ∷ b'c' ∷ []))
unfolding str_tok_r skip_delims take_token str_chr_from
behind_first = refl

all_tokens_example :
    all_tokens 6 (b',' ∷ []) (some two_words) none
    ≡ answers 6 (without_empty (pieces (is_delim (b',' ∷ [])) two_words))
all_tokens_example = all_tokens-pieces (b',' ∷ []) 5 two_words none
