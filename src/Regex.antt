-- ===== src/Regex.antt =====
-- Python's `re` for the patterns of the policy: a matcher with continuations, over ASCII text. A
-- repetition is of one character class, so that matching recurs on the pattern and the text.
use chipchamp.Prelude.{
  ℕ, Bool, true, false, not, ◌&&◌, ◌||◌, Option, none, some, List, [], ◌∷◌, leb, ◌==◌,
}
use chipchamp.Text.{Text}

pub data Rx : Type 0 where
  empty boundary : Rx
  char : (ℕ → Bool) → Rx
  many : (ℕ → Bool) → Rx
  seq alt : Rx → Rx → Rx

-- `\w`, `\s` and `\d`
abbrev pub is_word : ℕ → Bool
is_word c =
    leb b'a' c && leb c b'z' || leb b'A' c && leb c b'Z' || leb b'0' c && leb c b'9' || c == b'_'

abbrev pub is_space : ℕ → Bool
is_space c = c == 32 || leb 9 c && leb c 13 || leb 28 c && leb c 31

abbrev pub is_digit : ℕ → Bool
is_digit c = leb b'0' c && leb c b'9'

-- where a match stands: the character before, and the text from here on
abbrev Place : Type 0
Place = Option ℕ × Text

abbrev word_at : Option ℕ → Bool
word_at none = false
word_at (some c) = is_word c

abbrev next_char : Text → Option ℕ
next_char [] = none
next_char (c ∷ s) = some c

abbrev differ : Bool → Bool → Bool
differ true b = not b
differ false b = b

one_char : (ℕ → Bool) → (Option ℕ → Text → Bool) → Text → Bool
one_char ok k [] = false
one_char ok k (c ∷ s) = ok c && k (some c) s

many_chars : (ℕ → Bool) → (Option ℕ → Text → Bool) → Option ℕ → Text → Bool
many_chars ok k prev [] = k prev []
many_chars ok k prev (c ∷ s) = k prev (c ∷ s) || ok c && many_chars ok k (some c) s

match : Rx → (Option ℕ → Text → Bool) → Option ℕ → Text → Bool
match empty k prev s = k prev s
match boundary k prev s = differ (word_at prev) (word_at (next_char s)) && k prev s
match (char ok) k prev s = one_char ok k s
match (many ok) k prev s = many_chars ok k prev s
match (seq r q) k prev s = match r (λ p t. match q k p t) prev s
match (alt r q) k prev s = match r k prev s || match q k prev s

search_from : Rx → Option ℕ → Text → Bool
search_from r prev [] = match r (λ p t. true) prev []
search_from r prev (c ∷ s) = match r (λ p t. true) prev (c ∷ s) || search_from r (some c) s

-- `rx.search(s)`, as a truth value
unfoldable pub search : Rx → Text → Bool
unfolding match one_char many_chars search_from
search r s = search_from r none s

-- a literal text, and an alternative of literals
abbrev pub word : Text → Rx
word [] = empty
word (c ∷ []) = char (λ d. c == d)
word (c ∷ d ∷ s) = seq (char (λ e. c == e)) (word (d ∷ s))

abbrev pub one_of : Text → List Text → Rx
one_of w [] = word w
one_of w (v ∷ vs) = alt (word w) (one_of v vs)
