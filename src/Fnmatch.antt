-- ===== src/Fnmatch.antt =====
-- `fnmatch.fnmatch` of Python's library, on POSIX, as the policy and the wave queries use it: a
-- pattern is compiled to pieces, and a text matches if the pieces consume it whole.
-- (An empty range such as `[z-a]` holds nothing. CPython joins what stands round it into other
-- text before it compiles the set; no pattern in the repository has one.)
pub mod Stars
use chipchamp.Prelude.{
  ℕ, zero, suc, ◌≡◌, refl, Bool, true, false, not, ◌&&◌, ◌||◌, Option, none, some, List, [], ◌∷◌,
  leb, length, ◌==◌, if◌then◌else◌,
}
use chipchamp.Text.{Text, codes}

pub data Piece : Type 0 where
  star one : Piece
  lit : ℕ → Piece
  class : Bool → List (ℕ × ℕ) → Piece

-- up to the closing bracket, and what stands behind it
abbrev onto : ℕ → Option (Text × Text) → Option (Text × Text)
onto c none = none
onto c (some (body, rest)) = some (c ∷ body, rest)

up_to_bracket : Text → Option (Text × Text)
up_to_bracket [] = none
up_to_bracket (c ∷ s) =
    let rest = onto c (up_to_bracket s) in if c == b']' then some ([], s) else rest

-- a bracket that comes first is an item of the set
set_body : Text → Option (Text × Text)
set_body [] = none
set_body (c ∷ s) = onto c (up_to_bracket s)

ranges : Text → List (ℕ × ℕ)
ranges [] = []
ranges (x ∷ []) = (x, x) ∷ []
ranges (x ∷ d ∷ []) = (x, x) ∷ (d, d) ∷ []
ranges (x ∷ d ∷ y ∷ r) =
    let range = (x, y) ∷ ranges r in
    let single = (x, x) ∷ ranges (d ∷ y ∷ r) in if d == b'-' then range else single

abbrev negates : Text → Bool
negates [] = false
negates (c ∷ s) = c == b'!'

abbrev behind : Text → Text
behind [] = []
behind (c ∷ s) = s

-- the first piece of a pattern that begins with `c`, and the text that is left; an open bracket
-- that is never closed stands for itself
abbrev as_class : Text → Bool → Option (Text × Text) → Piece × Text
as_class s neg none = (lit b'[', s)
as_class s neg (some (body, rest)) = (class neg (ranges body), rest)

next_piece : ℕ → Text → Piece × Text
next_piece c s =
    if c == b'*'
    then (star, s)
    else if c == b'?'
    then (one, s)
    else if c == b'['
    then as_class s (negates s) (set_body (if negates s then behind s else s))
    else (lit c, s)

-- Each round drops a character at least, so the text's length is fuel enough.
translate_from : ℕ → Text → List Piece
translate_from f [] = []
translate_from zero (c ∷ s) = []
translate_from (suc f) (c ∷ s) = let (p, rest) = next_piece c s in p ∷ translate_from f rest

pub translate : Text → List Piece
unfolding translate_from next_piece set_body up_to_bracket ranges
translate s = translate_from (length s) s

abbrev in_ranges : ℕ → List (ℕ × ℕ) → Bool
in_ranges c [] = false
in_ranges c ((lo, hi) ∷ rs) = leb lo c && leb c hi || in_ranges c rs

accepts : Piece → ℕ → Bool
accepts star c = false
accepts one c = true
accepts (lit d) c = d == c
accepts (class neg rs) c = if neg then not (in_ranges c rs) else in_ranges c rs

-- `rest` matches some suffix
some_suffix : (Text → Bool) → Text → Bool
some_suffix rest [] = rest []
some_suffix rest (c ∷ s) = rest (c ∷ s) || some_suffix rest s

abbrev take_one : (ℕ → Bool) → (Text → Bool) → Text → Bool
take_one ok rest [] = false
take_one ok rest (c ∷ s) = ok c && rest s

match : List Piece → Text → Bool
match [] [] = true
match [] (c ∷ s) = false
match (star ∷ ps) s = some_suffix (match ps) s
match (p ∷ ps) s = take_one (accepts p) (match ps) s

unfoldable pub fnmatch : Text → Text → Bool
unfolding translate match accepts some_suffix
fnmatch path pattern = match (translate pattern) path

set_example :
    (fnmatch (codes "a-x.sv") (codes "[!b-d]-?.*") ≡ true)
    × (fnmatch (codes "c-x.sv") (codes "[!b-d]-?.*") ≡ false)
    × (fnmatch (codes "]") (codes "[]x]") ≡ true)
    × (fnmatch (codes "rtl/[a") (codes "rtl/[a") ≡ true)
unfolding fnmatch
set_example = (refl, refl, refl, refl)
