-- ===== src/Lines.antt =====
-- Python's `str.splitlines` and `str.strip`.
use chipchamp.Prelude.{ℕ, Bool, ◌&&◌, ◌||◌, List, [], ◌∷◌, leb, ◌==◌, if◌then◌else◌}
use chipchamp.Text.{Text, starts_with, cons_first}
use chipchamp.Regex.{is_space}

abbrev is_break : ℕ → Bool
is_break c = leb 10 c && leb c 13 || leb 28 c && leb c 30 || c == 133 || c == 8232 || c == 8233

-- A carriage return with a newline behind it is one break.
unfoldable pub splitlines : Text → List Text
unfolding starts_with
splitlines [] = []
splitlines (c ∷ s) =
    let rest = splitlines s in
    if c == 13 && starts_with s (10 ∷ [])
    then rest
    else if is_break c
    then [] ∷ rest
    else cons_first c rest

abbrev pub strip_left : Text → Text
strip_left [] = []
strip_left (c ∷ s) = let rest = strip_left s in if is_space c then rest else c ∷ s

abbrev keep_unless_blank : ℕ → Text → Text
keep_unless_blank c [] = if is_space c then [] else c ∷ []
keep_unless_blank c (d ∷ s) = c ∷ d ∷ s

abbrev strip_right : Text → Text
strip_right [] = []
strip_right (c ∷ s) = keep_unless_blank c (strip_right s)

unfoldable pub strip : Text → Text
strip s = strip_right (strip_left s)
