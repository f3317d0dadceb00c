-- ===== src/Policy/Classify/Clocks.antt =====
-- chipchamp/policy/classify.py: `_touches_domains`, with its regular expression
-- `posedge\s+([A-Za-z_]\w*)` as a scanner over ASCII text.
use chipchamp.Prelude.{
  ℕ, zero, suc, ◌+◌, ◌-◌, Bool, ◌&&◌, ◌||◌, List, [], ◌∷◌, ◌≡◌, refl, leb, ◌==◌, length, drop,
  if◌then◌else◌,
}
use chipchamp.Text.{Text, codes, text_eq, starts_with, take_while, any, is_empty}
use chipchamp.Policy.Diff.{FileChange, is_rtl}

-- `\s`, `[A-Za-z_]` and `\w`
abbrev is_space : ℕ → Bool
is_space c = c == 32 || leb 9 c && leb c 13 || leb 28 c && leb c 31

abbrev starts_name : ℕ → Bool
starts_name c = leb b'a' c && leb c b'z' || leb b'A' c && leb c b'Z' || c == b'_'

abbrev in_name : ℕ → Bool
in_name c = starts_name c || leb b'0' c && leb c b'9'

-- the name behind the keyword and the spaces, and how far the match reaches
abbrev named : ℕ → Text → Text × ℕ
named spaces [] = ([], 0)
named spaces (c ∷ s) =
    if starts_name c
    then (c ∷ take_while in_name s, 7 + spaces + 1 + length (take_while in_name s))
    else ([], 0)

match_at : Text → Text × ℕ
unfolding take_while
match_at s =
    let spaces = length (take_while is_space (drop 7 s)) in
    if starts_with s (codes "posedge") && leb 1 spaces
    then named spaces (drop (7 + spaces) s)
    else ([], 0)

-- `findall`: the characters of a match are passed over, here by the count `skip`
find_clocks : ℕ → Text → List Text
find_clocks skip [] = []
find_clocks (suc skip) (c ∷ s) = find_clocks skip s
find_clocks zero (c ∷ s) =
    let (clock, reach) = match_at (c ∷ s) in
    let found = clock ∷ find_clocks (reach - 1) s in
    let none_here = find_clocks zero s in if is_empty clock then none_here else found

pub posedge_clocks : Text → List Text
unfolding match_at find_clocks starts_with is_empty
posedge_clocks s = find_clocks zero s

-- the members of the set without `rst_n` and `rst`
pub domains : List Text → List Text
unfolding text_eq
domains [] = []
domains (c ∷ cs) =
    let rest = domains cs in
    if any (λ d. text_eq c d) rest || text_eq c (codes "rst_n") || text_eq c (codes "rst")
    then rest
    else c ∷ rest

unfoldable pub touches_domains : List FileChange → Bool
unfolding posedge_clocks domains
touches_domains fs = any (λ f. is_rtl f && leb 2 (length (domains (posedge_clocks f.new_text)))) fs

two_clocks :
    domains (
      posedge_clocks
        (codes "always @(posedge clk_a or negedge rst) posedge  rst; posedge clk_b, posedge clk_a"))
    ≡ codes "clk_b" ∷ codes "clk_a" ∷ []
unfolding posedge_clocks domains
two_clocks = refl
