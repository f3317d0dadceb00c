-- ===== src/Coverage/Impact/Examples.antt =====
-- chipchamp/coverage/impact.py: three lines, the last of which was changed since.
use chipchamp.Prelude.{ℕ, suc, ◌≡◌, refl, some, List, [], ◌∷◌, ◌++◌, if◌then◌else◌}
use chipchamp.Text.{Text, codes, text_eq, is_empty}
use chipchamp.Lines.{splitlines, strip}
use chipchamp.Coverage.Impact.{
  Block, nothing, changed, map_block, map_blocks, mapped_lines, recorded_lines,
}
use chipchamp.Coverage.Impact.Told.{Tells, recorded_lines-Tells}

-- the lines that both texts begin with
abbrev common : List Text → List Text → ℕ
common [] ls = 0
common (k ∷ ks) [] = 0
common (k ∷ ks) (l ∷ ls) = let rest = common ks ls in if text_eq k l then suc rest else 0

abbrev beginning : List Text → List Text → List Block
beginning old new = record { a = 0; b = 0; size = common old new } ∷ []

abbrev before : Text
before = codes "a" ++ 10 ∷ codes "b" ++ 10 ∷ codes "c"

abbrev after : Text
after = codes "a" ++ 10 ∷ codes "b" ++ 10 ∷ codes "d" ++ 10 ∷ codes "c"

kept : recorded_lines beginning before after (some (1, 2)) ≡ some (1 ∷ 2 ∷ [], nothing)
unfolding recorded_lines mapped_lines map_blocks map_block splitlines text_eq strip is_empty
kept = refl

edited : recorded_lines beginning before after (some (2, 3)) ≡ some (2 ∷ [], changed)
unfolding recorded_lines mapped_lines map_blocks map_block splitlines text_eq strip is_empty
edited = refl

recorded_lines-Tells_example :
    Tells before after 2 3 (recorded_lines beginning before after (some (2, 3)))
unfolding splitlines text_eq
recorded_lines-Tells_example =
    recorded_lines-Tells before after 2 3 beginning
      (((codes "a", refl, refl), ((codes "b", refl, refl), tt)), tt)
