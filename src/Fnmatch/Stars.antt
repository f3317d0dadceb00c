-- ===== src/Fnmatch/Stars.antt =====
-- Patterns that end with stars match whatever follows.
use chipchamp.Prelude.{◌≡◌, refl, true, [], ◌∷◌, ◌++◌}
use chipchamp.Text.{Text, codes}
use chipchamp.Fnmatch.{star, match, some_suffix, fnmatch}

match-star : (s : Text) → match (star ∷ []) s ≡ true
unfolding match some_suffix
match-star [] = refl
match-star (c ∷ s) = match-star s

match-stars : (s : Text) → match (star ∷ star ∷ []) s ≡ true
unfolding match some_suffix
match-stars [] = refl
match-stars (c ∷ s) = rw (match-star s) refl

-- The glob of the default protected paths holds every path under the directory.
pub waivers_glob : (s : Text) → fnmatch (codes "waivers/" ++ s) (codes "waivers/**") ≡ true
unfolding fnmatch
waivers_glob s = match-stars s
