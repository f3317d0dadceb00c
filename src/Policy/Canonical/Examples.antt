-- ===== src/Policy/Canonical/Examples.antt =====
-- A path that goes up and down again.
use chipchamp.Prelude.{refl, []}
use chipchamp.Text.{Text, codes, split, slash, forward, starts_with}
use chipchamp.Policy.Canonical.{isabs, canonical}
use chipchamp.Policy.Canonical.Steps.{walk}
use chipchamp.Policy.Canonical.Walk.{Denotes, canonical-Denotes}

abbrev winding : Text
winding = codes "rtl\\..//a/./b"

canonical-Denotes_example : Denotes (walk [] (split slash (forward winding))) (canonical winding)
unfolding isabs forward starts_with
canonical-Denotes_example = canonical-Denotes winding refl
