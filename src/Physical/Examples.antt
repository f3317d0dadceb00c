-- ===== src/Physical/Examples.antt =====
-- Three configurations of a sweep: one is beaten, and one has no delay.
use mathlib.Core.List.{Memᴰ}
use chipchamp.Prelude.{◌≡◌, refl, ◌↔◌, true, false, List, [], ◌∷◌}
use chipchamp.Prelude.Int.{pos}
use chipchamp.Text.{Text, codes, text_eq}
use chipchamp.Dict.{get}
use chipchamp.Physical.Sweep.{
  Goal, minimize, Point, beats, better_eq, strictly_better, dominated, mark, pareto,
}
use chipchamp.Physical.Sweep.Frontier.{pareto-Says}
use chipchamp.Physical.Sweep.Beats.{Beats}

abbrev axes : List (Text × Goal)
axes = (codes "area", minimize) ∷ (codes "delay", minimize) ∷ []

abbrev small : Point
small = (codes "area", pos 10) ∷ (codes "delay", pos 9) ∷ []

abbrev large : Point
large = (codes "area", pos 12) ∷ (codes "delay", pos 9) ∷ []

abbrev untimed : Point
untimed = (codes "area", pos 10) ∷ []

abbrev points : List Point
points = large ∷ small ∷ untimed ∷ []

pareto_example : pareto points axes ≡ (large, false) ∷ (small, true) ∷ (untimed, false) ∷ []
unfolding pareto mark dominated beats better_eq strictly_better get text_eq
pareto_example = refl

large_at : Memᴰ (large, false) (pareto points axes)
unfolding pareto mark dominated beats better_eq strictly_better get text_eq
large_at = Memᴰ.head refl

pareto-Says_example :
    ((false ≡ true) ↔ ((q : Point) → Memᴰ q points → Beats axes q large → ⊥))
    × (false ≡ false → (q : Point) × Memᴰ (q, true) (pareto points axes) × Beats axes q large)
pareto-Says_example = pareto-Says points axes large false large_at
