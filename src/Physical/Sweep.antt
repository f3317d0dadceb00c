-- ===== src/Physical/Sweep.antt =====
-- chipchamp/physical/sweep.py: `pareto`, which marks the points of a sweep that no other one beats. A
-- point is what its keys hold that are numbers, in exact units; points are told apart by their places.
pub mod Order
pub mod Beats
pub mod Frontier
use chipchamp.Prelude.{
  ℕ, ◌+◌, Bool, true, false, not, ◌&&◌, ◌||◌, Option, none, some, List, [], ◌∷◌, ◌==◌,
}
use chipchamp.Prelude.Int.{ℤ, ltb_ℤ}
use chipchamp.Text.{Text, any, all}
use chipchamp.Dict.{Dict, get}

pub data Goal : Type 0 where
  minimize maximize : Goal

abbrev pub Point : Type 0
Point = Dict ℤ

-- `a <= b` under "min", `a >= b` else
abbrev pub as_good : Goal → ℤ → ℤ → Bool
as_good minimize a b = not (ltb_ℤ b a)
as_good maximize a b = not (ltb_ℤ a b)

abbrev pub better : Goal → ℤ → ℤ → Bool
better minimize a b = ltb_ℤ a b
better maximize a b = ltb_ℤ b a

-- `better_eq`, of the two values
unfoldable pub better_eq : Goal → Option ℤ → Option ℤ → Bool
better_eq g none none = true
better_eq g none (some b) = false
better_eq g (some a) none = true
better_eq g (some a) (some b) = as_good g a b

unfoldable pub strictly_better : Goal → Option ℤ → Option ℤ → Bool
strictly_better g none b = false
strictly_better g (some a) none = true
strictly_better g (some a) (some b) = better g a b

-- the test of the inner loop
unfoldable pub beats : List (Text × Goal) → Point → Point → Bool
unfolding get better_eq strictly_better
beats axes q p =
    all (λ a. better_eq a.1 (get a.0 q) (get a.0 p)) axes
    && any (λ a. strictly_better a.1 (get a.0 q) (get a.0 p)) axes

-- the inner loop, `j` turns on, for the point at place `i`
unfoldable pub dominated : List (Text × Goal) → ℕ → Point → ℕ → List Point → Bool
unfolding beats
dominated axes i p j [] = false
dominated axes i p j (q ∷ qs) = not (j == i) && beats axes q p || dominated axes i p (j + 1) qs

unfoldable pub mark : List (Text × Goal) → List Point → ℕ → List Point → List (Point × Bool)
unfolding dominated
mark axes points i [] = []
mark axes points i (p ∷ ps) = (p, not (dominated axes i p 0 points)) ∷ mark axes points (i + 1) ps

unfoldable pub pareto : List Point → List (Text × Goal) → List (Point × Bool)
unfolding mark
pareto points axes = mark axes points 0 points
