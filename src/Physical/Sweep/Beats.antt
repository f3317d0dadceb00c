-- ===== src/Physical/Sweep/Beats.antt =====
-- chipchamp/physical/sweep.py: what it means that a point beats another.
use mathlib.Core.List.{Memᴰ}
use chipchamp.Prelude.{
  ◌≡◌, ◌↔◌, refl, Bool, true, false, ◌&&◌, Option, none, some, List, arith, and_parts,
}
use chipchamp.Prelude.Int.{ℤ, ◌≤ℤ◌}
use chipchamp.Text.{Text}
use chipchamp.Text.Quantifiers.{any-true, all-Mem, Mem-all, Mem-any}
use chipchamp.Dict.{get}
use chipchamp.Physical.Sweep.{Goal, minimize, maximize, Point, better_eq, strictly_better, beats}

-- The value is at least as good as the other one; a missing value is the worst.
abbrev pub AsGood : Goal → Option ℤ → Option ℤ → Type 0
AsGood g a none = Unit
AsGood g none (some b) = ⊥
AsGood minimize (some a) (some b) = a ≤ℤ b
AsGood maximize (some a) (some b) = b ≤ℤ a

abbrev pub Better : Goal → Option ℤ → Option ℤ → Type 0
Better g a b = AsGood g a b × (AsGood g b a → ⊥)

-- The point is as good on all axes and better on one.
pub record Beats (axes : List (Text × Goal)) (q p : Point) : Type 0 where
  pub on_all : (a : Text × Goal) → Memᴰ a axes → AsGood a.1 (get a.0 q) (get a.0 p)
  pub axis : Text × Goal
  pub among : Memᴰ axis axes
  pub on_one : Better axis.1 (get axis.0 q) (get axis.0 p)

better_eq_iff : (g : Goal) (a b : Option ℤ) → (better_eq g a b ≡ true) ↔ AsGood g a b
unfolding better_eq
better_eq_iff g none none = (λ h. tt, λ h. refl)
better_eq_iff g (some a) none = (λ h. tt, λ h. refl)
better_eq_iff g none (some b) = (λ h. cc, λ h. absurd h)
better_eq_iff minimize (some a) (some b) = ground arith
better_eq_iff maximize (some a) (some b) = ground arith

strictly_better_iff : (g : Goal) (a b : Option ℤ) → (strictly_better g a b ≡ true) ↔ Better g a b
unfolding strictly_better
strictly_better_iff g none none = (λ h. cc, λ h. absurd (h.1 tt))
strictly_better_iff g (some a) none = (λ h. (tt, λ k. k), λ h. refl)
strictly_better_iff g none (some b) = (λ h. cc, λ h. absurd h.0)
strictly_better_iff minimize (some a) (some b) = ground arith
strictly_better_iff maximize (some a) (some b) = ground arith

both_true : (a b : Bool) → a ≡ true → b ≡ true → a && b ≡ true
both_true true b h k = k
both_true false b h k = h

pub beats-Beats :
    (axes : List (Text × Goal)) (q p : Point) → (beats axes q p ≡ true) ↔ Beats axes q p
unfolding beats
beats-Beats axes q p = (
  λ h.
      let (a, o) = and_parts _ _ h in
      let (axis, m, t) = any-true (λ a. strictly_better a.1 (get a.0 q) (get a.0 p)) axes o in
      record {
        on_all = λ x k.
            (better_eq_iff x.1 (get x.0 q) (get x.0 p)).0
              (all-Mem (λ a. better_eq a.1 (get a.0 q) (get a.0 p)) axes a k);
        axis = axis;
        among = m;
        on_one = (strictly_better_iff axis.1 (get axis.0 q) (get axis.0 p)).0 t;
      },
  λ h.
      both_true _ _
        (Mem-all (λ a. better_eq a.1 (get a.0 q) (get a.0 p)) axes
          (λ x k. (better_eq_iff x.1 (get x.0 q) (get x.0 p)).1 (h.on_all x k)))
        (Mem-any (λ a. strictly_better a.1 (get a.0 q) (get a.0 p)) axes h.among
          ((strictly_better_iff h.axis.1 (get h.axis.0 q) (get h.axis.0 p)).1 h.on_one)),
)
