-- ===== src/Physical/Sweep/Order.antt =====
-- chipchamp/physical/sweep.py: to beat is a strict order, in which a missing value is the worst.
use chipchamp.Prelude.{
  ◌≡◌, refl, Bool, true, false, ◌&&◌, ◌||◌, Option, none, some, List, [], ◌∷◌, arith, and_parts,
  inl, inr, ◌⊎◌,
}
use chipchamp.Prelude.Int.{ℤ}
use chipchamp.Text.{Text, any, all}
use chipchamp.Dict.{get}
use chipchamp.Physical.Sweep.{Goal, minimize, maximize, Point, better_eq, strictly_better, beats}

pub or_cases : (a b : Bool) → a || b ≡ true → (a ≡ true) ⊎ (b ≡ true)
or_cases true b h = inl refl
or_cases false b h = inr h

pub or_right : (a b : Bool) → b ≡ true → a || b ≡ true
or_right true b h = refl
or_right false b h = h

and_false : (a : Bool) → a && false ≡ false
and_false true = refl
and_false false = refl

better_eq_trans :
    (g : Goal) (a b c : Option ℤ)
    → better_eq g a b ≡ true
    → better_eq g b c ≡ true
    → better_eq g a c ≡ true
unfolding better_eq
better_eq_trans g none none none h k = refl
better_eq_trans g none none (some c) h k = k
better_eq_trans g none (some b) c h k = cc
better_eq_trans g (some a) b none h k = refl
better_eq_trans g (some a) none (some c) h k = cc
better_eq_trans minimize (some a) (some b) (some c) h k = ground arith
better_eq_trans maximize (some a) (some b) (some c) h k = ground arith

-- who is better is as good, and the other one is not
strictly_better_trans :
    (g : Goal) (a b c : Option ℤ)
    → strictly_better g a b ≡ true
    → better_eq g b c ≡ true
    → strictly_better g a c ≡ true
unfolding better_eq strictly_better
strictly_better_trans g none b c h k = cc
strictly_better_trans g (some a) b none h k = refl
strictly_better_trans g (some a) none (some c) h k = cc
strictly_better_trans minimize (some a) (some b) (some c) h k = ground arith
strictly_better_trans maximize (some a) (some b) (some c) h k = ground arith

strictly_better_irrefl : (g : Goal) (a : Option ℤ) → strictly_better g a a ≡ false
unfolding strictly_better
strictly_better_irrefl g none = refl
strictly_better_irrefl minimize (some a) = ground arith
strictly_better_irrefl maximize (some a) = ground arith

all_trans :
    (axes : List (Text × Goal)) (p q r : Point)
    → all (λ a. better_eq a.1 (get a.0 p) (get a.0 q)) axes ≡ true
    → all (λ a. better_eq a.1 (get a.0 q) (get a.0 r)) axes ≡ true
    → all (λ a. better_eq a.1 (get a.0 p) (get a.0 r)) axes ≡ true
all_trans [] p q r h k = refl
all_trans ((x, g) ∷ axes) p q r h k =
    let (a, b) = and_parts (better_eq g (get x p) (get x q)) _ h in
    let (c, d) = and_parts (better_eq g (get x q) (get x r)) _ k in
    let first = better_eq_trans g (get x p) (get x q) (get x r) a c in
    let rest = all_trans axes p q r b d in rw (first, rest)

any_trans :
    (axes : List (Text × Goal)) (p q r : Point)
    → any (λ a. strictly_better a.1 (get a.0 p) (get a.0 q)) axes ≡ true
    → all (λ a. better_eq a.1 (get a.0 q) (get a.0 r)) axes ≡ true
    → any (λ a. strictly_better a.1 (get a.0 p) (get a.0 r)) axes ≡ true
any_trans [] p q r h k = h
any_trans ((x, g) ∷ axes) p q r h k =
    let (c, d) = and_parts (better_eq g (get x q) (get x r)) _ k in
    elim (or_cases (strictly_better g (get x p) (get x q)) _ h) [
      | inl s ↦ rw (strictly_better_trans g (get x p) (get x q) (get x r) s c)
      | inr s ↦ or_right (strictly_better g (get x p) (get x r)) _ (any_trans axes p q r s d)
    ]

none_better :
    (axes : List (Text × Goal)) (p : Point)
    → any (λ a. strictly_better a.1 (get a.0 p) (get a.0 p)) axes ≡ false
none_better [] p = refl
none_better ((x, g) ∷ axes) p = rw (strictly_better_irrefl g (get x p), none_better axes p)

pub beats_trans :
    (axes : List (Text × Goal)) (p q r : Point)
    → beats axes p q ≡ true
    → beats axes q r ≡ true
    → beats axes p r ≡ true
unfolding beats
beats_trans axes p q r h k =
    let (a, b) = and_parts _ _ h in
    let (c, d) = and_parts _ _ k in rw (all_trans axes p q r a c, any_trans axes p q r b c)

pub beats_irrefl : (axes : List (Text × Goal)) (p : Point) → beats axes p p ≡ false
unfolding beats
beats_irrefl axes p = rw (none_better axes p) (and_false _)
