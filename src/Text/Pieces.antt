-- ===== src/Text/Pieces.antt =====
-- Splitting what was joined.
use chipchamp.Prelude.{
  ℕ, ◌≡◌, refl, ap, ◌∙◌, false, Bool-cases, inl, inr, List, [], ◌∷◌, ◌++◌, arith, ◌==◌, ==_iff,
}
use chipchamp.Text.{Text, split, join, cons_first}

-- the separator does not occur
abbrev pub IsFree : ℕ → Text → Type 0
IsFree sep [] = Unit
IsFree sep (c ∷ s) = ((c == sep) ≡ false) × IsFree sep s

abbrev pub AllFree : ℕ → List Text → Type 0
AllFree sep [] = Unit
AllFree sep (w ∷ ws) = IsFree sep w × AllFree sep ws

split-free : (sep : ℕ) (w : Text) → IsFree sep w → split sep w ≡ w ∷ []
unfolding split
split-free sep [] h = refl
split-free sep (c ∷ w) h = rw (h.0, split-free sep w h.1)

split-free-append :
    (sep : ℕ) (w rest : Text) → IsFree sep w → split sep (w ++ sep ∷ rest) ≡ w ∷ split sep rest
unfolding split
split-free-append sep [] rest h = ground (arith, ==_iff sep sep)
split-free-append sep (c ∷ w) rest h = rw (h.0, split-free-append sep w rest h.1)

-- Splitting a joined list of words without the separator gives the words back.
pub split-join :
    (sep : ℕ) (w : Text) (ws : List Text)
    → AllFree sep (w ∷ ws)
    → split sep (join sep (w ∷ ws)) ≡ w ∷ ws
unfolding join
split-join sep w [] h = split-free sep w h.0
split-join sep w (v ∷ ws) h =
    split-free-append sep w (join sep (v ∷ ws)) h.0 ∙ ap (◌∷◌ w) (split-join sep v ws h.1)

cons_first-AllFree :
    (sep c : ℕ) (ws : List Text)
    → (c == sep) ≡ false
    → AllFree sep ws
    → AllFree sep (cons_first c ws)
cons_first-AllFree sep c [] e h = ((e, tt), tt)
cons_first-AllFree sep c (w ∷ ws) e h = ((e, h.0), h.1)

pub split-AllFree : (sep : ℕ) (s : Text) → AllFree sep (split sep s)
unfolding split
split-AllFree sep [] = (tt, tt)
split-AllFree sep (c ∷ s) = elim (Bool-cases (c == sep)) [
  | inl e ↦ rw e (tt, split-AllFree sep s)
  | inr e ↦ rw e (cons_first-AllFree sep c (split sep s) e (split-AllFree sep s))
]
