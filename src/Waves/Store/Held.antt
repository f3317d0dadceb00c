-- ===== src/Waves/Store/Held.antt =====
-- chipchamp/waves/store.py: a signal's value at a time, found by the binary search, is the one that
-- a walk over all its changes finds.
use chipchamp.Prelude.{
  ℕ, zero, suc, ◌≡◌, refl, Bool, Option, none, some, List, [], ◌∷◌, sym, ◌∙◌, leb, ltb,
  if◌then◌else◌,
}
use chipchamp.Text.{Text}
use chipchamp.Waves.Vcd.{Change}
use chipchamp.Waves.Bisect.{bisect_right, bisect_left}
use chipchamp.Waves.Bisect.Splits.{Ascending, Splits, bisect_right-Splits, bisect_left-Splits}
use chipchamp.Waves.Store.{times, value_before, value_in}

-- the value of the last change whose time passes the test, or the one held before
unfoldable pub held : (ℕ → Bool) → Option Text → List Change → Option Text
held reached best [] = best
held reached best ((s, v) ∷ ch) = held reached (if reached s then some v else best) ch

abbrev value_or : Option Text → List Change → ℕ → Option Text
value_or best ch zero = best
value_or best ch (suc i) = value_before ch (suc i)

held-value_or :
    (reached : ℕ → Bool) (best : Option Text) (ch : List Change) (n : ℕ)
    → Splits reached (times ch) n
    → held reached best ch ≡ value_or best ch n
unfolding held
held-value_or reached best [] n h = rw h refl
held-value_or reached best ((s, v) ∷ ch) zero h = rw h.0 (held-value_or reached best ch zero h.1)
held-value_or reached best ((s, v) ∷ ch) (suc zero) h =
    rw h.0 (held-value_or reached (some v) ch zero h.1)
held-value_or reached best ((s, v) ∷ ch) (suc (suc n)) h =
    rw h.0 (held-value_or reached (some v) ch (suc n) h.1)

nothing_held : (ch : List Change) (n : ℕ) → value_or none ch n ≡ value_before ch n
nothing_held ch zero = refl
nothing_held ch (suc n) = refl

-- For changes in ascending order of time, the value at a time is that of the last change up to it,
-- and there is none before the first.
pub value_in-held :
    (ch : List Change) (t : ℕ) → Ascending (times ch) → value_in ch t ≡ held (λ s. leb s t) none ch
unfolding value_in
value_in-held ch t h = sym (
    held-value_or (λ s. leb s t) none ch (bisect_right (times ch) t)
      (bisect_right-Splits (times ch) t h)
    ∙ nothing_held ch (bisect_right (times ch) t))

pub value_before-held :
    (ch : List Change) (t : ℕ)
    → Ascending (times ch)
    → value_before ch (bisect_left (times ch) t) ≡ held (λ s. ltb s t) none ch
value_before-held ch t h = sym (
    held-value_or (λ s. ltb s t) none ch (bisect_left (times ch) t)
      (bisect_left-Splits (times ch) t h)
    ∙ nothing_held ch (bisect_left (times ch) t))
