-- ===== src/Waves/Compare.antt =====
-- chipchamp/waves/store.py: `WaveStore.compare`, the first divergence of two runs. Where the source
-- writes a value as a text, the model keeps it, or its absence.
pub mod Times
pub mod Signals
pub mod First
use chipchamp.Prelude.{
  ℕ, zero, suc, ◌≡◌, refl, Bool, true, false, not, ◌&&◌, ◌||◌, Option, none, some, List, [], ◌∷◌,
  ◌++◌, map, leb, ltb, ◌==◌, max, length, if◌then◌else◌,
}
use chipchamp.Text.{Text, text_eq, contains, starts_with, is_empty}
use chipchamp.Dict.{keys}
use chipchamp.Waves.Vcd.{Change, id_for}
use chipchamp.Waves.Store.{WaveStore, changes_of, times, value}

pub record Divergence : Type 0 where
  pub signal : Text
  pub time : ℕ
  pub value_a : Option Text
  pub value_b : Option Text

abbrev dotted : Text → Text
dotted s = b'.' ∷ s ++ b'.' ∷ []

pub in_scope : Text → Text → Bool
unfolding is_empty starts_with text_eq contains
in_scope scope p =
    is_empty scope
    || starts_with p (scope ++ b'.' ∷ [])
    || text_eq p scope
    || contains (b'.' ∷ p) (dotted scope)
    || contains p scope

abbrev has_signal : WaveStore → Text → Bool
has_signal store p = elim (id_for store.vcd p) [ none ↦ false | some code ↦ true ]

-- the loop that fills `common`
pub commons : WaveStore → Text → ℕ → List Text → List Text → List Text
commons other scope limit acc [] = acc
commons other scope limit acc (p ∷ ps) =
    let next = if in_scope scope p && has_signal other p then acc ++ p ∷ [] else acc in
    let rest = commons other scope limit next ps in
    if in_scope scope p && leb limit (length next) then next else rest

abbrev pub signal_changes : WaveStore → Text → List Change
signal_changes store p = elim (id_for store.vcd p) [ none ↦ [] | some code ↦ changes_of store code ]

abbrev pub changes_at : WaveStore → Text → List ℕ
changes_at store p = times (signal_changes store p)

unfoldable pub times_within : ℕ → ℕ → List ℕ → List ℕ
times_within t0 t1 [] = []
times_within t0 t1 (t ∷ ts) =
    let rest = times_within t0 t1 ts in if leb t0 t && leb t t1 then t ∷ rest else rest

-- `cand`, before it is made a set
unfoldable pub candidates : WaveStore → WaveStore → ℕ → ℕ → List Text → List ℕ
candidates a b t0 t1 [] = []
candidates a b t0 t1 (p ∷ ps) =
    times_within t0 t1 (changes_at a p)
    ++ (times_within t0 t1 (changes_at b p) ++ candidates a b t0 t1 ps)

-- `sorted` of the set of the times
unfoldable pub insert_time : ℕ → List ℕ → List ℕ
insert_time t [] = t ∷ []
insert_time t (u ∷ us) =
    let rest = insert_time t us in
    if ltb t u then t ∷ u ∷ us else if t == u then u ∷ us else u ∷ rest

unfoldable pub sorted_times : List ℕ → List ℕ
sorted_times [] = []
sorted_times (t ∷ ts) = insert_time t (sorted_times ts)

unfoldable pub same_value : Option Text → Option Text → Bool
unfolding text_eq
same_value none none = true
same_value none (some w) = false
same_value (some v) none = false
same_value (some v) (some w) = text_eq v w

-- the inner loop: the first signal that differs at a time
unfoldable pub differs_at : WaveStore → WaveStore → ℕ → List Text → Option Divergence
differs_at a b t [] = none
differs_at a b t (p ∷ ps) =
    let va = value a p t in
    let vb = value b p t in
    if same_value va vb
    then differs_at a b t ps
    else some (record { signal = p; time = t; value_a = va; value_b = vb })

-- the outer loop
unfoldable pub first_of : WaveStore → WaveStore → List Text → List ℕ → Option Divergence
first_of a b common [] = none
first_of a b common (t ∷ ts) = elim (differs_at a b t common) [
  | some d ↦ some d
  | none ↦ first_of a b common ts
]

unfoldable pub first_divergence : WaveStore → WaveStore → List Text → ℕ → ℕ → Option Divergence
first_divergence a b common t0 t1 = first_of a b common (sorted_times (candidates a b t0 t1 common))

abbrev pub window_of : WaveStore → WaveStore → Option (ℕ × ℕ) → ℕ × ℕ
window_of a b none = (0, max a.vcd.end_time b.vcd.end_time)
window_of a b (some w) = w

abbrev pub common_of : WaveStore → WaveStore → Text → ℕ → List Text
common_of a b scope limit = commons b scope limit [] (keys a.vcd.by_path)

-- the first divergence, and how many signals were compared
pub compare : WaveStore → WaveStore → Text → Option (ℕ × ℕ) → ℕ → Option Divergence × ℕ
compare a b scope window limit =
    let (t0, t1) = window_of a b window in
    let common = common_of a b scope limit in (first_divergence a b common t0 t1, length common)
