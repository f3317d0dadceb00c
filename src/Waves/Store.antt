-- ===== src/Waves/Store.antt =====
-- chipchamp/waves/store.py: the queries of `WaveStore` on a parsed dump. The times that the store
-- keeps beside the changes are computed from them here. A code that `id_for` answers has a list of
-- changes, since the parser declares both at once; where it has none the model's list is empty.
pub mod Held
pub mod Window
use chipchamp.Prelude.{
  ℕ, zero, suc, ◌+◌, ◌-◌, ◌≡◌, refl, Bool, true, false, not, ◌&&◌, ◌||◌, Option, none, some, List,
  [], ◌∷◌, ◌++◌, map, leb, ltb, ◌==◌, min, max, length, get_elem?, take, drop, if◌then◌else◌,
}
use chipchamp.Text.{Text, codes, text_eq, contains, starts_with, is_empty, any}
use chipchamp.Dict.{Dict, get, put, keys}
use chipchamp.Waves.Vcd.{VcdData, VcdSignal, Change, id_for}
use chipchamp.Waves.Bisect.{bisect_right, bisect_left}

pub record WaveStore : Type 0 where
  pub vcd : VcdData
  pub provenance : Text

abbrev pub or_empty : Option (List Change) → List Change
or_empty none = []
or_empty (some ch) = ch

unfoldable pub changes_of : WaveStore → Text → List Change
unfolding get
changes_of store code = or_empty (get code store.vcd.changes)

abbrev pub times : List Change → List ℕ
times [] = []
times ((t, v) ∷ ch) = t ∷ times ch

-- the value of the change before a place
abbrev pub value_before : List Change → ℕ → Option Text
value_before ch zero = none
value_before ch (suc i) = elim (get_elem? ch i) [ none ↦ none | some (t, v) ↦ some v ]

unfoldable pub value_in : List Change → ℕ → Option Text
value_in ch t = value_before ch (bisect_right (times ch) t)

unfoldable pub value : WaveStore → Text → ℕ → Option Text
value store path t = elim (id_for store.vcd path) [
  | none ↦ none
  | some code ↦ value_in (changes_of store code) t
]

abbrev unknown : ℕ → Bool
unknown c = c == b'x' || c == b'z'

pub is_x : Option Text → Bool
is_x none = true
is_x (some v) = any (λ c. unknown c) v

-- the changes of a window
pub within : ℕ → ℕ → List Change → List Change
within t0 t1 [] = []
within t0 t1 ((t, v) ∷ ch) =
    let rest = within t0 t1 ch in if leb t0 t && leb t t1 then (t, v) ∷ rest else rest

-- The answer of `changes`: the transitions, and whether some are left out; `none` is the error.
pub changes : WaveStore → Text → ℕ → ℕ → ℕ → Option (List Change × Bool)
changes store path t0 t1 max_count = elim (id_for store.vcd path) [
  | none ↦ none
  | some code ↦
      let out = within t0 t1 (changes_of store code) in
      some (take max_count out, ltb max_count (length out))
]

-- The answer of `trace_x`.
pub data Trace : Type 0 where
  not_found never : Trace
  first_x : ℕ → Text → Trace

abbrev early : Option ℕ → ℕ → Bool
early none t = false
early (some from) t = ltb t from

pub trace_in : Option ℕ → List Change → Trace
unfolding is_x
trace_in from [] = never
trace_in from ((t, v) ∷ ch) =
    if not (early from t) && is_x (some v) then first_x t v else trace_in from ch

pub trace_x : WaveStore → Text → Option ℕ → Trace
trace_x store path from = elim (id_for store.vcd path) [
  | none ↦ not_found
  | some code ↦ trace_in from (changes_of store code)
]

-- A signal's part of a snapshot. Its width and type are those of the declaration.
pub record Slice : Type 0 where
  pub edges : List Change
  pub edge_count : ℕ
  pub omitted_edges : ℕ
  pub truncated_at : Option ℕ
  pub value_before_start : Option Text
  pub value_at_start : Option Text

abbrev time_at : List Change → ℕ → Option ℕ
time_at ch i = elim (get_elem? ch i) [ none ↦ none | some (t, v) ↦ some t ]

pub slice : List Change → ℕ → ℕ → ℕ → Slice
slice ch t0 t1 max_edges =
    let lo = bisect_left (times ch) t0 in
    let hi = bisect_right (times ch) t1 in
    let end = min hi (lo + max_edges) in
    record {
      edges = take (end - lo) (drop lo ch);
      edge_count = hi - lo;
      omitted_edges = hi - end;
      truncated_at = if ltb end hi then time_at ch end else none;
      value_before_start = value_before ch lo;
      value_at_start = value_in ch t0;
    }

pub record Snapshot : Type 0 where
  pub signals : Dict Slice
  pub missing_signals : List Text

abbrev slice_of : WaveStore → Text → ℕ → ℕ → ℕ → Option Slice
slice_of store p t0 t1 max_edges = elim (id_for store.vcd p) [
  | none ↦ none
  | some code ↦ some (slice (changes_of store code) t0 t1 max_edges)
]

abbrev add_slice : Text → Option Slice → Snapshot → Snapshot
add_slice p none shot = record shot { missing_signals = shot.missing_signals ++ p ∷ [] }
add_slice p (some s) shot = record shot { signals = put p s shot.signals }

pub snapshot_from : WaveStore → ℕ → ℕ → ℕ → Snapshot → List Text → Snapshot
unfolding put
snapshot_from store t0 t1 max_edges shot [] = shot
snapshot_from store t0 t1 max_edges shot (p ∷ ps) =
    snapshot_from store t0 t1 max_edges (add_slice p (slice_of store p t0 t1 max_edges) shot) ps

-- `none` is the ValueError.
pub snapshot : WaveStore → List Text → ℕ → ℕ → ℕ → Option Snapshot
unfolding snapshot_from
snapshot store paths t0 t1 max_edges =
    if ltb t1 t0 || ltb max_edges 1
    then none
    else some
        (snapshot_from store t0 t1 max_edges (record { signals = []; missing_signals = [] }) paths)
