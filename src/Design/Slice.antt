-- ===== src/Design/Slice.antt =====
-- chipchamp/design/cone.py: `extract_cone`, the walk from a signal along the statements that feed it or
-- that it feeds. Sets are lists in the order of insertion, and `domain_of` answers nothing if it is not
-- given.
pub mod Visits
pub mod Rounds
pub mod Reached
use chipchamp.Prelude.{
  ℕ, zero, suc, ◌+◌, Bool, true, false, not, ◌||◌, Option, none, some, List, [], ◌∷◌, ◌++◌, map,
  length, leb, if◌then◌else◌,
}
use chipchamp.Text.{Text, codes, split, is_empty}
use chipchamp.Design.{Module}
use chipchamp.Design.Cone.{Direction, Driver, SignalInfo, mem, root, roots, statements_of}

pub record ConeSlice : Type 0 where
  pub signal : Text
  pub direction : Direction
  pub depth : ℕ
  pub statements : List Text
  pub signals : List SignalInfo
  pub truncated : Bool

-- what the walk keeps: the signals and the statements that it saw, and the next frontier
pub record State : Type 0 where
  pub seen : List Text
  pub keys : List Text
  pub nxt : List Text
  pub statements : List Text
  pub signals : List SignalInfo
  pub truncated : Bool

abbrev last_of : List Text → Text
last_of [] = []
last_of (t ∷ []) = t
last_of (t ∷ u ∷ ts) = last_of (u ∷ ts)

-- `nxt - seen_sig`
abbrev pub minus : List Text → List Text → List Text
minus [] seen = []
minus (t ∷ ts) seen = let rest = minus ts seen in if mem t seen then rest else t ∷ rest

-- `step` gives the statements of a signal.
module _ (step : Text → List Driver) (domain_of : Text → Option Text) (max_stmts : ℕ) where
  abbrev key_of : Driver → Text
  key_of d = d.loc ++ b'|' ∷ d.text

  -- a statement that was not seen is taken in; the walk ends if there are enough
  abbrev pub add_stmt : Driver → State → State
  add_stmt d st = if mem (key_of d) st.keys then st else record st {
    keys = key_of d ∷ st.keys;
    statements = st.statements ++ (codes "// " ++ (d.loc ++ 10 ∷ d.text)) ∷ [];
    truncated = leb max_stmts (length st.statements + 1);
  }

  abbrev pub behind : Driver → State → State
  behind d st = record st { nxt = st.nxt ++ roots d.ups }

  unfoldable pub add_drivers : List Driver → State → State
  add_drivers [] st = st
  add_drivers (d ∷ ds) st =
      let rest = add_drivers ds (behind d (add_stmt d st)) in
      if (add_stmt d st).truncated then add_stmt d st else rest

  -- a signal is listed with its statements
  abbrev pub note : Text → State → State
  note s st = record st {
    seen = st.seen ++ s ∷ [];
    signals =
        st.signals
        ++ record {
          name = s;
          domain = domain_of s;
          drivers = map {A = Driver} (λ d. d.loc) (step s);
        }
          ∷ [];
  }

  abbrev pub visit_one : Text → State → State
  visit_one s st = if mem s st.seen then st else add_drivers (step s) (note s st)

  -- one round over a frontier
  unfoldable pub visit : List Text → State → State
  unfolding add_drivers
  visit [] st = st
  visit (s ∷ ss) st =
      let rest = visit ss (visit_one s st) in
      if (visit_one s st).truncated then visit_one s st else rest

  abbrev pub fresh_round : State → State
  fresh_round st = record st { nxt = [] }

  unfoldable pub rounds : ℕ → List Text → State → State
  unfolding visit
  rounds zero frontier st = st
  rounds (suc n) frontier st =
      let after = visit frontier (fresh_round st) in
      let rest = rounds n (minus after.nxt after.seen) after in
      if after.truncated || is_empty (minus after.nxt after.seen) then after else rest

abbrev pub start : State
start = record { seen = []; keys = []; nxt = []; statements = []; signals = []; truncated = false }

abbrev pub slice_of : Text → Direction → ℕ → State → ConeSlice
slice_of sig dir depth st = record {
  signal = sig;
  direction = dir;
  depth = depth;
  statements = st.statements;
  signals = st.signals;
  truncated = st.truncated;
}

-- `signal.split(".")[-1].split("[")[0]`
unfoldable pub origin : Text → Text
unfolding split root
origin sig = root (last_of (split b'.' sig))

unfoldable pub extract_cone :
    (port_dir : Text → Text → Option Text) (domain_of : Text → Option Text)
    → Module
    → Text
    → Direction
    → ℕ
    → ℕ
    → ConeSlice
unfolding rounds statements_of
extract_cone port_dir domain_of m sig dir depth max_stmts =
    slice_of sig dir depth (
      rounds (λ s. statements_of port_dir dir m s) domain_of max_stmts depth (origin sig ∷ [])
        start)
