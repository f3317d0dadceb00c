-- ===== src/Waves/When.antt =====
-- chipchamp/waves/store.py: `WaveStore.when`, the search for a time when an expression holds, and
-- `find_signals`. Python's `eval` evaluates the expression at a time: `holds` stands for its answer,
-- and `names` for the signals it reads. The values that the answer shows are not modelled.
use chipchamp.Prelude.{
  ℕ, ◌+◌, Bool, ◌&&◌, ◌||◌, Option, none, some, List, [], ◌∷◌, ◌++◌, leb, take, if◌then◌else◌,
}
use mathlib.Core.List.{reverse}
use chipchamp.Text.{Text, codes, contains, sorted_texts}
use chipchamp.Dict.{keys}
use chipchamp.Fnmatch.{fnmatch}
use chipchamp.Waves.Vcd.{id_for}
use chipchamp.Waves.Store.{WaveStore}
use chipchamp.Waves.Compare.{changes_at, sorted_times}

-- the change times of the signals that the expression reads
pub times_of : WaveStore → List Text → List ℕ
times_of store [] = []
times_of store (n ∷ ns) = changes_at store n ++ times_of store ns

pub up_to : ℕ → List ℕ → List ℕ
up_to t [] = []
up_to t (u ∷ us) = let rest = up_to t us in if leb u t then u ∷ rest else rest

pub from_on : ℕ → List ℕ → List ℕ
from_on t [] = []
from_on t (u ∷ us) = let rest = from_on t us in if leb t u then u ∷ rest else rest

-- `cand_sorted`; time 0 is always looked at
pub candidates : WaveStore → List Text → ℕ → Bool → List ℕ
unfolding sorted_times
candidates store names from backward =
    let cand = sorted_times (0 ∷ times_of store names) in
    if backward then reverse (up_to from cand) else from_on from cand

-- the loop: `hits` so far
pub search : (ℕ → Bool) → ℕ → ℕ → List ℕ → Option ℕ
search holds occurrence hits [] = none
search holds occurrence hits (t ∷ ts) =
    let next = if holds t then hits + 1 else hits in
    let rest = search holds occurrence next ts in
    if holds t && leb occurrence next then some t else rest

pub missing_signals : WaveStore → List Text → List Text
missing_signals store [] = []
missing_signals store (n ∷ ns) =
    let rest = missing_signals store ns in
    elim (id_for store.vcd n) [ none ↦ n ∷ rest | some code ↦ rest ]

-- The time of the answer, if there is one, and the signals that the dump does not have.
pub when : WaveStore → List Text → (ℕ → Bool) → ℕ → Bool → ℕ → Option ℕ × List Text
when store names holds from backward occurrence =
    (search holds occurrence 0 (candidates store names from backward), missing_signals store names)

abbrev pattern_of : Text → Text
pattern_of p =
    if contains p (codes "*") || contains p (codes "?") then p else codes "*" ++ p ++ codes "*"

pub matching : Text → List Text → List Text
matching pattern [] = []
matching pattern (p ∷ ps) =
    let rest = matching pattern ps in if fnmatch p pattern then p ∷ rest else rest

pub find_signals : WaveStore → Text → ℕ → List Text
unfolding contains sorted_texts
find_signals store pattern limit =
    take limit (matching (pattern_of pattern) (sorted_texts (keys store.vcd.by_path)))
