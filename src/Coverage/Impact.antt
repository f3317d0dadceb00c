-- ===== src/Coverage/Impact.antt =====
-- chipchamp/coverage/impact.py: `recorded_lines` takes the lines of an edit back to the recorded
-- source. The blocks of `SequenceMatcher` are an argument; `none` is an IndexError.
mod Examples
pub mod Located
pub mod Told
use chipchamp.Prelude.{
  ℕ, zero, suc, ◌+◌, ◌-◌, Bool, true, false, not, ◌&&◌, ◌||◌, Option, none, some, List, [], ◌∷◌,
  length, get_elem?, max, ltb, ◌==◌, if◌then◌else◌,
}
use chipchamp.Text.{Text, text_eq, is_empty, any}
use chipchamp.Lines.{splitlines, strip}

pub record Block : Type 0 where
  pub a : ℕ
  pub b : ℕ
  pub size : ℕ

-- the text that is answered beside the lines
pub data Why : Type 0 where
  nothing no_lines over_limit changed : Why

abbrev max_lines : ℕ
max_lines = 20000

-- `Counter(lines)[line]`
abbrev pub count : Text → List Text → ℕ
count t [] = 0
count t (u ∷ us) = let rest = count t us in if text_eq t u then suc rest else rest

-- not blank, and once in both texts
abbrev pub is_unique : List Text → List Text → Text → Bool
is_unique old new line =
    not (is_empty (strip line)) && count line old == count line new && count line new == 1

-- from the lines of the edit's side to the recorded lines, the last entry first
abbrev pub Mapping : Type 0
Mapping = List (ℕ × ℕ)

abbrev pub and_then {ℓ κ} : {A : Type ℓ} {B : Type κ} → Option A → (A → Option B) → Option B
and_then none f = none
and_then (some x) f = f x

module _ (old new : List Text) where
  abbrev pub keep_line : ℕ → ℕ → Text → Mapping → Mapping
  keep_line a b line m = if is_unique old new line then (suc b, suc a) ∷ m else m

  pub map_block : ℕ → ℕ → ℕ → Mapping → Option Mapping
  map_block a b zero m = some m
  map_block a b (suc k) m =
      and_then (get_elem? old a) (λ line. map_block (suc a) (suc b) k (keep_line a b line m))

  pub map_blocks : List Block → Mapping → Option Mapping
  unfolding map_block
  map_blocks [] m = some m
  map_blocks (k ∷ ks) m = and_then (map_block k.a k.b k.size m) (map_blocks ks)

abbrev pub recorded : ℕ → Mapping → Option ℕ
recorded n [] = none
recorded n ((k, o) ∷ m) = let rest = recorded n m in if n == k then some o else rest

-- `range(n, n + k)`
abbrev pub range_from : ℕ → ℕ → List ℕ
range_from n zero = []
range_from n (suc k) = n ∷ range_from (suc n) k

abbrev pub or_skip : Option ℕ → List ℕ → List ℕ
or_skip none ns = ns
or_skip (some o) ns = o ∷ ns

abbrev pub found_in : Mapping → List ℕ → List ℕ
found_in m [] = []
found_in m (n ∷ ns) = or_skip (recorded n m) (found_in m ns)

abbrev pub is_missing : Option ℕ → Bool
is_missing none = true
is_missing (some o) = false

abbrev pub answer : List ℕ → Option Mapping → Option (List ℕ × Why)
answer wanted none = none
answer wanted (some m) =
    some
      (found_in m wanted, if any (λ n. is_missing (recorded n m)) wanted then changed else nothing)

module _ (matching_blocks : List Text → List Text → List Block) where
  pub mapped_lines : List Text → List Text → List ℕ → Option (List ℕ × Why)
  unfolding map_blocks
  mapped_lines old new wanted =
      if ltb max_lines (max (length old) (length new))
      then some ([], over_limit)
      else answer wanted (map_blocks old new (matching_blocks old new) [])

  pub recorded_lines : Text → Text → Option (ℕ × ℕ) → Option (List ℕ × Why)
  unfolding mapped_lines text_eq splitlines
  recorded_lines snapshot reference none = some ([], no_lines)
  recorded_lines snapshot reference (some (first, last)) =
      let wanted = range_from first (suc last - first) in
      let mapped = mapped_lines (splitlines snapshot) (splitlines reference) wanted in
      if text_eq snapshot reference then some (wanted, nothing) else mapped
