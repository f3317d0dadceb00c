-- ===== src/Policy/Autonomy.antt =====
-- chipchamp/policy/autonomy.py: the level of each path, and what the change may do.
pub mod Caps
pub mod Winner
mod Examples
use chipchamp.Prelude.{
  ℕ, ◌≡◌, refl, Bool, true, false, ◌&&◌, ◌||◌, String, Option, none, some, List, [], ◌∷◌, map,
  str_eq, leb, ltb, length, if◌then◌else◌,
}
use chipchamp.Text.{Text, codes}
use chipchamp.Fnmatch.{fnmatch}

-- `_ORDER.index(level) if level in _ORDER else 0`
pub rank : String → ℕ
rank level =
    if str_eq level "L0"
    then 0
    else if str_eq level "L1"
    then 1
    else if str_eq level "L2"
    then 2
    else if str_eq level "L3"
    then 3
    else 0

-- A rule's value: a dictionary with or without its `max`, or the level itself.
pub data Spec : Type 0 where
  dict : Option String → Spec
  plain : String → Spec

abbrev pub Rules : Type 0
Rules = List (Text × Spec)

abbrev pub cap_of : String → Spec → String
cap_of default (dict none) = default
cap_of default (dict (some level)) = level
cap_of default (plain level) = level

-- `best_glob` and `best`
abbrev pub Best : Type 0
Best = Option Text × String

abbrev pub longer : Text → Option Text → Bool
longer glob none = true
longer glob (some g) = ltb (length g) (length glob)

pub resolve_from : Text → String → Rules → Best → Best
resolve_from path default [] best = best
resolve_from path default ((glob, spec) ∷ rules) best =
    resolve_from path default rules
      (if fnmatch path glob && longer glob best.0 then (some glob, cap_of default spec) else best)

pub resolve_level : Text → Rules → String → String
unfolding resolve_from
resolve_level path rules default = (resolve_from path default rules (none, default)).1

-- `min(caps, key=rank)`: the first of the lowest
pub min_by_rank : String → List String → String
min_by_rank best [] = best
min_by_rank best (c ∷ cs) = min_by_rank (if ltb (rank c) (rank best) then c else best) cs

pub record AutonomyDecision : Type 0 where
  pub level : String
  pub may_edit : Bool
  pub may_launch_jobs : Bool
  pub may_open_mr : Bool
  pub may_automerge : Bool

pub level_of : List Text → Rules → String → String
level_of [] rules default = default
level_of (p ∷ ps) rules default =
    min_by_rank (resolve_level p rules default) (map (λ q. resolve_level q rules default) ps)

-- The set `L3_ALLOWED_CLASSES` holds "docs" alone.
pub decide : String → List Text → Rules → String → AutonomyDecision
unfolding level_of
decide task_class paths rules default =
    let level = level_of paths rules default in
    record {
      level = level;
      may_edit = leb 1 (rank level);
      may_launch_jobs = leb 1 (rank level);
      may_open_mr = leb 2 (rank level);
      may_automerge = str_eq level "L3" && str_eq task_class "docs";
    }
