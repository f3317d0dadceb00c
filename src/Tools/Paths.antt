-- ===== src/Tools/Paths.antt =====
-- chipchamp/tools/paths.py: `ws_path`, which every path that a model writes goes through, and
-- `safe_name`. `os.path.realpath` is the parameter `real`; below the root, `os.path.relpath` is what
-- follows it. The two candidates are checked in one fixed order, where the source's set has none.
pub mod Opened
use chipchamp.Prelude.{
  Bool, true, false, not, ◌&&◌, ◌||◌, Option, none, some, List, [], ◌∷◌, ◌++◌, if◌then◌else◌, drop,
  length, ◌+◌, ◌==◌,
}
use chipchamp.Text.{
  Text, codes, text_eq, starts_with, ends_with, is_empty, contains, slash, backslash, any,
}
use chipchamp.Policy.Acl.{Reason, reason}
use chipchamp.Policy.Canonical.{canonical, isabs, outside}
use chipchamp.Policy.Engine.{
  PolicyEngine, Verdict, ok, outside_workspace, denied, protected_by, generated_by, can_read,
  can_write,
}

-- the payload of a `PathRefused`
pub data Refusal : Type 0 where
  absolute_path escapes : Refusal
  write_denied : Verdict → Refusal
  read_denied : Reason → Refusal

pub data Outcome : Type 0 where
  refused : Refusal → Outcome
  opened : Text → Text → Outcome

abbrev pub of_verdict : Verdict → Option Refusal
of_verdict ok = none
of_verdict outside_workspace = some (write_denied outside_workspace)
of_verdict (denied r) = some (write_denied (denied r))
of_verdict (protected_by g) = some (write_denied (protected_by g))
of_verdict (generated_by g) = some (write_denied (generated_by g))

-- the check of one candidate
unfoldable pub refusal : PolicyEngine → Bool → Bool → Text → Option Refusal
refusal engine write allow_generated candidate =
    if write
    then of_verdict (can_write engine candidate allow_generated)
    else if can_read engine candidate
    then none
    else some (read_denied (reason engine.acl candidate))

-- `os.path.join`
unfoldable pub path_join : Text → Text → Text
unfolding isabs is_empty ends_with
path_join root p =
    if isabs p
    then p
    else if is_empty root || ends_with root (slash ∷ [])
    then root ++ p
    else root ++ slash ∷ p

-- `resolved_rel`, of the root or a path below it
unfoldable pub below : Text → Text → Text
unfolding text_eq
below root ap = if text_eq ap root then [] else drop (length root + 1) ap

abbrev pub settle : Option Refusal → Option Refusal → Text → Text → Outcome
settle (some r) second ap rel = refused r
settle none (some r) ap rel = refused r
settle none none ap rel = opened ap rel

abbrev pub in_root : Text → Text → Bool
in_root root ap = text_eq ap root || starts_with ap (root ++ slash ∷ [])

unfoldable pub ws_path : (real : Text → Text) → Text → PolicyEngine → Text → Bool → Bool → Outcome
unfolding text_eq starts_with isabs path_join below
ws_path real ws_root engine path write allow_generated =
    let rel = canonical path in
    let root = real ws_root in
    let ap = real (path_join root rel) in
    let target = below root ap in
    if isabs path
    then refused absolute_path
    else if outside rel || not (in_root root ap)
    then refused escapes
    else settle (refusal engine write allow_generated rel)
        (refusal engine write allow_generated target) ap target

-- A name without separators is its own base name.
pub safe_name : Text → Option Text
unfolding is_empty text_eq
safe_name name =
    if is_empty name
      || text_eq name (codes ".")
      || text_eq name (codes "..")
      || any (λ c. c == slash) name
      || any (λ c. c == backslash) name
    then none
    else some name
