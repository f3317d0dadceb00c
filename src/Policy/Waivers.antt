-- ===== src/Policy/Waivers.antt =====
-- chipchamp/policy/waivers.py: which waivers take effect, and on which diagnostics. The clock and
-- the calendar are the parameter `expired`: whether an expiry date has passed, `none` if the text
-- is no date; `relative` is `os.path.relpath` from the root.
pub mod Applied
mod Examples
use chipchamp.Prelude.{
  ℕ, ◌+◌, Bool, true, false, not, ◌&&◌, ◌||◌, Option, none, some, List, [], ◌∷◌, ◌++◌,
  if◌then◌else◌,
}
use chipchamp.Text.{Text, codes, text_eq, forward, slash, split, ends_with, is_empty, starts_with}
use chipchamp.Fnmatch.{fnmatch}

pub record Waiver : Type 0 where
  pub rule : Text
  pub scope : Text
  pub approver : Option Text
  pub status : Text
  pub expires : Text

-- what `apply_waivers` reads and writes of a diagnostic
pub record Finding : Type 0 where
  pub code : Text
  pub file : Text
  pub waiver : Text

pub id : Waiver → Text
id w = w.rule ++ b'@' ∷ w.scope

abbrev pub is_approved : Option Text → Bool
is_approved none = false
is_approved (some a) = not (is_empty a)

abbrev pub in_force : Option Bool → Bool
in_force none = false
in_force (some past) = not past

abbrev pub last_part : List Text → Text
last_part [] = []
last_part (t ∷ []) = t
last_part (t ∷ u ∷ ts) = last_part (u ∷ ts)

pub matches : Waiver → Text → Text → Bool
unfolding forward split ends_with
matches w code path =
    let norm = forward path in
    fnmatch code w.rule
    && (fnmatch norm w.scope
        || fnmatch (last_part (split slash norm)) w.scope
        || ends_with norm w.scope)

module _ (expired : Text → Option Bool) where
  pub is_active : Waiver → Bool
  unfolding text_eq is_empty
  is_active w =
      text_eq w.status (codes "active")
      && is_approved w.approver
      && (is_empty w.expires || in_force (expired w.expires))

  pub active : List Waiver → List Waiver
  active [] = []
  active (w ∷ ws) = let rest = active ws in if is_active w then w ∷ rest else rest

-- the first waiver that matches
pub waiver_for : List Waiver → Text → Text → Option Waiver
waiver_for [] code path = none
waiver_for (w ∷ ws) code path = if matches w code path then some w else waiver_for ws code path

pub mark : Finding → Option Waiver → Finding
mark d none = d
mark d (some w) = record d { waiver = id w }

abbrev pub counted : Option Waiver → ℕ
counted none = 0
counted (some w) = 1

module _ (relative : Text → Text → Text) where
  pub path_of : Text → Text → Text
  unfolding is_empty starts_with
  path_of root file =
      if not (is_empty root) && starts_with file root then relative root file else file

  abbrev pub found_for : List Waiver → Text → Finding → Option Waiver
  found_for ws root d = waiver_for ws d.code (path_of root d.file)

  -- the diagnostics afterwards, and how many were waived
  pub apply_active : List Waiver → Text → List Finding → List Finding × ℕ
  apply_active ws root [] = ([], 0)
  apply_active ws root (d ∷ ds) =
      let (rest, n) = apply_active ws root ds in
      let o = found_for ws root d in (mark d o ∷ rest, counted o + n)

  pub apply_waivers : (Text → Option Bool) → List Waiver → Text → List Finding → List Finding × ℕ
  apply_waivers expired ws root ds = apply_active (active expired ws) root ds
