-- ===== src/Coverage/Service.antt =====
-- chipchamp/coverage/service.py: `CoverageService`: the holes, the attribution and the check against
-- a baseline. A tolerance counts hundredths of a percent, as the rates do.
pub mod Accepted
use chipchamp.Prelude.{
  ℕ, ◌+◌, Bool, true, false, not, ◌&&◌, ◌||◌, Option, none, some, List, [], ◌∷◌, ◌++◌, leb, ltb,
  ◌==◌, length, take, if◌then◌else◌,
}
use chipchamp.Text.{Text, codes, text_eq, contains, starts_with, is_empty, any, sorted_texts}
use chipchamp.Dict.{Dict, get}
use chipchamp.Coverage.Model.{Bin, CoverageModel, hit, bins_of, total, by_section}

-- what `model_changes` says of a bin
pub data Change : Type 0 where
  removed weight section kind group point name : Change

pub record BaselineVerdict : Type 0 where
  pub ok : Bool
  pub regressed_sections : List Text
  pub model_changes : List (Text × Change)

abbrev pub rate_or : Option ℕ → ℕ
rate_or none = 0
rate_or (some r) = r

unfoldable pub regressed : ℕ → Dict ℕ → Dict ℕ → List Text
unfolding get
regressed tol current [] = []
regressed tol current ((sec, base) ∷ more) =
    let rest = regressed tol current more in
    if ltb (rate_or (get sec current) + tol) base then sec ∷ rest else rest

abbrev pub note : Bool → Text → Change → List (Text × Change)
note true i c = []
note false i c = (i, c) ∷ []

unfoldable pub differences : Text → Bin → Option Bin → List (Text × Change)
unfolding text_eq
differences i old none = (i, removed) ∷ []
differences i old (some new) =
    note (old.weight == new.weight) i weight
    ++ note (text_eq old.section new.section) i section
    ++ note (text_eq old.kind new.kind) i kind
    ++ note (text_eq old.group new.group) i group
    ++ note (text_eq old.point new.point) i point
    ++ note (text_eq old.name new.name) i name

unfoldable pub model_changes : Dict Bin → Dict Bin → List (Text × Change)
unfolding get
model_changes current [] = []
model_changes current ((i, old) ∷ more) =
    differences i old (get i current) ++ model_changes current more

unfoldable pub baseline_check : CoverageModel → CoverageModel → ℕ → BaselineVerdict
unfolding is_empty
baseline_check model baseline tol =
    let lost = regressed tol (by_section model) (by_section baseline) in
    let changes = model_changes model.bins baseline.bins in
    record {
      ok = leb (total baseline) (total model + tol) && is_empty lost && is_empty changes;
      regressed_sections = lost;
      model_changes = changes;
    }

-- the tests that hit a bin
pub hit_by : Text → Dict (List Text) → List Text
hit_by i [] = []
hit_by i ((t, ids) ∷ d) =
    let rest = hit_by i d in if any (λ j. text_eq i j) ids then t ∷ rest else rest

-- The answer of `attribution`; `none` is the error.
pub data Attribution : Type 0 where
  by_tests covers : List Text → Attribution

abbrev ids_of : Option (List Text) → List Text
ids_of none = []
ids_of (some ids) = ids

pub attribution : CoverageModel → Text → Text → Option Attribution
unfolding get is_empty sorted_texts
attribution m bin_id test =
    if not (is_empty bin_id)
    then some (by_tests (hit_by bin_id m.per_test))
    else if not (is_empty test)
    then some (covers (sorted_texts (ids_of (get test m.per_test))))
    else none

abbrev of_kind : Text → Bin → Bool
of_kind k b =
    text_eq k (codes "both")
    || text_eq k (codes "all")
    || text_eq b.kind k
    || text_eq k (codes "code")
      && (text_eq b.kind (codes "line")
          || text_eq b.kind (codes "toggle")
          || text_eq b.kind (codes "branch"))

abbrev in_scope : Text → Bin → Bool
in_scope s b = is_empty s || contains b.id s || contains b.source s || contains b.point s

pub open_bins : Text → Text → List Bin → List Bin
unfolding contains is_empty text_eq
open_bins scope k [] = []
open_bins scope k (b ∷ bs) =
    let rest = open_bins scope k bs in
    if not (hit b) && of_kind k b && in_scope scope b then b ∷ rest else rest

-- The bins of the answer, how many there are, and whether some are left out. (The nearest test of
-- each is not modelled.)
pub holes : CoverageModel → Text → Text → ℕ → List Bin × (ℕ × Bool)
holes m scope k limit =
    let bs = open_bins scope k (bins_of m.bins) in
    (take limit bs, (length bs, ltb limit (length bs)))
