-- ===== src/Coverage/Model.antt =====
-- chipchamp/coverage/model.py: `CoverageModel`. A rate counts hundredths of a percent: a float that
-- is rounded to two places in the source, and here to the nearest, upwards from the middle. Counts
-- and weights are not below zero, and a set of bins is a list.
pub mod Merged
use chipchamp.Prelude.{
  ℕ, ◌+◌, ◌*◌, ◌/◌, Bool, true, false, ◌&&◌, Option, none, some, List, [], ◌∷◌, ◌++◌, map, ltb,
  ◌==◌, if◌then◌else◌,
}
use chipchamp.Text.{Text, codes, text_eq, is_empty, any}
use chipchamp.Dict.{Dict, get, put}

pub record Bin : Type 0 where
  pub id : Text
  pub group : Text
  pub point : Text
  pub name : Text
  pub count : ℕ
  pub weight : ℕ
  pub source : Text
  pub section : Text
  pub kind : Text

abbrev pub hit : Bin → Bool
hit b = ltb 0 b.count

pub record CoverageModel : Type 0 where
  pub bins : Dict Bin
  pub per_test : Dict (List Text)
  pub sources : List Text

abbrev pub grown : Bin → Option Bin → Bin
grown b none = b
grown b (some old) = record old { count = old.count + b.count }

-- the first half of `add_bin`
pub add_count : Bin → Dict Bin → Dict Bin
unfolding get put
add_count b bins = put b.id (grown b (get b.id bins)) bins

abbrev add_id : Text → List Text → List Text
add_id i ids = if any (λ j. text_eq i j) ids then ids else i ∷ ids

abbrev add_ids : List Text → List Text → List Text
add_ids [] ids = ids
add_ids (i ∷ is) ids = add_ids is (add_id i ids)

abbrev ids_of : Option (List Text) → List Text
ids_of none = []
ids_of (some ids) = ids

-- `self.per_test.setdefault(test, set()).update(ids)`
pub add_hits : Text → List Text → Dict (List Text) → Dict (List Text)
unfolding get put
add_hits test new per_test = put test (add_ids new (ids_of (get test per_test))) per_test

abbrev hits_after : Option Text → Bin → Dict (List Text) → Dict (List Text)
hits_after none b per_test = per_test
hits_after (some t) b per_test =
    if is_empty t then per_test else if hit b then add_hits t (b.id ∷ []) per_test else per_test

pub add_bin : CoverageModel → Bin → Option Text → CoverageModel
add_bin m b test = record m { bins = add_count b m.bins; per_test = hits_after test b m.per_test }

pub merge_bins : Dict Bin → Dict Bin → Dict Bin
merge_bins bins [] = bins
merge_bins bins ((k, b) ∷ more) = merge_bins (add_count b bins) more

pub merge_tests : Dict (List Text) → Dict (List Text) → Dict (List Text)
merge_tests per_test [] = per_test
merge_tests per_test ((t, ids) ∷ more) = merge_tests (add_hits t ids per_test) more

-- `add_bin` without a test leaves `per_test` alone.
pub merge : CoverageModel → CoverageModel → CoverageModel
merge m other = record {
  bins = merge_bins m.bins other.bins;
  per_test = merge_tests m.per_test other.per_test;
  sources = m.sources ++ other.sources;
}

unfoldable pub weight_of : List Bin → ℕ
weight_of [] = 0
weight_of (b ∷ bs) = b.weight + weight_of bs

unfoldable pub hit_weight : List Bin → ℕ
hit_weight [] = 0
hit_weight (b ∷ bs) = (if hit b then b.weight else 0) + hit_weight bs

-- `round(_rate(bins), 2)`
abbrev whole : ℕ
whole = 10000

unfoldable pub rate : List Bin → ℕ
unfolding weight_of hit_weight
rate bs =
    let tw = weight_of bs in
    if tw == 0 then whole else (2 * (whole * hit_weight bs) + tw) / (2 * tw)

abbrev pub bins_of : Dict Bin → List Bin
bins_of [] = []
bins_of ((k, b) ∷ d) = b ∷ bins_of d

abbrev group_of : Option (List Bin) → List Bin
group_of none = []
group_of (some bs) = bs

-- `out.setdefault(key, []).append(b)`
unfoldable pub group_by : (Bin → Text) → Dict (List Bin) → List Bin → Dict (List Bin)
unfolding get put
group_by key out [] = out
group_by key out (b ∷ bs) = group_by key (put (key b) (group_of (get (key b) out) ++ b ∷ []) out) bs

abbrev section_of : Bin → Text
section_of b = if is_empty b.section then codes "(unmapped)" else b.section

abbrev rates : Dict (List Bin) → Dict ℕ
rates groups = map (λ e. (e.0, rate e.1)) groups

pub by_kind : CoverageModel → Dict ℕ
by_kind m = rates (group_by (λ b. b.kind) [] (bins_of m.bins))

unfoldable pub by_section : CoverageModel → Dict ℕ
by_section m = rates (group_by section_of [] (bins_of m.bins))

unfoldable pub total : CoverageModel → ℕ
unfolding is_empty
total m = if is_empty m.bins then 0 else rate (bins_of m.bins)
