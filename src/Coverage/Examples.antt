-- ===== src/Coverage/Examples.antt =====
-- Two runs of one covergroup.
use chipchamp.Prelude.{◌+◌, ◌≤◌, ◌≡◌, refl, [], ◌∷◌}
use chipchamp.Text.{codes, text_eq}
use chipchamp.Coverage.Model.{Bin, CoverageModel, merge, rate, group_by, by_section, total}
use chipchamp.Coverage.Model.Merged.{count_of, sum_of, count_of-merge}
use chipchamp.Coverage.Service.{differences, model_changes, regressed, baseline_check}
use chipchamp.Coverage.Service.Accepted.{AllKept, AllCovered, baseline_check-AllKept}

abbrev burst : Bin
burst = record {
  id = codes "cg::burst::wrap";
  group = codes "cg";
  point = codes "burst";
  name = codes "wrap";
  count = 2;
  weight = 1;
  source = [];
  section = codes "axi";
  kind = codes "functional";
}

abbrev model : CoverageModel
model = record { bins = (burst.id, burst) ∷ []; per_test = []; sources = [] }

count_of-merge_example :
    count_of burst.id (merge model model).bins
    ≡ count_of burst.id model.bins + sum_of burst.id model.bins
count_of-merge_example = count_of-merge burst.id model model

baseline_check-AllKept_example :
    AllKept model.bins model.bins
    × AllCovered 0 (by_section model) (by_section model)
    × (total model ≤ total model + 0)
unfolding baseline_check total rate regressed by_section group_by text_eq model_changes differences
baseline_check-AllKept_example = baseline_check-AllKept model model 0 refl
