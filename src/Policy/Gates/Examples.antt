-- ===== src/Policy/Gates/Examples.antt =====
-- Evidence that passes the gates of three classes.
use chipchamp.Prelude.{◌≡◌, ◌↔◌, refl, true, none, some, List, [], ◌∷◌}
use chipchamp.Prelude.Int.{pos}
use chipchamp.Text.{Text, codes, is_empty, all}
use chipchamp.Jobs.Record.{JobRecord, Result, passed, int, metric, is_passed}
use chipchamp.Policy.Classify
use chipchamp.Policy.Classify.{TaskClass, rank}
use chipchamp.Policy.Gates.Data.{Evidence, of_kind}
use chipchamp.Policy.Gates.Sims.{
  Identity, record_sim, record_sims, latest_sims, eval_smoke_sim, eval_affected_regress,
}
use chipchamp.Policy.Gates.Checks.{
  eval_lint, lint_of, lint_verdict, eval_coverage_baseline, eval_lec, lec_of, eval_no_gaming,
  eval_physical, physical_of,
}
use chipchamp.Policy.Gates.OnRecord.{Equivalent}
use chipchamp.Policy.Gates.Signoff.{SignedOff}
use chipchamp.Policy.Gates.Done.{
  Verified, all_passed-Verified, all_passed-Equivalent, all_passed-SignedOff,
}
use chipchamp.Policy.Gates.Latest.{Passes, last_run, latest_sims-passed}
use chipchamp.Policy.Gates.{index, class_gates, required_gates, all_passed, eval_one, evaluate}

abbrev same_path : Text → Text
same_path p = p

abbrev no_result : Result
no_result = record { diagnostics = some []; status = none; metrics = none }

abbrev job : Text → Text → Result → JobRecord
job id kind result = record {
  id = id;
  kind = kind;
  status = passed;
  summary = [];
  start_ts = 1;
  input_files = [];
  test_name = codes "smoke";
  target_name = codes "unit";
  test_config_hash = [];
  seed = some 1;
  artifacts = [];
  result = result;
}

abbrev metrics : Result
metrics = record no_result {
  metrics = some (
      (codes "drc_violations", int (pos 0))
      ∷ (codes "lvs_errors", int (pos 0))
      ∷ (codes "antenna_violations", int (pos 0))
      ∷ (codes "setup_ws_ns", int (pos 1))
      ∷ (codes "hold_ws_ns", int (pos 0))
      ∷ []);
}

abbrev on_record : List JobRecord → Evidence
on_record jobs = record {
  jobs = jobs;
  coverage_baseline = some true;
  antigaming = [];
  regmap_regenerated = none;
  cdc_new_violations = none;
  sta_new_violations = none;
  fpga_max_utilization = 1000000000;
  riscv_cosim = none;
  riscv_compliance = none;
  root_cause_notes = [];
  expected_sims = record { test = codes "smoke"; seed = some 1; target = codes "unit" } ∷ [];
  diagnosis_jobs = [];
}

abbrev lint_and_sim : List JobRecord
lint_and_sim =
    job (codes "J-1") (codes "lint") no_result ∷ job (codes "J-2") (codes "sim") no_result ∷ []

abbrev with_lec : List JobRecord
with_lec =
    job (codes "J-3") (codes "lec") (record no_result { status = some (codes "equivalent") })
    ∷ lint_and_sim

abbrev laid_out : List JobRecord
laid_out = job (codes "J-4") (codes "pnr") metrics ∷ []

all_passed-Verified_example : Verified same_path (on_record lint_and_sim)
unfolding all_passed evaluate required_gates class_gates index eval_one rank is_empty eval_lint
    lint_of of_kind lint_verdict eval_smoke_sim latest_sims record_sims record_sim
    eval_affected_regress eval_coverage_baseline eval_no_gaming
all_passed-Verified_example =
    all_passed-Verified same_path Classify.rtl_functional (Classify.rtl_functional ∷ [])
      (on_record lint_and_sim) refl refl

all_passed-Equivalent_example : Equivalent (on_record with_lec)
unfolding all_passed evaluate required_gates class_gates index eval_one rank is_empty eval_lint
    lint_of of_kind lint_verdict eval_smoke_sim latest_sims record_sims record_sim eval_lec lec_of
    eval_no_gaming
all_passed-Equivalent_example =
    all_passed-Equivalent same_path Classify.rtl_nfc (Classify.rtl_nfc ∷ []) (on_record with_lec)
      refl refl

all_passed-SignedOff_example : SignedOff (on_record laid_out)
unfolding all_passed evaluate required_gates class_gates index eval_one rank is_empty eval_physical
    physical_of of_kind metric
all_passed-SignedOff_example =
    all_passed-SignedOff same_path Classify.physical (Classify.physical ∷ []) (on_record laid_out)
      refl refl

latest_sims-passed_example :
    (all (λ j. is_passed j.status) (latest_sims same_path (on_record lint_and_sim)) ≡ true)
    ↔ ((k : Identity) → Passes same_path (last_run same_path (on_record lint_and_sim) k))
latest_sims-passed_example = latest_sims-passed same_path (on_record lint_and_sim)
