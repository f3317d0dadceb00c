-- ===== src/Policy/Engine/Examples.antt =====
-- The engine on a change of a testbench, and on paths.
use chipchamp.Prelude.{◌≡◌, refl, inr, true, false, none, some, [], ◌∷◌}
use chipchamp.Text.{Text, codes, forward, is_empty}
use chipchamp.Fnmatch.{fnmatch}
use chipchamp.Jobs.Record.{JobRecord, passed}
use chipchamp.Policy.Acl.{is_allowed, deny_globs}
use chipchamp.Policy.Diff.{
  Diff, FileChange, modified, is_rtl, is_doc, is_tb, is_regmap_source, is_build_script, in_globs,
}
use chipchamp.Policy.Classify.{
  has, tb_only, classify_all, sorted_set, found, has_rtl, candidates, candidate, rank,
}
use chipchamp.Policy.Canonical.{canonical, isabs, outside}
use chipchamp.Policy.Antigaming.{
  scan, removed, add, is_deleted, edited, weakened, asserts, checks, rands, max_timeout, pins_seed,
  covers, cut,
}
use chipchamp.Policy.Antigaming.Clean.{AllHarmless}
use chipchamp.Policy.Gates.Data.{Evidence, no_gaming, passed_job, of_kind}
use chipchamp.Policy.Gates.Sims.{eval_smoke_sim, latest_sims, record_sims, record_sim}
use chipchamp.Policy.Gates.Checks.{eval_elab, eval_no_gaming}
use chipchamp.Policy.Gates.{
  asks, all_passed, evaluate, class_gates, index, required_gates, eval_one,
}
use chipchamp.Policy.Engine.{
  merge, PolicyEngine, can_read, can_write, default_protected, generated_globs, validate_done,
  outside_workspace, merged,
}
use chipchamp.Policy.Engine.Writes.{is_ok}
use chipchamp.Policy.Engine.Honest.{
  AllAcknowledged, validate_done-AllAcknowledged, validate_done-AllHarmless,
}
use chipchamp.Policy.Engine.Guarded.{
  Inside, can_read-Inside, can_write-backslash, can_write-protected,
}

abbrev same_path : Text → Text
same_path p = p

abbrev engine : PolicyEngine
engine = record {
  acl = record { deny = codes "secret/**" ∷ []; allow = []; use_defaults = true };
  autonomy_rules = [];
  default_autonomy = "L1";
  protected_paths = default_protected (codes ".chipchamp" ∷ []);
  generated = (codes "gen/*.sv" ∷ []) ∷ [];
  riscv_core = false;
}

abbrev bench : FileChange
bench = record {
  path = codes "tb/tb_core.sv";
  status = modified;
  old_text = codes "assert (a);";
  new_text = codes "assert (b);";
}

abbrev diff : Diff
diff = record {
  files = bench ∷ [];
  declared_nfc = false;
  declared_cdc = false;
  declared_timing = false;
}

abbrev sim : JobRecord
sim = record {
  id = codes "J-2";
  kind = codes "sim";
  status = passed;
  summary = [];
  start_ts = 1;
  input_files = [];
  test_name = codes "smoke";
  target_name = codes "unit";
  test_config_hash = [];
  seed = some 1;
  artifacts = [];
  result = record { diagnostics = some []; status = none; metrics = none };
}

abbrev evidence : Evidence
evidence = record {
  jobs = sim ∷ [];
  coverage_baseline = none;
  antigaming =
      record { kind = codes "seed_pinned"; file = codes "tb/old.sv"; acknowledged = false } ∷ [];
  regmap_regenerated = none;
  cdc_new_violations = none;
  sta_new_violations = none;
  fpga_max_utilization = 1000000000;
  riscv_cosim = none;
  riscv_compliance = none;
  root_cause_notes = [];
  expected_sims = [];
  diagnosis_jobs = [];
}

bench_class : has tb_only (classify_all diff (generated_globs engine) false) ≡ true
unfolding classify_all sorted_set found has_rtl candidates candidate is_rtl is_doc is_tb
    is_regmap_source is_build_script in_globs generated_globs fnmatch rank
bench_class = refl

bench_gate : asks no_gaming (class_gates tb_only) ≡ true
unfolding class_gates index
bench_gate = refl

bench_passes : all_passed (validate_done same_path engine diff evidence) ≡ true
unfolding validate_done merged classify_all sorted_set found has_rtl candidates candidate is_rtl
    is_doc is_tb is_regmap_source is_build_script in_globs generated_globs fnmatch rank class_gates
    index all_passed evaluate required_gates eval_one eval_elab passed_job eval_smoke_sim
    latest_sims record_sims of_kind record_sim eval_no_gaming merge scan removed add is_deleted
    edited weakened asserts checks rands max_timeout pins_seed covers cut is_empty
bench_passes = refl

validate_done-AllAcknowledged_example : AllAcknowledged evidence.antigaming (scan diff)
validate_done-AllAcknowledged_example =
    validate_done-AllAcknowledged same_path engine diff evidence tb_only bench_class bench_gate
      bench_passes

validate_done-AllHarmless_example : AllHarmless (bench ∷ [])
validate_done-AllHarmless_example =
    validate_done-AllHarmless same_path engine diff evidence tb_only refl bench_class bench_gate
      bench_passes

abbrev winding : Text
winding = codes "rtl/../gen\\.//regs.sv"

can_read-Inside_example : Inside winding
unfolding can_read isabs canonical outside is_allowed deny_globs fnmatch forward
can_read-Inside_example = can_read-Inside engine winding refl

can_write-backslash_example :
    (can_write engine (codes "\\etc\\passwd") false ≡ outside_workspace → ⊥)
    × (can_read engine (codes "\\etc\\passwd") ≡ false)
can_write-backslash_example = can_write-backslash engine (codes "etc\\passwd") false

abbrev waiver : Text
waiver = codes "rtl/..\\waivers/lint.yaml"

can_write-protected_example : is_ok (can_write engine waiver true) ≡ false
unfolding canonical
can_write-protected_example =
    can_write-protected engine waiver true refl (inr (codes "lint.yaml", refl))
