-- ===== src/Policy/Gates/Checks.antt =====
-- chipchamp/policy/gates.py: the branches of `_eval_one` on lint, equivalence, coverage, crossings,
-- timing, the physical run, the RISC-V verdicts and anti-gaming.
use chipchamp.Prelude.{
  Bool, true, false, ◌&&◌, ◌||◌, not, Option, none, some, List, [], ◌∷◌, ltb, ◌==◌, if◌then◌else◌,
}
use chipchamp.Prelude.Int.{ℤ, pos, negsuc}
use chipchamp.Text.{Text, codes, text_eq, is_empty, any, all}
use chipchamp.Jobs.Record.{
  JobRecord, Diagnostic, Value, int, float, failed, is_passed, above_zero, is_zero, non_negative,
  metric, metrics_of, Status,
}
use chipchamp.Policy.Gates.Data.{
  Gate, elab, lint, lec, coverage_baseline, cdc_clean, sta_delta, drc_clean, lvs_clean, timing_met,
  antenna_clean, isa_cosim, isa_compliant, regmap_regen, no_gaming, Evidence, GateResult, pass,
  fail, missing, jobs_of, last_job, passed_job, result, verdict, unfinished,
}

-- `_passed_job` and `_mk`
unfoldable pub eval_elab : Evidence → GateResult
eval_elab ev =
    elim (passed_job (codes "elab" ∷ codes "lint" ∷ codes "sim" ∷ codes "coverage" ∷ []) ev.jobs) [
      | some j ↦ result elab pass (j.id ∷ [])
      | none ↦ result elab missing []
    ]

-- an error with no waiver
abbrev pub unwaived_error : Diagnostic → Bool
unwaived_error d = text_eq d.severity (codes "error") && is_empty d.waiver

unfoldable pub lint_verdict : JobRecord → Option (List Diagnostic) → GateResult
lint_verdict j none = result lint missing (j.id ∷ [])
lint_verdict j (some ds) =
    if any (λ d. unwaived_error d) ds then result lint missing [] else result lint pass (j.id ∷ [])

-- the latest lint job decides; with errors left the loop ends without an answer
unfoldable pub lint_of : Option JobRecord → GateResult
lint_of none = result lint missing []
lint_of (some j) =
    if is_passed j.status
    then lint_verdict j j.result.diagnostics
    else result lint (unfinished j) (j.id ∷ [])

unfoldable pub eval_lint : Evidence → GateResult
eval_lint ev = lint_of (last_job (jobs_of (codes "lint") ev))

abbrev pub status_is : Text → Option Text → Bool
status_is t none = false
status_is t (some s) = text_eq s t

unfoldable pub lec_of : Option JobRecord → GateResult
lec_of none = result lec missing []
lec_of (some j) =
    if is_passed j.status && status_is (codes "equivalent") j.result.status
    then result lec pass (j.id ∷ [])
    else if status_is (codes "inconclusive") j.result.status
    then result lec fail (j.id ∷ [])
    else result lec (unfinished j) (j.id ∷ [])

unfoldable pub eval_lec : Evidence → GateResult
eval_lec ev = lec_of (last_job (jobs_of (codes "lec") ev))

unfoldable pub eval_coverage_baseline : Evidence → GateResult
eval_coverage_baseline ev = elim ev.coverage_baseline [
  | none ↦ result coverage_baseline missing []
  | some ok ↦ result coverage_baseline (verdict ok) (codes "coverage" ∷ [])
]

abbrev no_violations : ℤ → Bool
no_violations (pos n) = n == 0
no_violations (negsuc n) = false

unfoldable pub eval_cdc_clean : Evidence → GateResult
eval_cdc_clean ev = elim ev.cdc_new_violations [
  | none ↦ result cdc_clean missing []
  | some n ↦ result cdc_clean (verdict (no_violations n)) (codes "cdc" ∷ [])
]

unfoldable pub eval_sta_delta : Evidence → GateResult
eval_sta_delta ev = elim ev.sta_new_violations [
  | none ↦ result sta_delta missing []
  | some n ↦ result sta_delta (verdict (no_violations n)) (codes "sta" ∷ [])
]

-- `_finite`
abbrev pub finite : Value → Bool
finite (int z) = true
finite (float z) = true
finite _ = false

-- the metrics that a physical gate reads
abbrev pub keys_of : Gate → List Text
keys_of drc_clean = codes "drc_violations" ∷ []
keys_of lvs_clean = codes "lvs_errors" ∷ []
keys_of antenna_clean = codes "antenna_violations" ∷ []
keys_of _ = codes "setup_ws_ns" ∷ codes "hold_ws_ns" ∷ []

-- no violation for the counts, no negative slack for the timing gate
abbrev pub clean : Gate → Value → Bool
clean timing_met v = non_negative v
clean _ v = is_zero v

abbrev pub is_failed : Status → Bool
is_failed failed = true
is_failed _ = false

-- a run counts that passed, or whose only failure is its signoff
abbrev pub signed : JobRecord → Bool
signed j =
    is_passed j.status || is_failed j.status && status_is (codes "signoff-fail") j.result.status

unfoldable pub physical_of : Gate → Option JobRecord → GateResult
physical_of g none = result g missing []
physical_of g (some j) =
    if not (signed j)
    then result g (unfinished j) (j.id ∷ [])
    else if any (λ k. not (finite (metric k (metrics_of j)))) (keys_of g)
    then result g missing (j.id ∷ [])
    else result g (verdict (all (λ k. clean g (metric k (metrics_of j))) (keys_of g))) (j.id ∷ [])

unfoldable pub eval_physical : Gate → Evidence → GateResult
eval_physical g ev = physical_of g (last_job (jobs_of (codes "pnr") ev))

unfoldable pub eval_isa_cosim : Evidence → GateResult
eval_isa_cosim ev = elim ev.riscv_cosim [
  | none ↦ result isa_cosim missing []
  | some c ↦ result isa_cosim (verdict (c.matched && above_zero c.compared)) (c.job ∷ [])
]

abbrev nonzero : ℤ → Bool
nonzero (pos n) = ltb 0 n
nonzero (negsuc n) = true

unfoldable pub eval_isa_compliant : Evidence → GateResult
eval_isa_compliant ev = elim ev.riscv_compliance [
  | none ↦ result isa_compliant missing []
  | some r ↦
      result isa_compliant (verdict (above_zero r.total && not (nonzero r.failed))) (r.job ∷ [])
]

unfoldable pub eval_regmap_regen : Evidence → GateResult
eval_regmap_regen ev = elim ev.regmap_regenerated [
  | none ↦ result regmap_regen missing []
  | some ok ↦ result regmap_regen (verdict ok) (codes "regmap" ∷ [])
]

unfoldable pub eval_no_gaming : Evidence → GateResult
eval_no_gaming ev =
    result no_gaming (verdict (not (any (λ f. not f.acknowledged) ev.antigaming))) []
