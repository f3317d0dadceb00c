-- ===== src/Policy/Gates/Fpga.antt =====
-- chipchamp/policy/gates.py: the gates of the FPGA and eFPGA flows, `_fpga_utilization` and
-- `_efpga_metrics`.
use chipchamp.Prelude.{
  ℕ, ◌*◌, ◌-◌, Bool, true, false, ◌&&◌, ◌||◌, not, Option, none, some, List, [], ◌∷◌, ◌++◌, length,
  take, ltb, ◌==◌, if◌then◌else◌,
}
use chipchamp.Prelude.Int.{ℤ, pos_part}
use chipchamp.Text.{Text, codes, text_eq, starts_with, ends_with, is_empty, any}
use chipchamp.Dict.{Dict, get, put}
use chipchamp.Jobs.Record.{
  JobRecord, Value, null, boolean, text, texts, is_passed, positive, truthy, truncated, metric,
  metrics_of,
}
use chipchamp.Policy.Gates.Data.{
  fpga_routed, fpga_fits, fpga_timing_met, fpga_bitstream, fabric_generated, bitstream_generated,
  Evidence, GateResult, fail, missing, jobs_of, latest_job, result, verdict,
}

unfoldable pub eval_fpga_bitstream : Evidence → GateResult
eval_fpga_bitstream ev = elim (latest_job (jobs_of (codes "fpga_bitstream") ev)) [
  | none ↦ result fpga_bitstream missing []
  | some j ↦
      result fpga_bitstream
        (verdict (is_passed j.status && positive (metric (codes "bitstream_bytes") (metrics_of j))))
        (j.id ∷ [])
]

abbrev pub names : Value → List Text
names (texts ts) = ts
names _ = []

unfoldable pub eval_fpga_routed : Evidence → GateResult
eval_fpga_routed ev = elim (latest_job (jobs_of (codes "fpga") ev)) [
  | none ↦ result fpga_routed missing []
  | some j ↦
      result fpga_routed
        (verdict (
          any (λ s. text_eq (codes "post_route") s)
            (names (metric (codes "stages") (metrics_of j)))))
        (j.id ∷ [])
]

-- the vendor flow's verdict if it is there, else the open flow's
abbrev timing_verdict : Option Value → Option Value → Option Bool
timing_verdict (some v) _ = some (truthy v)
timing_verdict none (some v) = some (truthy v)
timing_verdict none none = none

unfoldable pub eval_fpga_timing_met : Evidence → GateResult
eval_fpga_timing_met ev = elim (latest_job (jobs_of (codes "fpga") ev)) [
  | none ↦ result fpga_timing_met missing []
  | some j ↦
      elim (timing_verdict (get (codes "timing_met") (metrics_of j))
        (get (codes "fmax_met") (metrics_of j))) [
          | none ↦ result fpga_timing_met fail (j.id ∷ [])
          | some ok ↦ result fpga_timing_met (verdict ok) (j.id ∷ [])
        ]
]

-- `base.split(".", 1)[-1]`: what stands behind the first dot, or all of it
abbrev behind_dot : Text → Option Text
behind_dot [] = none
behind_dot (c ∷ s) = if c == b'.' then some s else behind_dot s

abbrev resource : Text → Text
resource base = elim (behind_dot base) [ none ↦ base | some s ↦ s ]

abbrev early : Text → Bool
early base = starts_with base (codes "post_synth.") || starts_with base (codes "post_place.")

-- `key[:-len("_used")]`
abbrev base_of : Text → Text
base_of key = take (length key - 5) key

-- a pair (used, available) for one key, where both are numbers and the second is positive
abbrev pair_of : Option ℤ → Value → Option (ℤ × ℤ)
pair_of none avail = none
pair_of (some used) avail = elim (truncated avail) [
  | none ↦ none
  | some a ↦ if positive avail then some (used, a) else none
]

abbrev put_some : Text → Option (ℤ × ℤ) → Dict (ℤ × ℤ) → Dict (ℤ × ℤ)
put_some r none out = out
put_some r (some p) out = put r p out

-- one turn of the loop of `_fpga_utilization`, over all the metrics `m`
abbrev use_key : Dict Value → Text → Value → Dict (ℤ × ℤ) → Dict (ℤ × ℤ)
use_key m key v out =
    if ends_with key (codes "_used") && not (early (base_of key))
    then put_some (resource (base_of key))
        (pair_of (truncated v) (metric (base_of key ++ codes "_avail") m)) out
    else out

utilization_from : Dict Value → Dict Value → Dict (ℤ × ℤ) → Dict (ℤ × ℤ)
utilization_from m [] out = out
utilization_from m ((key, v) ∷ rest) out = utilization_from m rest (use_key m key v out)

unfoldable pub fpga_utilization : Dict Value → Dict (ℤ × ℤ)
unfolding utilization_from ends_with starts_with put metric truncated
fpga_utilization m = utilization_from m m []

abbrev pub billion : ℕ
billion = 1000000000

-- `used / avail > budget`, the budget in billionths; it is a whole device where it is 0
abbrev pub over : ℕ → ℤ × ℤ → Bool
over budget (used, avail) = ltb (budget * pos_part avail) (pos_part used * billion)

abbrev pub budget_of : Evidence → ℕ
budget_of ev = if ev.fpga_max_utilization == 0 then billion else ev.fpga_max_utilization

unfoldable pub eval_fpga_fits : Evidence → GateResult
eval_fpga_fits ev = elim (latest_job (jobs_of (codes "fpga") ev)) [
  | none ↦ result fpga_fits missing []
  | some j ↦
      let util = fpga_utilization (metrics_of j) in
      if is_empty util
      then result fpga_fits missing (j.id ∷ [])
      else result fpga_fits (verdict (not (any (λ e. over (budget_of ev) e.1) util))) (j.id ∷ [])
]

-- the job is of the fabric or bitstream step, or names no step
abbrev relevant : Value → Bool
relevant null = true
relevant (text s) = text_eq s (codes "fabric") || text_eq s (codes "bitstream")
relevant _ = false

unfoldable pub relevant_jobs : List JobRecord → List JobRecord
relevant_jobs [] = []
relevant_jobs (j ∷ js) =
    let rest = relevant_jobs js in
    if relevant (metric (codes "step") (metrics_of j)) then j ∷ rest else rest

unfoldable pub efpga_metrics : Evidence → Option (Dict Value)
unfolding relevant_jobs
efpga_metrics ev = elim (latest_job (relevant_jobs (jobs_of (codes "efpga-fabulous") ev))) [
  | none ↦ none
  | some j ↦ j.result.metrics
]

abbrev first_id : List JobRecord → Text
first_id [] = codes "efpga-fabulous"
first_id (j ∷ js) = j.id

-- `routed is not False`
abbrev not_false : Value → Bool
not_false (boolean false) = false
not_false _ = true

unfoldable pub eval_fabric_generated : Evidence → GateResult
eval_fabric_generated ev = elim (efpga_metrics ev) [
  | none ↦ result fabric_generated missing []
  | some m ↦
      result fabric_generated
        (verdict (
          truthy (metric (codes "fabric_generated") m)
          || positive (metric (codes "bitstream_bytes") m)))
        (first_id (jobs_of (codes "efpga-fabulous") ev) ∷ [])
]

unfoldable pub eval_bitstream_generated : Evidence → GateResult
eval_bitstream_generated ev = elim (efpga_metrics ev) [
  | none ↦ result bitstream_generated missing []
  | some m ↦
      result bitstream_generated
        (verdict
          (positive (metric (codes "bitstream_bytes") m) && not_false (metric (codes "routed") m)))
        (first_id (jobs_of (codes "efpga-fabulous") ev) ∷ [])
]
