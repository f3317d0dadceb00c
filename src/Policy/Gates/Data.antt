-- ===== src/Policy/Gates/Data.antt =====
-- chipchamp/policy/gates.py: `Evidence`, `GateResult`, the names of the gates, and the choice of
-- jobs. The texts for the human (`detail`) are not modelled.
use chipchamp.Prelude.{
  ℕ, Bool, true, false, ◌&&◌, Option, none, some, List, [], ◌∷◌, ltb, if◌then◌else◌,
}
use chipchamp.Prelude.Int.{ℤ}
use chipchamp.Text.{Text, text_eq, any}
use chipchamp.Jobs.Record.{JobRecord, is_passed, is_pending}

pub data Gate : Type 0 where
  elab lint smoke_sim affected_regress coverage_baseline lec cdc_clean sta_delta : Gate
  drc_clean lvs_clean timing_met antenna_clean isa_cosim isa_compliant : Gate
  fpga_routed fpga_fits fpga_timing_met fpga_bitstream : Gate
  fabric_generated bitstream_generated diagnosis_cited regmap_regen no_gaming : Gate

pub data GateStatus : Type 0 where
  pass fail missing : GateStatus

-- `evidence` holds the job ids, or the check, that the result refers to.
pub record GateResult : Type 0 where
  pub name : Gate
  pub status : GateStatus
  pub evidence : List Text

-- a co-simulation's verdict
pub record Cosim : Type 0 where
  pub compared : ℤ
  pub matched : Bool
  pub job : Text

pub record Compliance : Type 0 where
  pub total : ℤ
  pub failed : ℤ
  pub job : Text

pub record Finding : Type 0 where
  pub kind : Text
  pub file : Text
  pub acknowledged : Bool

-- a root-cause note of the notebook
pub record Note : Type 0 where
  pub id : Text
  pub subject : Text
  pub detail : Text
  pub evidence : Text

pub record ExpectedSim : Type 0 where
  pub test : Text
  pub seed : Option ℕ
  pub target : Text

-- `coverage_baseline` is the `ok` of the verdict; `fpga_max_utilization` counts billionths.
pub record Evidence : Type 0 where
  pub jobs : List JobRecord
  pub coverage_baseline : Option Bool
  pub antigaming : List Finding
  pub regmap_regenerated : Option Bool
  pub cdc_new_violations : Option ℤ
  pub sta_new_violations : Option ℤ
  pub fpga_max_utilization : ℕ
  pub riscv_cosim : Option Cosim
  pub riscv_compliance : Option Compliance
  pub root_cause_notes : List Note
  pub expected_sims : List ExpectedSim
  pub diagnosis_jobs : List JobRecord

unfoldable pub of_kind : Text → List JobRecord → List JobRecord
unfolding text_eq
of_kind kind [] = []
of_kind kind (j ∷ js) = let rest = of_kind kind js in if text_eq j.kind kind then j ∷ rest else rest

abbrev pub jobs_of : Text → Evidence → List JobRecord
jobs_of kind ev = of_kind kind ev.jobs

abbrev pub last_job : List JobRecord → Option JobRecord
last_job [] = none
last_job (j ∷ []) = some j
last_job (j ∷ k ∷ js) = last_job (k ∷ js)

-- `max(jobs, key=start_ts)`: the first of the latest
unfoldable pub latest_from : JobRecord → List JobRecord → JobRecord
latest_from best [] = best
latest_from best (j ∷ js) = latest_from (if ltb best.start_ts j.start_ts then j else best) js

abbrev pub latest_job : List JobRecord → Option JobRecord
latest_job [] = none
latest_job (j ∷ js) = some (latest_from j js)

abbrev pub kind_in : Text → List Text → Bool
kind_in kind kinds = any (λ k. text_eq kind k) kinds

-- `_passed_job`, which no caller gives a predicate
unfoldable pub passed_job : List Text → List JobRecord → Option JobRecord
unfolding text_eq
passed_job kinds [] = none
passed_job kinds (j ∷ js) =
    if kind_in j.kind kinds && is_passed j.status then some j else passed_job kinds js

abbrev pub result : Gate → GateStatus → List Text → GateResult
result g s e = record { name = g; status = s; evidence = e }

abbrev pub verdict : Bool → GateStatus
verdict true = pass
verdict false = fail

-- "missing" while the job is still to end, "fail" afterwards
abbrev pub unfinished : JobRecord → GateStatus
unfinished j = if is_pending j.status then missing else fail
