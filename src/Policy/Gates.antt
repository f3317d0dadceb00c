-- ===== src/Policy/Gates.antt =====
-- chipchamp/policy/gates.py: the gates of each class, and their evaluation.
pub mod Data
pub mod Sims
pub mod Checks
pub mod Fpga
pub mod Diagnosis
pub mod OnRecord
pub mod Signoff
pub mod Done
pub mod Latest
mod Examples
use chipchamp.Prelude.{
  ℕ, Bool, true, false, not, ◌&&◌, ◌||◌, String, List, [], ◌∷◌, ◌++◌, map, ◌==◌, if◌then◌else◌,
}
use chipchamp.Text.{Text, is_empty, any, all}
use chipchamp.Policy.Classify
use chipchamp.Policy.Classify.{TaskClass}
use chipchamp.Policy.Gates.Data.{
  Gate, elab, lint, smoke_sim, affected_regress, coverage_baseline, lec, cdc_clean, sta_delta,
  drc_clean, lvs_clean, timing_met, antenna_clean, isa_cosim, isa_compliant, fpga_routed, fpga_fits,
  fpga_timing_met, fpga_bitstream, fabric_generated, bitstream_generated, diagnosis_cited,
  regmap_regen, no_gaming, Evidence, GateResult, GateStatus, pass, fail, missing,
}
use chipchamp.Policy.Gates.Sims.{eval_smoke_sim, eval_affected_regress}
use chipchamp.Policy.Gates.Checks.{
  eval_elab, eval_lint, eval_lec, eval_coverage_baseline, eval_cdc_clean, eval_sta_delta,
  eval_physical, eval_isa_cosim, eval_isa_compliant, eval_regmap_regen, eval_no_gaming,
}
use chipchamp.Policy.Gates.Fpga.{
  eval_fpga_routed, eval_fpga_fits, eval_fpga_timing_met, eval_fpga_bitstream,
  eval_fabric_generated, eval_bitstream_generated,
}
use chipchamp.Policy.Gates.Diagnosis.{eval_diagnosis_cited}

-- `CLASS_GATES`: the lowest rung of the ladder, and the gates. Every class has an entry, so the
-- defaults for a class without one are never taken.
pub rung_of : TaskClass → String
rung_of Classify.docs = "V0"
rung_of Classify.tb_only = "V2"
rung_of Classify.build_scripts = "V2"
rung_of Classify.regmap = "V3"
rung_of Classify.rtl_nfc = "V2"
rung_of Classify.rtl_functional = "V3"
rung_of Classify.timing = "V3"
rung_of Classify.cdc = "V3"
rung_of Classify.physical = "P"
rung_of Classify.efpga_fabulous = "E"
rung_of Classify.riscv = "R"
rung_of Classify.fpga = "F"

unfoldable pub class_gates : TaskClass → List Gate
class_gates Classify.docs = []
class_gates Classify.tb_only = elab ∷ smoke_sim ∷ no_gaming ∷ []
class_gates Classify.build_scripts = elab ∷ smoke_sim ∷ no_gaming ∷ []
class_gates Classify.regmap =
    lint ∷ smoke_sim ∷ affected_regress ∷ coverage_baseline ∷ regmap_regen ∷ no_gaming ∷ []
class_gates Classify.rtl_nfc = lint ∷ smoke_sim ∷ lec ∷ no_gaming ∷ []
class_gates Classify.rtl_functional =
    lint ∷ smoke_sim ∷ affected_regress ∷ coverage_baseline ∷ no_gaming ∷ []
class_gates Classify.timing =
    lint ∷ smoke_sim ∷ affected_regress ∷ coverage_baseline ∷ sta_delta ∷ no_gaming ∷ []
class_gates Classify.cdc =
    lint ∷ smoke_sim ∷ affected_regress ∷ coverage_baseline ∷ cdc_clean ∷ no_gaming ∷ []
class_gates Classify.physical = drc_clean ∷ lvs_clean ∷ timing_met ∷ antenna_clean ∷ []
class_gates Classify.efpga_fabulous = fabric_generated ∷ bitstream_generated ∷ []
class_gates Classify.riscv =
    lint ∷ smoke_sim ∷ affected_regress ∷ coverage_baseline ∷ isa_cosim ∷ isa_compliant ∷ no_gaming
    ∷ []
class_gates Classify.fpga = fpga_routed ∷ fpga_fits ∷ fpga_timing_met ∷ fpga_bitstream ∷ []

-- a number for each gate, to compare them
unfoldable pub index : Gate → ℕ
index elab = 0
index lint = 1
index smoke_sim = 2
index affected_regress = 3
index coverage_baseline = 4
index lec = 5
index cdc_clean = 6
index sta_delta = 7
index drc_clean = 8
index lvs_clean = 9
index timing_met = 10
index antenna_clean = 11
index isa_cosim = 12
index isa_compliant = 13
index fpga_routed = 14
index fpga_fits = 15
index fpga_timing_met = 16
index fpga_bitstream = 17
index fabric_generated = 18
index bitstream_generated = 19
index diagnosis_cited = 20
index regmap_regen = 21
index no_gaming = 22

abbrev pub is_gate : Gate → Gate → Bool
is_gate g h = index g == index h

abbrev pub asks : Gate → List Gate → Bool
asks g hs = any (λ h. is_gate g h) hs

-- `list(dict.fromkeys(gates))`, from the gates kept so far
abbrev pub dedupe : List Gate → List Gate → List Gate
dedupe kept [] = kept
dedupe kept (g ∷ gs) = dedupe (if asks g kept then kept else kept ++ g ∷ []) gs

abbrev pub all_gates : List TaskClass → List Gate
all_gates [] = []
all_gates (c ∷ cs) = class_gates c ++ all_gates cs

unfoldable pub required_gates : TaskClass → List TaskClass → String × List Gate
required_gates c cs = (rung_of c, dedupe [] (all_gates (if is_empty cs then c ∷ [] else cs)))

pub record GateReport : Type 0 where
  pub task_class : TaskClass
  pub min_rung : String
  pub gates : List GateResult

abbrev pub is_ok : GateResult → Bool
is_ok r = elim r.status [ pass ↦ true | fail ↦ false | missing ↦ false ]

unfoldable pub all_passed : GateReport → Bool
all_passed r = all (λ g. is_ok g) r.gates

pub blocking : List GateResult → List Gate
blocking [] = []
blocking (r ∷ rs) = let rest = blocking rs in if is_ok r then rest else r.name ∷ rest

module _ (realpath : Text → Text) where
  unfoldable pub eval_one : Gate → Evidence → GateResult
  eval_one elab ev = eval_elab ev
  eval_one lint ev = eval_lint ev
  eval_one smoke_sim ev = eval_smoke_sim realpath ev
  eval_one affected_regress ev = eval_affected_regress realpath ev
  eval_one coverage_baseline ev = eval_coverage_baseline ev
  eval_one lec ev = eval_lec ev
  eval_one cdc_clean ev = eval_cdc_clean ev
  eval_one sta_delta ev = eval_sta_delta ev
  eval_one isa_cosim ev = eval_isa_cosim ev
  eval_one isa_compliant ev = eval_isa_compliant ev
  eval_one fpga_routed ev = eval_fpga_routed ev
  eval_one fpga_fits ev = eval_fpga_fits ev
  eval_one fpga_timing_met ev = eval_fpga_timing_met ev
  eval_one fpga_bitstream ev = eval_fpga_bitstream ev
  eval_one fabric_generated ev = eval_fabric_generated ev
  eval_one bitstream_generated ev = eval_bitstream_generated ev
  eval_one diagnosis_cited ev = eval_diagnosis_cited ev
  eval_one regmap_regen ev = eval_regmap_regen ev
  eval_one no_gaming ev = eval_no_gaming ev
  eval_one g ev = eval_physical g ev

  -- a root-cause note adds the obligation to cite a job, whatever the class
  unfoldable pub evaluate : TaskClass → Evidence → List TaskClass → GateReport
  evaluate c ev cs =
      let (rung, gates) = required_gates c cs in
      record {
        task_class = c;
        min_rung = rung;
        gates =
            map (λ g. eval_one g ev) gates
            ++ (if is_empty ev.root_cause_notes then [] else eval_one diagnosis_cited ev ∷ []);
      }
