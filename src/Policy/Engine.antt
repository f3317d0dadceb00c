-- ===== src/Policy/Engine.antt =====
-- chipchamp/policy/engine.py: `PolicyEngine`, which decides what may be read and written and what
-- may be reported as done. A source-of-truth entry keeps its outputs alone: its sources and its
-- generator only stand in the message. `brand.dot_dir_names()` is the parameter `dot_dirs`.
pub mod Writes
pub mod Honest
pub mod Guarded
mod Examples
use chipchamp.Prelude.{
  ◌≡◌, refl, Bool, true, false, not, ◌&&◌, ◌||◌, String, Option, none, some, List, [], ◌∷◌, ◌++◌,
  map, if◌then◌else◌,
}
use chipchamp.Text.{Text, codes, text_eq, is_empty}
use chipchamp.Fnmatch.{fnmatch}
use chipchamp.Policy.Acl.{ContextAcl, is_allowed, Reason, reason}
use chipchamp.Policy.Autonomy.{Rules, AutonomyDecision, decide}
use chipchamp.Policy.Canonical.{canonical, isabs, outside}
use chipchamp.Policy.Diff.{FileChange, Diff}
use chipchamp.Policy.Classify.{TaskClass, classify_all, last_class}
use chipchamp.Policy.Classify
use chipchamp.Policy.Antigaming.{scan}
use chipchamp.Policy.Gates.Data.{Gate, Finding, Evidence}
use chipchamp.Policy.Gates.{required_gates, GateReport, evaluate}

-- `generated` holds each entry's `outputs`.
pub record PolicyEngine : Type 0 where
  pub acl : ContextAcl
  pub autonomy_rules : Rules
  pub default_autonomy : String
  pub protected_paths : List Text
  pub generated : List (List Text)
  pub riscv_core : Bool

-- `protected_paths or ([f"{d}/policy.yaml" for d in ...] + ["waivers/**"])`
abbrev pub default_protected : List Text → List Text
default_protected dot_dirs =
    map (λ d. d ++ codes "/policy.yaml") dot_dirs ++ codes "waivers/**" ∷ []

pub protected_or_default : List Text → List Text → List Text
protected_or_default dot_dirs [] = default_protected dot_dirs
protected_or_default dot_dirs (g ∷ gs) = g ∷ gs

-- The answer of `can_write`, with what its message names.
pub data Verdict : Type 0 where
  ok outside_workspace : Verdict
  denied : Reason → Verdict
  protected_by generated_by : Text → Verdict

-- the first glob that the path matches
pub first_match : Text → List Text → Option Text
first_match path [] = none
first_match path (g ∷ gs) = if fnmatch path g then some g else first_match path gs

pub generated_match : Text → List (List Text) → Option Text
generated_match path [] = none
generated_match path (outputs ∷ entries) = elim (first_match path outputs) [
  | some g ↦ some g
  | none ↦ generated_match path entries
]

abbrev pub concat_all : List (List Text) → List Text
concat_all [] = []
concat_all (gs ∷ rest) = gs ++ concat_all rest

pub can_read : PolicyEngine → Text → Bool
can_read engine path =
    let p = canonical path in not (isabs p || outside p) && is_allowed engine.acl p

abbrev pub generated_verdict : Option Text → Verdict
generated_verdict none = ok
generated_verdict (some g) = generated_by g

abbrev pub protected_verdict : Option Text → Verdict → Verdict
protected_verdict none otherwise = otherwise
protected_verdict (some g) otherwise = protected_by g

-- `os.path.isabs` reads the path as it was given.
pub can_write : PolicyEngine → Text → Bool → Verdict
can_write engine raw allow_generated =
    let path = canonical raw in
    if isabs raw || outside path
    then outside_workspace
    else if not (is_allowed engine.acl path)
    then denied (reason engine.acl path)
    else protected_verdict (first_match path engine.protected_paths)
        (if allow_generated then ok else generated_verdict (generated_match path engine.generated))

pub generated_globs : PolicyEngine → List Text
generated_globs engine = concat_all engine.generated

pub record PolicyCheck : Type 0 where
  pub task_class : TaskClass
  pub min_rung : String
  pub required_gates : List Gate
  pub autonomy : AutonomyDecision
  pub antigaming_findings : List Finding
  pub acl_notes : List (Text × Reason)
  pub task_classes : List TaskClass

pub acl_notes_of : ContextAcl → List FileChange → List (Text × Reason)
acl_notes_of acl [] = []
acl_notes_of acl (f ∷ fs) =
    let rest = acl_notes_of acl fs in
    if not (is_allowed acl f.path) then (f.path, reason acl f.path) ∷ rest else rest

-- the name that a class has in the source
abbrev pub class_name : TaskClass → String
class_name Classify.docs = "docs"
class_name Classify.tb_only = "tb_only"
class_name Classify.build_scripts = "build_scripts"
class_name Classify.regmap = "regmap"
class_name Classify.rtl_nfc = "rtl_nfc"
class_name Classify.rtl_functional = "rtl_functional"
class_name Classify.timing = "timing"
class_name Classify.cdc = "cdc"
class_name Classify.physical = "physical"
class_name Classify.efpga_fabulous = "efpga-fabulous"
class_name Classify.riscv = "riscv"
class_name Classify.fpga = "fpga"

pub check : PolicyEngine → Diff → PolicyCheck
check engine diff =
    let classes = classify_all diff (generated_globs engine) engine.riscv_core in
    let tclass = last_class classes in
    let (rung, gates) = required_gates tclass classes in
    record {
      task_class = tclass;
      min_rung = rung;
      required_gates = gates;
      autonomy =
          decide (class_name tclass) (map (λ f. f.path) diff.files) engine.autonomy_rules
            engine.default_autonomy;
      antigaming_findings = scan diff;
      acl_notes = acl_notes_of engine.acl diff.files;
      task_classes = classes;
    }

-- `ack_index.get((kind, file), False)`: of the findings with one key, the last counts
pub same_key : Finding → Finding → Bool
unfolding text_eq
same_key f g = text_eq f.kind g.kind && text_eq f.file g.file

pub acked : Finding → Bool → List Finding → Bool
acked f answer [] = answer
acked f answer (g ∷ gs) = acked f (if same_key f g then g.acknowledged else answer) gs

pub merge : List Finding → List Finding → List Finding
merge scanned supplied =
    map {A = Finding} (λ f. record f { acknowledged = acked f false supplied }) scanned

-- what `validate_done` evaluates: the evidence that the caller gave, with the scanned findings
pub merged : Diff → Evidence → Evidence
merged diff ev = record ev { antigaming = merge (scan diff) ev.antigaming }

pub validate_done : (realpath : Text → Text) → PolicyEngine → Diff → Evidence → GateReport
validate_done realpath engine diff ev =
    let classes = classify_all diff (generated_globs engine) engine.riscv_core in
    evaluate realpath (last_class classes) (merged diff ev) classes
