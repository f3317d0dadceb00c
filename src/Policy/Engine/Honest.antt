-- ===== src/Policy/Engine/Honest.antt =====
-- chipchamp/policy/engine.py: what a change that `validate_done` passes does to the tests.
use chipchamp.Prelude.{
  ◌≡◌, refl, sym, ◌∙◌, false_is_true, Bool, true, false, ◌&&◌, ◌||◌, List, [], ◌∷◌, arith,
  and_parts, if◌then◌else◌,
}
use chipchamp.Text.{Text, all, any}
use chipchamp.Policy.Diff.{Diff}
use chipchamp.Policy.Classify.{TaskClass, has, classify_all, last_class}
use chipchamp.Policy.Antigaming.{scan}
use chipchamp.Policy.Antigaming.Clean.{AllHarmless, scan-AllHarmless}
use chipchamp.Policy.Gates.Data.{no_gaming, Evidence, Finding}
use chipchamp.Policy.Gates.{asks, class_gates, all_passed}
use chipchamp.Policy.Gates.Done.{all_passed-acknowledged}
use chipchamp.Policy.Engine.{
  PolicyEngine, generated_globs, same_key, acked, merge, merged, validate_done,
}

-- A human acknowledged a finding of this kind on this file.
abbrev pub Acknowledged : List Finding → Finding → Type 0
Acknowledged supplied f = any (λ g. same_key f g && g.acknowledged) supplied ≡ true

abbrev pub AllAcknowledged : List Finding → List Finding → Type 0
AllAcknowledged supplied [] = Unit
AllAcknowledged supplied (f ∷ fs) = Acknowledged supplied f × AllAcknowledged supplied fs

acked-Acknowledged :
    (f : Finding) (answer : Bool) (supplied : List Finding)
    → acked f answer supplied ≡ true
    → (answer || any (λ g. same_key f g && g.acknowledged) supplied) ≡ true
unfolding acked
acked-Acknowledged f answer [] h = ground arith
acked-Acknowledged f answer (g ∷ gs) h =
    ground (arith, acked-Acknowledged f (if same_key f g then g.acknowledged else answer) gs h)

merge-AllAcknowledged :
    (scanned supplied : List Finding)
    → all (λ f. f.acknowledged) (merge scanned supplied) ≡ true
    → AllAcknowledged supplied scanned
unfolding merge
merge-AllAcknowledged [] supplied h = tt
merge-AllAcknowledged (f ∷ fs) supplied h =
    let (a, rest) = and_parts (acked f false supplied) _ h in
    (acked-Acknowledged f false supplied a, merge-AllAcknowledged fs supplied rest)

-- If a class of the change asks for the gate "no_gaming" and the report passes, then each finding
-- that the scan of the change makes was acknowledged: the evidence that the caller gave has an
-- acknowledged finding of the same kind on the same file.
pub validate_done-AllAcknowledged :
    (realpath : Text → Text) (engine : PolicyEngine) (diff : Diff) (ev : Evidence) (c : TaskClass)
    → has c (classify_all diff (generated_globs engine) engine.riscv_core) ≡ true
    → asks no_gaming (class_gates c) ≡ true
    → all_passed (validate_done realpath engine diff ev) ≡ true
    → AllAcknowledged ev.antigaming (scan diff)
unfolding validate_done merged
validate_done-AllAcknowledged realpath engine diff ev c h a p =
    let classes = classify_all diff (generated_globs engine) engine.riscv_core in
    merge-AllAcknowledged (scan diff) ev.antigaming
      (all_passed-acknowledged realpath c (last_class classes) classes (merged diff ev) h a p)

nobody_acknowledged :
    (f : Finding) (supplied : List Finding)
    → any (λ g. g.acknowledged) supplied ≡ false
    → any (λ g. same_key f g && g.acknowledged) supplied ≡ false
nobody_acknowledged f [] h = refl
nobody_acknowledged f (g ∷ gs) h = ground (arith, nobody_acknowledged f gs)

no_finding :
    (supplied scanned : List Finding)
    → any (λ g. g.acknowledged) supplied ≡ false
    → AllAcknowledged supplied scanned
    → scanned ≡ []
no_finding supplied [] none a = refl
no_finding supplied (f ∷ fs) none (a, as') =
    absurd (false_is_true (sym (nobody_acknowledged f supplied none) ∙ a))

-- If no finding of the evidence that the caller gave is acknowledged, and a class of the change
-- asks for the gate "no_gaming", a passing report shows that every file of the change is harmless
-- to the tests, the checks and the coverage.
pub validate_done-AllHarmless :
    (realpath : Text → Text) (engine : PolicyEngine) (diff : Diff) (ev : Evidence) (c : TaskClass)
    → any (λ g. g.acknowledged) ev.antigaming ≡ false
    → has c (classify_all diff (generated_globs engine) engine.riscv_core) ≡ true
    → asks no_gaming (class_gates c) ≡ true
    → all_passed (validate_done realpath engine diff ev) ≡ true
    → AllHarmless diff.files
validate_done-AllHarmless realpath engine diff ev c none h a p = (scan-AllHarmless diff).0 (
    no_finding ev.antigaming (scan diff) none
      (validate_done-AllAcknowledged realpath engine diff ev c h a p))
