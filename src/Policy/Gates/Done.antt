-- ===== src/Policy/Gates/Done.antt =====
-- A report in which every gate passes: what is then on record.
use chipchamp.Prelude.{
  ℕ, ◌≡◌, refl, ap, ◌∙◌, sym, subst, inl, inr, Bool, true, false, ◌||◌, some, List, [], ◌∷◌, ◌++◌,
  map, arith, ◌==◌, ==_iff, if◌then◌else◌, Bool-cases, and_parts,
}
use chipchamp.Text.{Text, is_empty, all}
use chipchamp.Policy.Classify
use chipchamp.Policy.Classify.{TaskClass, has, same}
use chipchamp.Policy.Classify.Order.{same_sound, or_true}
use mathlib.Core.Bool.{false≢true}
use chipchamp.Policy.Gates.Data.{
  Gate, elab, lint, smoke_sim, affected_regress, coverage_baseline, lec, cdc_clean, sta_delta,
  drc_clean, lvs_clean, timing_met, antenna_clean, isa_cosim, isa_compliant, fpga_routed, fpga_fits,
  fpga_timing_met, fpga_bitstream, fabric_generated, bitstream_generated, diagnosis_cited,
  regmap_regen, no_gaming, Evidence, GateResult,
}
use chipchamp.Policy.Gates.OnRecord.{
  LintClean, lint_ok, Equivalent, lec_ok, Regressed, affected_regress_ok, coverage_baseline_ok,
  no_gaming_ok,
}
use chipchamp.Policy.Gates.Signoff.{SignedOff, physical_ok}
use chipchamp.Policy.Gates.{
  index, class_gates, is_gate, asks, dedupe, all_gates, required_gates, is_ok, all_passed, eval_one,
  evaluate,
}

-- The inverse of `index`.
gate_at : ℕ → Gate
gate_at n =
    if n == 0
    then elab
    else if n == 1
    then lint
    else if n == 2
    then smoke_sim
    else if n == 3
    then affected_regress
    else if n == 4
    then coverage_baseline
    else if n == 5
    then lec
    else if n == 6
    then cdc_clean
    else if n == 7
    then sta_delta
    else if n == 8
    then drc_clean
    else if n == 9
    then lvs_clean
    else if n == 10
    then timing_met
    else if n == 11
    then antenna_clean
    else if n == 12
    then isa_cosim
    else if n == 13
    then isa_compliant
    else if n == 14
    then fpga_routed
    else if n == 15
    then fpga_fits
    else if n == 16
    then fpga_timing_met
    else if n == 17
    then fpga_bitstream
    else if n == 18
    then fabric_generated
    else if n == 19
    then bitstream_generated
    else if n == 20
    then diagnosis_cited
    else if n == 21
    then regmap_regen
    else no_gaming

gate_at-index : (g : Gate) → gate_at (index g) ≡ g
unfolding gate_at index
gate_at-index elab = refl
gate_at-index _ = refl

is_gate_sound : (g h : Gate) → is_gate g h ≡ true → g ≡ h
is_gate_sound g h e =
    sym (gate_at-index g) ∙ (ap gate_at ((==_iff (index g) (index h)).0 e) ∙ gate_at-index h)

asks-same : (g h : Gate) (gs : List Gate) → is_gate g h ≡ true → asks h gs ≡ true → asks g gs ≡ true
asks-same g h gs e = subst (λ x. asks x gs ≡ true) (sym (is_gate_sound g h e))

absorb : (a b c : Bool) → (b ≡ true → a ≡ true) → a || c ≡ (a || (b || c))
absorb true b c f = refl
absorb false true c f = absurd (false≢true (f refl))
absorb false false c f = refl

asks-append : (g : Gate) (xs ys : List Gate) → asks g (xs ++ ys) ≡ (asks g xs || asks g ys)
asks-append g [] ys = refl
asks-append g (x ∷ xs) ys = ground (arith, asks-append g xs ys)

-- Leaving repeated gates out loses none.
asks-dedupe :
    (g : Gate) (kept gs : List Gate) → asks g (dedupe kept gs) ≡ (asks g kept || asks g gs)
asks-dedupe g kept [] = ground arith
asks-dedupe g kept (h ∷ gs) = elim (Bool-cases (asks h kept)) [
  | inl e ↦ rw e (
      asks-dedupe g kept gs
      ∙ absorb (asks g kept) (is_gate g h) (asks g gs) (λ s. asks-same g h kept s e))
  | inr e ↦ rw e (asks-dedupe g (kept ++ h ∷ []) gs ∙ ground (arith, asks-append g kept (h ∷ [])))
]

asks-all_gates :
    (g : Gate) (c : TaskClass) (cs : List TaskClass)
    → has c cs ≡ true
    → asks g (class_gates c) ≡ true
    → asks g (all_gates cs) ≡ true
asks-all_gates g c [] h a = cc
asks-all_gates g c (d ∷ cs) h a =
    asks-append g (class_gates d) (all_gates cs) ∙ elim (Bool-cases (same c d)) [
      | inl s ↦ rw (subst (λ x. asks g (class_gates x) ≡ true) (same_sound c d s) a) refl
      | inr s ↦ rw (asks-all_gates g c cs (rw s at h) a) (or_true (asks g (class_gates d)))
    ]

all-eval :
    (eval : Gate → GateResult) (g : Gate) (gs : List Gate) (more : List GateResult)
    → all (λ r. is_ok r) (map eval gs ++ more) ≡ true
    → asks g gs ≡ true
    → is_ok (eval g) ≡ true
all-eval eval g [] more h a = cc
all-eval eval g (x ∷ gs) more h a = elim (Bool-cases (is_gate g x)) [
  | inl e ↦
      subst (λ y. is_ok (eval y) ≡ true) (sym (is_gate_sound g x e))
        (and_parts (is_ok (eval x)) _ h).0
  | inr e ↦ all-eval eval g gs more (and_parts (is_ok (eval x)) _ h).1 (rw e at a)
]

-- A gate that a class of the change asks for passed, if the whole report passed.
pub all_passed-gate :
    (realpath : Text → Text) (g : Gate) (c top : TaskClass) (cs : List TaskClass) (ev : Evidence)
    → has c cs ≡ true
    → asks g (class_gates c) ≡ true
    → all_passed (evaluate realpath top ev cs) ≡ true
    → is_ok (eval_one realpath g ev) ≡ true
unfolding all_passed evaluate required_gates is_empty
all_passed-gate realpath g c top [] ev h a p = cc
all_passed-gate realpath g c top (d ∷ cs) ev h a p =
    all-eval (λ x. eval_one realpath x ev) g (dedupe [] (all_gates (d ∷ cs))) _ p
      (asks-dedupe g [] (all_gates (d ∷ cs)) ∙ asks-all_gates g c (d ∷ cs) h a)

pub all_passed-acknowledged :
    (realpath : Text → Text) (c top : TaskClass) (cs : List TaskClass) (ev : Evidence)
    → has c cs ≡ true
    → asks no_gaming (class_gates c) ≡ true
    → all_passed (evaluate realpath top ev cs) ≡ true
    → all (λ f. f.acknowledged) ev.antigaming ≡ true
unfolding eval_one
all_passed-acknowledged realpath c top cs ev h a p =
    no_gaming_ok ev (all_passed-gate realpath no_gaming c top cs ev h a p)

-- What a functional change of the RTL must have on record.
pub record Verified (realpath : Text → Text) (ev : Evidence) : Type 0 where
  pub lint_clean : LintClean ev
  pub regressed : Regressed realpath ev
  pub covered : ev.coverage_baseline ≡ some true
  pub acknowledged : all (λ f. f.acknowledged) ev.antigaming ≡ true

-- If the report on a change with the class "rtl_functional" passes, whatever other classes it has,
-- then its latest lint job passed with every error waived, its latest simulations cover every
-- expected test and all passed, coverage did not regress against the baseline, and no anti-gaming
-- finding is unacknowledged.
pub all_passed-Verified :
    (realpath : Text → Text) (top : TaskClass) (cs : List TaskClass) (ev : Evidence)
    → has Classify.rtl_functional cs ≡ true
    → all_passed (evaluate realpath top ev cs) ≡ true
    → Verified realpath ev
unfolding class_gates eval_one index
all_passed-Verified realpath top cs ev h p = record {
  lint_clean = lint_ok ev (gate lint refl);
  regressed = affected_regress_ok realpath ev (gate affected_regress refl);
  covered = coverage_baseline_ok ev (gate coverage_baseline refl);
  acknowledged = no_gaming_ok ev (gate no_gaming refl);
}
  where
    gate :
        (g : Gate)
        → asks g (class_gates Classify.rtl_functional) ≡ true
        → is_ok (eval_one realpath g ev) ≡ true
    gate g a = all_passed-gate realpath g Classify.rtl_functional top cs ev h a p

-- A change that claims no functional change passes only with an equivalence check: the latest one
-- passed and answered "equivalent". So an inconclusive check never closes it.
pub all_passed-Equivalent :
    (realpath : Text → Text) (top : TaskClass) (cs : List TaskClass) (ev : Evidence)
    → has Classify.rtl_nfc cs ≡ true
    → all_passed (evaluate realpath top ev cs) ≡ true
    → Equivalent ev
unfolding class_gates eval_one index
all_passed-Equivalent realpath top cs ev h p =
    lec_ok ev (all_passed-gate realpath lec Classify.rtl_nfc top cs ev h refl p)

-- A physical change passes only if the latest place-and-route run passed, or failed in its signoff
-- alone, and its record has the number 0 for the DRC violations, the LVS errors and the antenna
-- violations, and a number that is not negative for the worst slack of setup and for that of hold.
pub all_passed-SignedOff :
    (realpath : Text → Text) (top : TaskClass) (cs : List TaskClass) (ev : Evidence)
    → has Classify.physical cs ≡ true
    → all_passed (evaluate realpath top ev cs) ≡ true
    → SignedOff ev
unfolding class_gates eval_one index
all_passed-SignedOff realpath top cs ev h p =
    physical_ok ev (gate drc_clean refl) (gate lvs_clean refl) (gate antenna_clean refl)
      (gate timing_met refl)
  where
    gate :
        (g : Gate)
        → asks g (class_gates Classify.physical) ≡ true
        → is_ok (eval_one realpath g ev) ≡ true
    gate g a = all_passed-gate realpath g Classify.physical top cs ev h a p
