-- ===== src/Policy/Gates/OnRecord.antt =====
-- What the passing of a gate says of the job records.
use mathlib.Core.List.{Memᴰ}
use chipchamp.Prelude.{
  ℕ, ap, subst, and_parts, false_is_true, ==_iff, ◌≢◌, ◌&&◌, ◌≡◌, refl, ◌∙◌, sym, inl, inr, Bool,
  true, false, not, Option, none, some, List, [], ◌∷◌, arith, Bool-cases,
}
use mathlib.Core.Bool.{false≢true}
use chipchamp.Text.Quantifiers.{any-false, any-true, all-Mem}
use chipchamp.Text.{Text, text_eq, text_eq_sound, text_eq_iff, codes, is_empty, any, all}
use chipchamp.Jobs.Record.{Status, passed, JobRecord, Diagnostic, is_passed}
use chipchamp.Policy.Gates.Data.{
  ExpectedSim, Gate, Evidence, lint, result, unfinished, jobs_of, last_job,
}
use chipchamp.Policy.Gates.Checks.{
  eval_lint, lint_of, lec_of, lint_verdict, unwaived_error, eval_lec, status_is,
  eval_coverage_baseline, eval_no_gaming,
}
use chipchamp.Policy.Gates.Sims.{latest_sims, runs, seed_eq, eval_affected_regress}
use chipchamp.Policy.Gates.{is_ok}

not_both : (a b : Bool) → a && b ≡ false → a ≡ true → b ≡ true → ⊥
not_both true b h e k = false_is_true (sym h ∙ k)
not_both false b h e k = false_is_true e

not_unwaived :
    (d : Diagnostic) → unwaived_error d ≡ false → d.severity ≡ codes "error" → d.waiver ≢ []
unfolding is_empty
not_unwaived d h e w =
    not_both (text_eq d.severity (codes "error")) (is_empty d.waiver) h
      ((text_eq_iff d.severity (codes "error")).1 e) (subst (λ t. is_empty t ≡ true) (sym w) refl)

-- The latest lint job passed, its diagnostics were recorded, and each error among them is waived.
pub record LintClean (ev : Evidence) : Type 0 where
  pub job : JobRecord
  pub diagnostics : List Diagnostic
  pub latest : last_job (jobs_of (codes "lint") ev) ≡ some job
  pub passed : is_passed job.status ≡ true
  pub recorded : job.result.diagnostics ≡ some diagnostics
  pub waived : (d : Diagnostic) → Memᴰ d diagnostics → d.severity ≡ codes "error" → d.waiver ≢ []

unfinished_not_ok :
    (g : Gate) (j : JobRecord) (e : List Text) → is_ok (result g (unfinished j) e) ≡ false
unfinished_not_ok g j e = ground arith

lint_verdict-ok :
    (j : JobRecord) (o : Option (List Diagnostic))
    → is_ok (lint_verdict j o) ≡ true
    → (ds : List Diagnostic) × (o ≡ some ds) × (any (λ d. unwaived_error d) ds ≡ false)
unfolding lint_verdict
lint_verdict-ok j none h = cc
lint_verdict-ok j (some ds) h = (ds, refl, ground arith)

lint_of-ok :
    (ev : Evidence) (o : Option JobRecord)
    → last_job (jobs_of (codes "lint") ev) ≡ o
    → is_ok (lint_of o) ≡ true
    → LintClean ev
unfolding lint_of
lint_of-ok ev none e h = cc
lint_of-ok ev (some j) e h = elim (Bool-cases (is_passed j.status)) [
  | inl p ↦
      let (ds, r, w) = lint_verdict-ok j j.result.diagnostics (rw p at h) in
      record {
        job = j;
        diagnostics = ds;
        latest = e;
        passed = p;
        recorded = r;
        waived = λ d k. not_unwaived d (any-false (λ d. unwaived_error d) ds w k);
      }
  | inr p ↦ absurd (false≢true (sym (unfinished_not_ok lint j (j.id ∷ [])) ∙ (rw p at h)))
]

pub lint_ok : (ev : Evidence) → is_ok (eval_lint ev) ≡ true → LintClean ev
unfolding eval_lint
lint_ok ev h = lint_of-ok ev (last_job (jobs_of (codes "lint") ev)) refl h

-- The latest equivalence check passed and found the designs equivalent.
pub record Equivalent (ev : Evidence) : Type 0 where
  pub job : JobRecord
  pub latest : last_job (jobs_of (codes "lec") ev) ≡ some job
  pub passed : is_passed job.status ≡ true
  pub equivalent : status_is (codes "equivalent") job.result.status ≡ true

lec_of-ok :
    (ev : Evidence) (o : Option JobRecord)
    → last_job (jobs_of (codes "lec") ev) ≡ o
    → is_ok (lec_of o) ≡ true
    → Equivalent ev
unfolding lec_of
lec_of-ok ev none e h = cc
lec_of-ok ev (some j) e h = record {
  job = j;
  latest = e;
  passed = ground arith;
  equivalent = ground arith;
}

pub lec_ok : (ev : Evidence) → is_ok (eval_lec ev) ≡ true → Equivalent ev
unfolding eval_lec
lec_ok ev h = lec_of-ok ev (last_job (jobs_of (codes "lec") ev)) refl h

-- The job is of the test, the seed and the target that are expected.
abbrev pub Runs : ExpectedSim → JobRecord → Type 0
Runs r j = (j.test_name ≡ r.test) × (j.seed ≡ r.seed) × (j.target_name ≡ r.target)

seed_eq_sound : (a b : Option ℕ) → seed_eq a b ≡ true → a ≡ b
seed_eq_sound none none h = refl
seed_eq_sound (some a) (some b) h = ap some ((==_iff a b).0 h)
seed_eq_sound none (some b) h = cc
seed_eq_sound (some a) none h = cc

runs-Runs :
    (realpath : Text → Text) (r : ExpectedSim) (j : JobRecord) → runs realpath r j ≡ true → Runs r j
runs-Runs realpath r j h =
    let (front, g) = and_parts _ _ h in
    let (t, s) = and_parts _ _ front in
    (text_eq_sound _ _ t, seed_eq_sound _ _ s, text_eq_sound _ _ g)

not_missing : (b : Bool) → not b ≡ false → b ≡ true
not_missing b h = ground arith

is_passed-passed : (s : Status) → is_passed s ≡ true → s ≡ Status.passed
is_passed-passed Status.passed h = refl
is_passed-passed _ h = cc

-- The latest simulations cover every expected test, and every one of them passed.
pub record Regressed (realpath : Text → Text) (ev : Evidence) : Type 0 where
  pub complete :
      (r : ExpectedSim)
      → Memᴰ r ev.expected_sims
      → (j : JobRecord) × Memᴰ j (latest_sims realpath ev) × Runs r j
  pub some_ran : is_empty (latest_sims realpath ev) ≡ false
  pub passed : (j : JobRecord) → Memᴰ j (latest_sims realpath ev) → j.status ≡ passed

all-any-not {ℓ} :
    {A : Type ℓ} (p : A → Bool) (xs : List A) → any (λ x. not (p x)) xs ≡ false → all p xs ≡ true
all-any-not p [] h = refl
all-any-not p (x ∷ xs) h = ground (arith, all-any-not p xs)

pub affected_regress_ok :
    (realpath : Text → Text) (ev : Evidence)
    → is_ok (eval_affected_regress realpath ev) ≡ true
    → Regressed realpath ev
unfolding eval_affected_regress
affected_regress_ok realpath ev h = record {
  complete = λ r k.
      let (j, m, t) =
        any-true (λ j. runs realpath r j) (latest_sims realpath ev)
          (not_missing _ (
            any-false (λ r. not (any (λ j. runs realpath r j) (latest_sims realpath ev)))
              ev.expected_sims (ground arith) k)) in
      (j, m, runs-Runs realpath r j t);
  some_ran = ground arith;
  passed = λ j k.
      is_passed-passed j.status
        (all-Mem (λ j. is_passed j.status) (latest_sims realpath ev) (ground arith) k);
}

pub coverage_baseline_ok :
    (ev : Evidence) → is_ok (eval_coverage_baseline ev) ≡ true → ev.coverage_baseline ≡ some true
unfolding eval_coverage_baseline
coverage_baseline_ok ev h = ground arith

pub no_gaming_ok :
    (ev : Evidence)
    → is_ok (eval_no_gaming ev) ≡ true
    → all (λ f. f.acknowledged) ev.antigaming ≡ true
unfolding eval_no_gaming
no_gaming_ok ev h = all-any-not _ ev.antigaming (ground arith)
