-- ===== src/Jobs/Checkpoint/Restored.antt =====
-- chipchamp/jobs/checkpoint.py: a run that is resumed is paid for once.
use chipchamp.Prelude.{
  ℕ, suc, ◌+◌, ◌≡◌, refl, sym, ◌∙◌, Bool, true, false, ◌||◌, ◌&&◌, Option, none, some, List, [],
  ◌∷◌, ◌++◌, arith, choose, false_is_true, if◌then◌else◌,
}
use chipchamp.Text.{Text, text_eq, text_eq_refl, all, sorted_texts}
use chipchamp.Policy.Budgets.{BudgetLedger, JobCost, record_v3}
use chipchamp.Policy.Budgets.Charges.{record_job-v3_used, record_v3-v3_used}
use chipchamp.Jobs.Checkpoint.{
  Context, Checkpoint, mem, bill, charge, restore, restore_costs, is_job_id,
}

-- all of the jobs are charged
abbrev pub AllCharged : List Text → Context → Type 0
AllCharged [] ctx = Unit
AllCharged (j ∷ js) ctx = (mem j ctx.charged_jobs ≡ true) × AllCharged js ctx

-- how many of the jobs are not charged yet
abbrev pub uncharged : List Text → List Text → ℕ
uncharged [] charged = 0
uncharged (j ∷ js) charged =
    if mem j charged then uncharged js charged else suc (uncharged js (j ∷ charged))

or_right : (a : Bool) {b : Bool} → b ≡ true → a || b ≡ true
or_right true h = refl
or_right false h = h

or_left : (a b : Bool) → a ≡ true → a || b ≡ true
or_left true b h = refl
or_left false b h = absurd (false_is_true h)

and_both : (a b : Bool) → a ≡ true → b ≡ true → a && b ≡ true
and_both true b h k = k
and_both false b h k = h

and_left : (a b : Bool) → a && b ≡ true → a ≡ true
and_left true b h = refl
and_left false b h = h

and_right : (a b : Bool) → a && b ≡ true → b ≡ true
and_right true b h = h
and_right false b h = absurd (false_is_true h)

-- what is paid for a job that may be charged already
v3_step :
    (b : Bool) (old new : Context) (f : List Text → ℕ)
    → new.ledger.v3_used ≡ old.ledger.v3_used + 1
    → (if b then old else new).ledger.v3_used + f (if b then old else new).charged_jobs
      ≡ old.ledger.v3_used + (if b then f old.charged_jobs else suc (f new.charged_jobs))
v3_step true old new f h = refl
v3_step false old new f h = omega arith

module _ (find : Text → Option JobCost) where
  bill-v3_used : (o : Option JobCost) (l : BudgetLedger) → (bill o l).v3_used ≡ l.v3_used
  bill-v3_used none l = refl
  bill-v3_used (some j) l = record_job-v3_used j l

  charge-Has :
      (i j : Text) (ctx : Context)
      → mem i ctx.charged_jobs ≡ true
      → mem i (charge find j ctx).charged_jobs ≡ true
  charge-Has i j ctx h =
      choose {A = Context} (λ c. mem i c.charged_jobs ≡ true) (mem j ctx.charged_jobs) _ _ (λ e. h)
        (λ e. or_right (text_eq i j) h)

  charge-itself : (j : Text) (ctx : Context) → mem j (charge find j ctx).charged_jobs ≡ true
  charge-itself j ctx =
      choose {A = Context} (λ c. mem j c.charged_jobs ≡ true) (mem j ctx.charged_jobs) _ _ (λ e. e)
        (λ e. or_left _ _ (text_eq_refl j))

  -- a job that is charged stays so
  restore-Has :
      (i : Text) (js : List Text) (ctx : Context)
      → mem i ctx.charged_jobs ≡ true
      → mem i (restore find js ctx).0.charged_jobs ≡ true
  unfolding restore
  restore-Has i [] ctx h = h
  restore-Has i (j ∷ js) ctx h =
      choose {A = Context × Bool} (λ o. mem i o.0.charged_jobs ≡ true) (is_job_id j) _ _
        (λ e. restore-Has i js (charge find j ctx) (charge-Has i j ctx h)) (λ e. h)

  restore-AllCharged :
      (js : List Text) (ctx : Context)
      → (restore find js ctx).1 ≡ true
      → AllCharged js (restore find js ctx).0
  unfolding restore
  restore-AllCharged [] ctx = λ h. tt
  restore-AllCharged (j ∷ js) ctx =
      choose {A = Context × Bool} (λ o. o.1 ≡ true → AllCharged (j ∷ js) o.0) (is_job_id j) _ _
        (λ e h. (
          restore-Has j js (charge find j ctx) (charge-itself j ctx),
          restore-AllCharged js (charge find j ctx) h,
        ))
        (λ e h. absurd (false_is_true h))

  restore-all :
      (js : List Text) (ctx : Context) → (restore find js ctx).1 ≡ true → all is_job_id js ≡ true
  unfolding restore
  restore-all [] ctx = λ h. refl
  restore-all (j ∷ js) ctx =
      choose {A = Context × Bool} (λ o. o.1 ≡ true → all is_job_id (j ∷ js) ≡ true) (is_job_id j) _
        _ (λ e h. and_both _ _ e (restore-all js (charge find j ctx) h))
        (λ e h. absurd (false_is_true h))

  -- with all of its jobs charged, it changes nothing
  restore-again :
      (js : List Text) (ctx : Context)
      → all is_job_id js ≡ true
      → AllCharged js ctx
      → restore find js ctx ≡ (ctx, true)
  unfolding restore
  restore-again [] ctx h a = refl
  restore-again (j ∷ js) ctx h (a, r) =
      choose {A = Context × Bool} (λ o. o ≡ (ctx, true)) (is_job_id j) _ _
        (λ e.
          choose {A = Context} (λ c. restore find js c ≡ (ctx, true)) (mem j ctx.charged_jobs) _ _
            (λ _. restore-again js ctx (and_right _ _ h) r)
            (λ n. absurd (false_is_true (sym n ∙ a))))
        (λ n. absurd (false_is_true (sym n ∙ and_left _ _ h)))

  charge-v3_used :
      (j : Text) (js : List Text) (ctx : Context)
      → (charge find j ctx).ledger.v3_used + uncharged js (charge find j ctx).charged_jobs
        ≡ ctx.ledger.v3_used + uncharged (j ∷ js) ctx.charged_jobs
  charge-v3_used j js ctx =
      v3_step (mem j ctx.charged_jobs) ctx _ (uncharged js)
        (bill-v3_used (find j) (record_v3 ctx.ledger) ∙ record_v3-v3_used ctx.ledger)

  restore-v3_used :
      (js : List Text) (ctx : Context)
      → (restore find js ctx).1 ≡ true
      → (restore find js ctx).0.ledger.v3_used ≡ ctx.ledger.v3_used + uncharged js ctx.charged_jobs
  unfolding restore
  restore-v3_used [] ctx = λ h. omega arith
  restore-v3_used (j ∷ js) ctx =
      choose {A = Context × Bool}
        (λ o.
          o.1 ≡ true
          → o.0.ledger.v3_used ≡ ctx.ledger.v3_used + uncharged (j ∷ js) ctx.charged_jobs)
        (is_job_id j) _ _
        (λ e h. restore-v3_used js (charge find j ctx) h ∙ charge-v3_used j js ctx)
        (λ e h. absurd (false_is_true h))

  -- If no identity is refused: every job of the run, of the runner or of the checkpoint, is charged
  -- afterwards; restoring once more changes nothing; and the V3 submissions used grew by exactly
  -- the number of jobs that were not charged before.
  pub restore_costs-AllCharged :
      (known : List Text) (cp : Checkpoint) (ctx : Context)
      → (restore_costs find known cp ctx).1 ≡ true
      → let jobs = sorted_texts (known ++ cp.charged_jobs) in
        let c = (restore_costs find known cp ctx).0 in
        AllCharged jobs c
        × (restore_costs find known cp c ≡ (c, true))
        × (c.ledger.v3_used ≡ ctx.ledger.v3_used + uncharged jobs ctx.charged_jobs)
  unfolding restore_costs
  restore_costs-AllCharged known cp ctx h =
      let jobs = sorted_texts (known ++ cp.charged_jobs) in
      (
        restore-AllCharged jobs ctx h,
        restore-again jobs _ (restore-all jobs ctx h) (restore-AllCharged jobs ctx h),
        restore-v3_used jobs ctx h,
      )
