-- ===== src/Policy/Budgets/Charges.antt =====
-- Each job is billed once.
use chipchamp.Prelude.{◌≡◌, ◌+◌, refl, String, true, ◌||◌, List, [], ◌∷◌, arith, eq_iff}
use chipchamp.Policy.Budgets.{BudgetLedger, JobCost, mem, record_job, record_v3}

pub record_all : List JobCost → BudgetLedger → BudgetLedger
record_all [] l = l
record_all (j ∷ js) l = record_all js (record_job j l)

-- Nothing is left to bill of `j`.
abbrev IsSettled : JobCost → BudgetLedger → Type 0
IsSettled j l = (mem j.id l.charged_jobs || j.cached) ≡ true

mem_self : (a : String) (xs : List String) → mem a (a ∷ xs) ≡ true
mem_self a xs = ground (arith, eq_iff a a)

record_job-IsSettled : (j : JobCost) (l : BudgetLedger) → IsSettled j (record_job j l)
unfolding record_job
record_job-IsSettled j l = ground (arith, mem_self j.id l.charged_jobs)

IsSettled-record_job :
    (i j : JobCost) (l : BudgetLedger) → IsSettled i l → IsSettled i (record_job j l)
unfolding record_job
IsSettled-record_job i j l h = ground (arith, eq_iff j.id i.id)

IsSettled-record_all :
    (i : JobCost) (js : List JobCost) (l : BudgetLedger)
    → IsSettled i l
    → IsSettled i (record_all js l)
unfolding record_all
IsSettled-record_all i [] l h = h
IsSettled-record_all i (j ∷ js) l h =
    IsSettled-record_all i js (record_job j l) (IsSettled-record_job i j l h)

record_settled : (j : JobCost) (l : BudgetLedger) → IsSettled j l → record_job j l ≡ l
unfolding record_job
record_settled j l h = rw h

abbrev AllSettled : List JobCost → BudgetLedger → Type 0
AllSettled [] l = Unit
AllSettled (j ∷ js) l = IsSettled j l × AllSettled js l

record_all-AllSettled : (js : List JobCost) (l : BudgetLedger) → AllSettled js (record_all js l)
unfolding record_all
record_all-AllSettled [] l = tt
record_all-AllSettled (j ∷ js) l = (
  IsSettled-record_all j js (record_job j l) (record_job-IsSettled j l),
  record_all-AllSettled js (record_job j l),
)

record_all_settled : (js : List JobCost) (l : BudgetLedger) → AllSettled js l → record_all js l ≡ l
unfolding record_all
record_all_settled [] l h = refl
record_all_settled (j ∷ js) l h = rw (record_settled j l h.0) (record_all_settled js l h.1)

-- Billing the same jobs again, in the order of the first time, changes nothing: a detached job
-- that is refreshed twice, or a regression that is resumed, is paid for once.
pub record_all_idem :
    (js : List JobCost) (l : BudgetLedger) → record_all js (record_all js l) ≡ record_all js l
record_all_idem js l = record_all_settled js (record_all js l) (record_all-AllSettled js l)

-- a bill is no submission, and a submission on record is one more
pub record_job-v3_used : (j : JobCost) (l : BudgetLedger) → (record_job j l).v3_used ≡ l.v3_used
unfolding record_job
record_job-v3_used j l = ground arith

pub record_v3-v3_used : (l : BudgetLedger) → (record_v3 l).v3_used ≡ l.v3_used + 1
unfolding record_v3
record_v3-v3_used l = refl
