-- ===== src/Policy/Budgets/Ceiling.antt =====
-- Submissions and tokens against their ceilings, along any sequence of ledger operations.
use chipchamp.Prelude.{ℕ, ◌+◌, ◌≤◌, ◌<◌, ◌≡◌, ◌↔◌, ap, true, false, List, [], ◌∷◌, arith}
use chipchamp.Prelude.Int.{pos}
use chipchamp.Policy.Budgets.{
  Budget, BudgetLedger, JobCost, fresh, reserve_v3, refund_v3, can_spend_tokens, record_job,
  record_v3, record_tokens,
}

-- The operations that change a ledger. `record_v3` is called without a reservation in two places:
-- `overrun` is that of a human's approval, `restored` that of a job of a run that is resumed.
pub data Op : Type 0 where
  reserve refund overrun restored : Op
  job : JobCost → Op
  tokens : ℕ → Op

step : BudgetLedger → Op → BudgetLedger
step l reserve = (reserve_v3 l).0
step l refund = refund_v3 l
step l overrun = record_v3 l
step l restored = record_v3 l
step l (job j) = record_job j l
step l (tokens n) = record_tokens n l

pub run : BudgetLedger → List Op → BudgetLedger
run l [] = l
run l (o ∷ os) = run (step l o) os

abbrev pub overruns : List Op → ℕ
overruns [] = 0
overruns (overrun ∷ os) = overruns os + 1
overruns (_ ∷ os) = overruns os

abbrev pub restores : List Op → ℕ
restores [] = 0
restores (restored ∷ os) = restores os + 1
restores (_ ∷ os) = restores os

-- the submissions on record that were not reserved
abbrev unreserved : List Op → ℕ
unreserved os = overruns os + restores os

unreserved-cons :
    (o : Op) (os : List Op) → unreserved (o ∷ os) ≡ unreserved (o ∷ []) + unreserved os
unreserved-cons overrun os = omega arith
unreserved-cons restored os = omega arith
unreserved-cons _ os = omega arith

budget-step : (l : BudgetLedger) (o : Op) → (step l o).budget ≡ l.budget
unfolding step reserve_v3 refund_v3 record_v3 record_job record_tokens
budget-step l reserve = ground arith
budget-step l _ = ground arith

-- What one operation adds to the submissions on record.
v3_used-step :
    (l : BudgetLedger) (o : Op) (k : ℕ)
    → l.v3_used ≤ l.budget.v3_submissions + k
    → (step l o).v3_used ≤ l.budget.v3_submissions + k + unreserved (o ∷ [])
unfolding step reserve_v3 refund_v3 record_v3 record_job record_tokens
v3_used-step l reserve k h = ground arith
v3_used-step l _ k h = ground arith

v3_used-run :
    (l : BudgetLedger) (os : List Op) (k : ℕ)
    → l.v3_used ≤ l.budget.v3_submissions + k
    → (run l os).v3_used ≤ l.budget.v3_submissions + k + unreserved os
unfolding run
v3_used-run l [] k h = omega arith
v3_used-run l (o ∷ os) k h = omega (
  arith,
  unreserved-cons o os,
  budget-step l o,
  ap (λ b. b.v3_submissions) (budget-step l o),
  v3_used-run (step l o) os (k + unreserved (o ∷ []))
      (omega (arith, v3_used-step l o k h, ap (λ b. b.v3_submissions) (budget-step l o))),
)

-- Along any operations from a fresh ledger, the submissions on record pass the ceiling by at most
-- the overruns that a human approved and the jobs that the resumption of a run charged.
pub v3_ceiling :
    (b : Budget) (os : List Op)
    → (run (fresh b) os).v3_used ≤ b.v3_submissions + overruns os + restores os
v3_ceiling b os = omega (arith, v3_used-run (fresh b) os 0)

-- A reservation succeeds exactly when a submission is left; it then counts one, a refund takes
-- exactly that one back, and a refused reservation leaves the ledger as it was.
pub refund-reserve :
    (l : BudgetLedger)
    → ((reserve_v3 l).1.0 ≡ true → refund_v3 (reserve_v3 l).0 ≡ l)
      × ((reserve_v3 l).1.0 ≡ false → (reserve_v3 l).0 ≡ l)
      × (((reserve_v3 l).1.0 ≡ true) ↔ (l.v3_used < l.budget.v3_submissions))
unfolding reserve_v3 refund_v3
refund-reserve l = ground arith

-- Tokens that were allowed beforehand keep the ledger within its token ceiling once recorded.
pub tokens-le-cap :
    (l : BudgetLedger) (n m : ℕ)
    → (can_spend_tokens (pos n) l).0 ≡ true
    → m ≤ n
    → (record_tokens m l).tokens_used ≤ l.budget.model_tokens
unfolding can_spend_tokens record_tokens
tokens-le-cap l n m h k = ground arith
