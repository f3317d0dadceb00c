-- ===== src/Policy/Budgets.antt =====
-- chipchamp/policy/budgets.py: the ledger of one task.
pub mod Ceiling
pub mod Charges
mod Examples
use chipchamp.Prelude.{
  ℕ, ◌+◌, ◌-◌, ◌*◌, String, Bool, true, false, ◌||◌, List, ◌∷◌, [], str_eq, ltb, leb, if◌then◌else◌,
}
use chipchamp.Prelude.Int.{ℤ, pos_part}

-- The float amounts are exact here: seconds and hours are both counted in one fixed fraction of
-- their unit, so that `seconds / 3600.0 > hours` is `3600 * hours < seconds`.
pub record Budget : Type 0 where
  pub v3_submissions : ℕ
  pub license_hours : ℕ
  pub cpu_hours : ℕ
  pub model_tokens : ℕ

pub record BudgetLedger : Type 0 where
  pub budget : Budget
  pub v3_used : ℕ
  pub license_seconds : ℕ
  pub cpu_seconds : ℕ
  pub tokens_used : ℕ
  pub charged_jobs : List String

-- the fields of a `JobRecord` that `record_job` reads
pub record JobCost : Type 0 where
  pub id : String
  pub cached : Bool
  pub cpu_seconds : ℕ
  pub license_seconds : ℕ

-- the second component of the answers: the empty text, or the reason for the pause
pub data Why : Type 0 where
  nothing license_exceeded : Why
  v3_exhausted tokens_exhausted : (used cap : ℕ) → Why

abbrev pub fresh : Budget → BudgetLedger
fresh b = record {
  budget = b;
  v3_used = 0;
  license_seconds = 0;
  cpu_seconds = 0;
  tokens_used = 0;
  charged_jobs = [];
}

abbrev pub mem : String → List String → Bool
mem a [] = false
mem a (x ∷ xs) = str_eq x a || mem a xs

can_submit_v3 : BudgetLedger → Bool × Why
can_submit_v3 l =
    if leb l.budget.v3_submissions l.v3_used
    then (false, v3_exhausted l.v3_used l.budget.v3_submissions)
    else (true, nothing)

pub reserve_v3 : BudgetLedger → BudgetLedger × (Bool × Why)
unfolding can_submit_v3
reserve_v3 l =
    let answer = can_submit_v3 l in
    (if answer.0 then record l { v3_used = l.v3_used + 1 } else l, answer)

-- `max(0, n - 1)`
pub refund_v3 : BudgetLedger → BudgetLedger
refund_v3 l = record l { v3_used = l.v3_used - 1 }

pub can_spend_license : ℕ → BudgetLedger → Bool × Why
can_spend_license seconds l =
    if ltb (3600 * l.budget.license_hours) (l.license_seconds + seconds)
    then (false, license_exceeded)
    else (true, nothing)

-- `max(0, n)` is the positive part
pub can_spend_tokens : ℤ → BudgetLedger → Bool × Why
can_spend_tokens n l =
    if ltb l.budget.model_tokens (l.tokens_used + pos_part n)
    then (false, tokens_exhausted l.tokens_used l.budget.model_tokens)
    else (true, nothing)

pub record_job : JobCost → BudgetLedger → BudgetLedger
record_job j l = if mem j.id l.charged_jobs || j.cached then l else record l {
  charged_jobs = j.id ∷ l.charged_jobs;
  cpu_seconds = l.cpu_seconds + j.cpu_seconds;
  license_seconds = l.license_seconds + j.license_seconds;
}

pub record_v3 : BudgetLedger → BudgetLedger
record_v3 l = record l { v3_used = l.v3_used + 1 }

pub record_tokens : ℕ → BudgetLedger → BudgetLedger
record_tokens n l = record l { tokens_used = l.tokens_used + n }
