-- ===== src/Policy/Budgets/Examples.antt =====
-- A ledger of two submissions and ten tokens.
use chipchamp.Prelude.{◌≤◌, ◌<◌, ◌≡◌, ◌↔◌, true, false, List, [], ◌∷◌}
use chipchamp.Policy.Budgets.{Budget, JobCost, fresh, reserve_v3, refund_v3}
use chipchamp.Policy.Budgets.Ceiling.{
  Op, reserve, refund, overrun, restored, job, run, v3_ceiling, refund-reserve,
}

abbrev small : Budget
small = record { v3_submissions = 2; license_hours = 1; cpu_hours = 1; model_tokens = 10 }

abbrev sim_cost : JobCost
sim_cost = record { id = "J-1"; cached = false; cpu_seconds = 30; license_seconds = 30 }

abbrev operations : List Op
operations = reserve ∷ reserve ∷ reserve ∷ overrun ∷ job sim_cost ∷ refund ∷ overrun ∷ restored ∷ []

v3_ceiling_example : (run (fresh small) operations).v3_used ≤ 5
v3_ceiling_example = v3_ceiling small operations

refund-reserve_example :
    ((reserve_v3 (fresh small)).1.0 ≡ true → refund_v3 (reserve_v3 (fresh small)).0 ≡ fresh small)
    × ((reserve_v3 (fresh small)).1.0 ≡ false → (reserve_v3 (fresh small)).0 ≡ fresh small)
    × (((reserve_v3 (fresh small)).1.0 ≡ true) ↔ (0 < 2))
refund-reserve_example = refund-reserve (fresh small)
