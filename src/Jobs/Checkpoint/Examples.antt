-- ===== src/Jobs/Checkpoint/Examples.antt =====
-- chipchamp/jobs/checkpoint.py: a run of three jobs, one of which is charged already.
use chipchamp.Prelude.{
  true, false, ◌≡◌, refl, ◌+◌, Option, none, some, List, [], ◌∷◌, ◌++◌, if◌then◌else◌,
}
use chipchamp.Text.{Text, codes, text_eq, sorted_texts}
use chipchamp.Policy.Budgets.{JobCost}
use chipchamp.Jobs.Checkpoint.{Checkpoint, Context, restore, restore_costs, is_job_id}
use chipchamp.Jobs.Checkpoint.Restored.{AllCharged, uncharged, restore_costs-AllCharged}

abbrev saved : Checkpoint
saved = record { cases = []; charged_jobs = codes "J-2" ∷ codes "J-1" ∷ [] }

abbrev context : Context
context = record {
  ledger = record {
    budget = record { v3_submissions = 9; license_hours = 1; cpu_hours = 1; model_tokens = 5 };
    v3_used = 1;
    license_seconds = 0;
    cpu_seconds = 4;
    tokens_used = 0;
    charged_jobs = "J-1" ∷ [];
  };
  charged_jobs = codes "J-1" ∷ [];
}

-- the runner has lost the records of the jobs but one
abbrev records : Text → Option JobCost
records id =
    if text_eq id (codes "J-2")
    then some (record { id = "J-2"; cached = false; cpu_seconds = 3; license_seconds = 0 })
    else none

abbrev known : List Text
known = codes "J-3" ∷ codes "J-2" ∷ []

restored : (restore_costs records known saved context).1 ≡ true
unfolding restore_costs restore is_job_id
restored = refl

refused : (restore_costs records (codes "J-" ∷ known) saved context).1 ≡ false
unfolding restore_costs restore is_job_id
refused = refl

restore_costs-AllCharged_example :
    let jobs = sorted_texts (known ++ saved.charged_jobs) in
    let c = (restore_costs records known saved context).0 in
    AllCharged jobs c
    × (restore_costs records known saved c ≡ (c, true))
    × (c.ledger.v3_used ≡ context.ledger.v3_used + uncharged jobs context.charged_jobs)
restore_costs-AllCharged_example = restore_costs-AllCharged records known saved context restored
