-- ===== src/Jobs/Checkpoint.antt =====
-- chipchamp/jobs/checkpoint.py: the cases and the charges of a regression's checkpoint. `digest` is the
-- hash of a test and a seed, `known` are the runner's jobs of the run, and `find` its records. What is
-- saved, and what may be reused, is not modelled.
mod Examples
pub mod Restored
use chipchamp.Prelude.{
  ℕ, suc, Bool, true, false, not, ◌&&◌, ◌||◌, Option, none, some, List, [], ◌∷◌, ◌++◌, take, drop,
  ◌==◌, if◌then◌else◌,
}
use chipchamp.Prelude.Int.{ℤ}
use chipchamp.Text.{Text, codes, text_eq, starts_with, is_empty, any, all, sorted_texts}
use chipchamp.Regex.{is_word}
use chipchamp.Dict.{Dict, get, put}
use chipchamp.Policy.Budgets.{BudgetLedger, JobCost, record_v3, record_job}

pub record Case : Type 0 where
  pub test : Text
  pub seed : ℤ
  pub job : Text
  pub status : Text
  pub attempt : Option Text

pub record Checkpoint : Type 0 where
  pub cases : Dict Case
  pub charged_jobs : List Text

-- what the checkpoint uses of its context
pub record Context : Type 0 where
  pub ledger : BudgetLedger
  pub charged_jobs : List Text

abbrev pub mem : Text → List Text → Bool
mem t ts = any (λ u. text_eq t u) ts

module _ (digest : Text → ℤ → Text) where
  pub case_key : Text → ℤ → Text
  case_key test seed = take 24 (digest test seed)

  pub start : Text → ℤ → Text → Checkpoint → Checkpoint
  unfolding case_key put
  start test seed attempt cp = record cp {
    cases =
        put (case_key test seed)
          (record {
            test = test;
            seed = seed;
            job = [];
            status = codes "running";
            attempt = some attempt;
          })
          cp.cases;
  }

  abbrev attempt_of : Option Case → Option Text
  attempt_of none = none
  attempt_of (some c) = c.attempt

  -- `setdefault(key, {}).update(...)`, then the charge
  pub record_case : Text → ℤ → Text → Text → Context → Checkpoint → Checkpoint
  unfolding case_key get put text_eq
  record_case test seed id status ctx cp =
      let key = case_key test seed in
      record {
        cases =
            put key
              (record {
                test = test;
                seed = seed;
                job = id;
                status = status;
                attempt = attempt_of (get key cp.cases);
              })
              cp.cases;
        charged_jobs =
            if mem id ctx.charged_jobs && not (mem id cp.charged_jobs)
            then cp.charged_jobs ++ id ∷ []
            else cp.charged_jobs;
      }

-- `re.fullmatch(r"J-[\w-]+", id)`
pub is_job_id : Text → Bool
unfolding starts_with is_empty
is_job_id id =
    starts_with id (codes "J-")
    && not (is_empty (drop 2 id))
    && all (λ c. is_word c || c == b'-') (drop 2 id)

abbrev pub bill : Option JobCost → BudgetLedger → BudgetLedger
bill none l = l
bill (some j) l = record_job j l

module _ (find : Text → Option JobCost) where
  abbrev pub charge : Text → Context → Context
  charge id ctx = if mem id ctx.charged_jobs then ctx else record {
    ledger = bill (find id) (record_v3 ctx.ledger);
    charged_jobs = id ∷ ctx.charged_jobs;
  }

  -- the loop: the context, and whether all identities are valid
  pub restore : List Text → Context → Context × Bool
  unfolding is_job_id
  restore [] ctx = (ctx, true)
  restore (id ∷ ids) ctx =
      let rest = restore ids (charge id ctx) in if is_job_id id then rest else (ctx, false)

  pub restore_costs : List Text → Checkpoint → Context → Context × Bool
  unfolding restore sorted_texts
  restore_costs known cp ctx = restore (sorted_texts (known ++ cp.charged_jobs)) ctx
