-- ===== src/Agent/Examples.antt =====
-- A lint that passes, then a simulation that fails, then one that passes after an edit.
use chipchamp.Agent.Router.{
  RouterConfig, rank, worse, less_effective, score, demerit, profile, default_profile, sort_refs,
  insert_ref, keep,
}
use chipchamp.Agent.Retry.{Failure, milliseconds, glitch_400, code_in, backoff}
use chipchamp.Agent.Retry.Waits.{Asks, backoff-within}
use chipchamp.Prelude.{
  ℕ, min, ◌≡◌, ◌≤◌, ◌+◌, ◌*◌, ◌⊎◌, arith, none, some, refl, false, true, List, [], ◌∷◌,
}
use chipchamp.Text.{Text, codes, text_eq, is_empty, all}
use chipchamp.Agent.Tracker.{
  new_tracker, is_green, current, observe, find_check, put_check, on_epoch, strongest_from, weaker,
  after_pass, after_fail,
}
use chipchamp.Agent.Tracker.Green.{Observation, observe_all, is_green-all}
use chipchamp.Agent.Runs.{new_ledger}
use chipchamp.Agent.Runs.Files.{
  Edit, write, delete, change, apply_all, Agrees, fate_of, untouched, apply_all-fate_of,
}

abbrev lint_ok : Observation
lint_ok = record {
  tool = codes "lint.run";
  key = (codes "lint.run", codes "all");
  scope = codes "all";
  rank = 1;
  result = record { status = codes "passed"; sim_status = []; job = codes "J-1" };
  epoch = 1;
}

abbrev sim_fails : Observation
sim_fails = record lint_ok {
  key = (codes "sim.run", codes "smoke");
  rank = 2;
  result = record { status = codes "failed"; sim_status = []; job = codes "J-2" };
}

abbrev sim_ok : Observation
sim_ok = record sim_fails {
  result = record { status = codes "passed"; sim_status = codes "pass"; job = codes "J-3" };
  epoch = 2;
}

abbrev reports : List Observation
reports = lint_ok ∷ sim_fails ∷ sim_ok ∷ []

is_green-all_example : all (λ c. c.passed) (current (observe_all new_tracker reports) 2) ≡ true
unfolding is_green observe_all observe after_pass after_fail find_check put_check on_epoch current
    strongest_from weaker is_empty text_eq
is_green-all_example = is_green-all reports 2 refl

abbrev top : Text
top = codes "rtl/top.v"

abbrev edits : List Edit
edits = write top ∷ change ∷ delete top ∷ write (codes "a.v") ∷ write top ∷ []

apply_all-fate_of_example : Agrees top (apply_all new_ledger edits) (fate_of top untouched edits)
unfolding text_eq
apply_all-fate_of_example = apply_all-fate_of top edits refl

-- The service says 429, and asks for half a minute.
abbrev limited : Failure
limited = record {
  fault = record {
    timed_out = false;
    transport = false;
    type_name = codes "RateLimitError";
    attributes = some 429 ∷ [];
    message = codes "HTTP 429";
    header = milliseconds 30000;
  };
  cause = none;
}

backoff-within_example :
    ((ms : ℕ) × Asks limited ms × (backoff limited 0 1500 7 ≡ 2000 * min 60000 ms))
    ⊎ (((ms : ℕ) → Asks limited ms → ⊥)
        × (1500 * (0 + 1) * 2000 ≤ backoff limited 0 1500 7)
        × (backoff limited 0 1500 7 ≤ 1500 * (0 + 1) * 3000))
backoff-within_example = backoff-within limited 0 1500 7 (omega arith)

-- The code in a text stands behind a word of its own.
code_in_example :
    (code_in false (codes "error code: 529") ≡ some 529)
    × (code_in false (codes "xhttp 429, http 4290, http503") ≡ some 503)
    × (glitch_400 (codes "expected json format") ≡ true)
unfolding code_in glitch_400
code_in_example = (refl, refl, refl)

abbrev router : RouterConfig
router = record {
  pool = codes "a" ∷ codes "openai:o1" ∷ codes "b" ∷ [];
  chains = (codes "planner", codes "b" ∷ codes "x" ∷ []) ∷ [];
}

rank_example :
    (rank router [] (codes "debugger") ≡ codes "openai:o1" ∷ codes "a" ∷ codes "b" ∷ [])
    × (rank router [] (codes "planner") ≡ codes "b" ∷ codes "a" ∷ codes "openai:o1" ∷ [])
unfolding rank worse less_effective score demerit profile default_profile sort_refs insert_ref keep
    text_eq
rank_example = (refl, refl)
