-- ===== src/Policy/Gates/Sims.antt =====
-- chipchamp/policy/gates.py: `_sim_identity`, `_latest_sims` and the gates on simulations. The
-- files' real paths belong to the file system: `realpath` is a parameter.
use chipchamp.Prelude.{
  ℕ, Bool, true, false, ◌&&◌, ◌||◌, not, Option, none, some, List, [], ◌∷◌, map, ◌==◌, take,
  if◌then◌else◌,
}
use mathlib.Core.List.{reverse}
use chipchamp.Text.{Text, codes, text_eq, contains, split, slash, lower, is_empty, any, all}
use chipchamp.Dict.{get}
use chipchamp.Jobs.Record.{JobRecord, is_passed}
use chipchamp.Policy.Gates.Data.{
  Evidence, ExpectedSim, GateResult, smoke_sim, affected_regress, pass, fail, missing, jobs_of,
  result,
}

-- The two shapes of tuple that `_sim_identity` returns.
pub data Identity : Type 0 where
  named : (target test : Text) (seed : Option ℕ) (config : Text) → Identity
  by_path : (path : Text) (seed : Option ℕ) → Identity

abbrev pub seed_eq : Option ℕ → Option ℕ → Bool
seed_eq none none = true
seed_eq (some a) (some b) = a == b
seed_eq _ _ = false

unfoldable pub identity_eq : Identity → Identity → Bool
unfolding text_eq
identity_eq (named t n s c) (named t' n' s' c') =
    text_eq t t' && text_eq n n' && seed_eq s s' && text_eq c c'
identity_eq (by_path p s) (by_path p' s') = text_eq p p' && seed_eq s s'
identity_eq _ _ = false

-- `os.path.basename`
abbrev last_text : List Text → Text
last_text [] = []
last_text (t ∷ []) = t
last_text (t ∷ u ∷ ts) = last_text (u ∷ ts)

abbrev looks_like_test : Text → Bool
looks_like_test f =
    contains (lower (last_text (split slash f))) (codes "tb") || contains (lower f) (codes "test")

abbrev first_test : List Text → Option Text
first_test [] = none
first_test (f ∷ fs) = if looks_like_test f then some f else first_test fs

abbrev text_or : Option Text → Text → Text
text_or none t = t
text_or (some s) t = if is_empty s then t else s

module _ (realpath : Text → Text) where
  pub sim_identity : JobRecord → Identity
  unfolding text_eq contains split lower is_empty get
  sim_identity j =
      if not (is_empty j.test_name)
      then named j.target_name j.test_name j.seed j.test_config_hash
      else elim (first_test (reverse j.input_files)) [
        | some f ↦ by_path (realpath f) j.seed
        | none ↦
            by_path
              (text_or (get (codes "waves") j.artifacts)
                (if is_empty j.input_files then j.id else last_text j.input_files))
              j.seed
      ]

  -- `by[_sim_identity(j)] = j`
  unfoldable pub record_sim : JobRecord → List (Identity × JobRecord) → List (Identity × JobRecord)
  record_sim j [] = (sim_identity j, j) ∷ []
  record_sim j ((i, k) ∷ by) =
      if identity_eq i (sim_identity j) then (i, j) ∷ by else (i, k) ∷ record_sim j by

  unfoldable pub record_sims :
      List (Identity × JobRecord) → List JobRecord → List (Identity × JobRecord)
  record_sims by [] = by
  record_sims by (j ∷ js) = record_sims (record_sim j by) js

  unfoldable pub latest_sims : Evidence → List JobRecord
  latest_sims ev = map (λ e. e.1) (record_sims [] (jobs_of (codes "sim") ev))

  abbrev pub runs : ExpectedSim → JobRecord → Bool
  runs r j = text_eq j.test_name r.test && seed_eq j.seed r.seed && text_eq j.target_name r.target

  abbrev pub ids : List JobRecord → List Text
  ids js = map (λ j. j.id) js

  abbrev first_passed : List JobRecord → Option JobRecord
  first_passed [] = none
  first_passed (j ∷ js) = if is_passed j.status then some j else first_passed js

  unfoldable pub eval_smoke_sim : Evidence → GateResult
  eval_smoke_sim ev =
      let latest = latest_sims ev in
      elim (first_passed latest) [
        | some j ↦ result smoke_sim pass (j.id ∷ [])
        | none ↦ result smoke_sim (if is_empty latest then missing else fail) []
      ]

  unfoldable pub eval_affected_regress : Evidence → GateResult
  eval_affected_regress ev =
      let latest = latest_sims ev in
      if any (λ r. not (any (λ j. runs r j) latest)) ev.expected_sims
      then result affected_regress missing []
      else if not (is_empty latest) && all (λ j. is_passed j.status) latest
      then result affected_regress pass (ids (take 3 latest))
      else result affected_regress (if is_empty latest then missing else fail) []
