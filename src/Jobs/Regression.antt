-- ===== src/Jobs/Regression.antt =====
-- chipchamp/jobs/regression.py: `RegressionManager.run`, from the records of all its jobs on. The
-- jobs run in a pool of threads before; `signature_of` is the normalised text of a failure, for any
-- such text. A set of tests is a list.
pub mod Counts
use chipchamp.Prelude.{
  ℕ, ◌+◌, Bool, true, false, not, ◌&&◌, ◌||◌, Option, none, some, List, [], ◌∷◌, ◌++◌, ltb, ◌==◌,
  if◌then◌else◌,
}
use chipchamp.Text.{Text, codes, text_eq, any, is_empty}
use chipchamp.Dict.{Dict, get, put}
use chipchamp.Jobs.Record.{
  JobRecord, Status, queued, running, passed, failed, error, timeout, is_passed,
}

pub record Case : Type 0 where
  pub test : Text
  pub seed : ℕ
  pub job : JobRecord

pub record FailureCluster : Type 0 where
  pub signature : Text
  pub count : ℕ
  pub representative : Case
  pub members : List Text
  pub tests : List Text

pub record Flaky : Type 0 where
  pub test : Text
  pub pass_seeds : List ℕ
  pub fail_seeds : List ℕ

pub record RegressionResult : Type 0 where
  pub total : ℕ
  pub passed : ℕ
  pub failed : ℕ
  pub errored : ℕ
  pub cases : List Case
  pub clusters : List FailureCluster
  pub errored_tests : List Case
  pub flaky : List Flaky

-- `rec.status in ("failed", "timeout")`
abbrev pub is_failure : Status → Bool
is_failure failed = true
is_failure timeout = true
is_failure queued = false
is_failure running = false
is_failure passed = false
is_failure error = false

abbrev add_test : Text → List Text → List Text
add_test t ts = if any (λ u. text_eq t u) ts then ts else t ∷ ts

abbrev new_cluster : Text → Case → FailureCluster
new_cluster sig c = record {
  signature = sig;
  count = 1;
  representative = c;
  members = c.job.id ∷ [];
  tests = c.test ∷ [];
}

abbrev joined : Case → FailureCluster → FailureCluster
joined c cl = record cl {
  count = cl.count + 1;
  members = cl.members ++ c.job.id ∷ [];
  tests = add_test c.test cl.tests;
}

-- `clusters[sig]`, made if it is not there
pub add_failure : Text → Case → List FailureCluster → List FailureCluster
unfolding text_eq
add_failure sig c [] = new_cluster sig c ∷ []
add_failure sig c (cl ∷ cls) =
    let rest = add_failure sig c cls in
    if text_eq cl.signature sig then joined c cl ∷ cls else cl ∷ rest

-- `sorted(clusters.values(), key=lambda c: -c.count)`, which keeps the order of equal counts
pub insert_cluster : FailureCluster → List FailureCluster → List FailureCluster
insert_cluster cl [] = cl ∷ []
insert_cluster cl (d ∷ ds) =
    let rest = insert_cluster cl ds in if ltb cl.count d.count then d ∷ rest else cl ∷ d ∷ ds

pub sort_clusters : List FailureCluster → List FailureCluster
unfolding insert_cluster
sort_clusters [] = []
sort_clusters (cl ∷ cls) = insert_cluster cl (sort_clusters cls)

module _ (signature_of : JobRecord → Text) where
  -- one turn of the loop over the jobs
  pub count_case : RegressionResult → Case → RegressionResult
  unfolding add_failure
  count_case r c =
      let s = record r { cases = r.cases ++ c ∷ [] } in
      if is_passed c.job.status
      then record s { passed = s.passed + 1 }
      else if is_failure c.job.status
      then record s {
        failed = s.failed + 1;
        clusters = add_failure (signature_of c.job) c s.clusters;
      }
      else record s { errored = s.errored + 1; errored_tests = s.errored_tests ++ c ∷ [] }

  pub count_cases : RegressionResult → List Case → RegressionResult
  count_cases r [] = r
  count_cases r (c ∷ cs) = count_cases (count_case r c) cs

-- `by_test_seed_status`: a repeated seed keeps its last status
abbrev pub Seeds : Type 0
Seeds = List (ℕ × Status)

pub put_seed : ℕ → Status → Seeds → Seeds
put_seed s st [] = (s, st) ∷ []
put_seed s st ((u, old) ∷ more) =
    let rest = put_seed s st more in if u == s then (u, st) ∷ more else (u, old) ∷ rest

abbrev seeds_of : Option Seeds → Seeds
seeds_of none = []
seeds_of (some s) = s

pub by_test : Dict Seeds → List Case → Dict Seeds
unfolding get put put_seed
by_test d [] = d
by_test d (c ∷ cs) =
    by_test (put c.test (put_seed c.seed c.job.status (seeds_of (get c.test d))) d) cs

pub seeds_where : (Status → Bool) → Seeds → List ℕ
seeds_where p [] = []
seeds_where p ((s, st) ∷ more) = let rest = seeds_where p more in if p st then s ∷ rest else rest

pub flaky_of : Dict Seeds → List Flaky
unfolding seeds_where is_empty
flaky_of [] = []
flaky_of ((t, s) ∷ more) =
    let rest = flaky_of more in
    let flake : Flaky = record {
      test = t;
      pass_seeds = seeds_where (λ st. is_passed st) s;
      fail_seeds = seeds_where (λ st. not (is_passed st)) s;
    } in
    if any (λ e. is_passed e.1) s && any (λ e. is_failure e.1) s then flake ∷ rest else rest

abbrev pub length_of : List Case → ℕ
length_of [] = 0
length_of (c ∷ cs) = 1 + length_of cs

abbrev pub start : List Case → RegressionResult
start cs = record {
  total = length_of cs;
  passed = 0;
  failed = 0;
  errored = 0;
  cases = [];
  clusters = [];
  errored_tests = [];
  flaky = [];
}

pub summarize : (JobRecord → Text) → List Case → RegressionResult
summarize signature_of cs =
    let r = count_cases signature_of (start cs) cs in
    record r { clusters = sort_clusters r.clusters; flaky = flaky_of (by_test [] cs) }
