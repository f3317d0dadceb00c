-- ===== src/Jobs/Examples.antt =====
-- Three jobs: one that passed, one that failed and one that did not run.
use chipchamp.Jobs.Farm.{FarmConfig, wrap_for_farm}
use chipchamp.Prelude.{refl, ◌+◌, ◌≡◌, some, none, List, [], ◌∷◌}
use chipchamp.Text.{Text, codes}
use chipchamp.Jobs.Record.{JobRecord, Status, passed, failed, error}
use chipchamp.Jobs.Regression.{Case, summarize}
use chipchamp.Jobs.Regression.Counts.{clustered, summarize-counts}

abbrev job : Text → Status → JobRecord
job id status = record {
  id = id;
  kind = codes "sim";
  status = status;
  summary = codes "mismatch";
  start_ts = 1;
  input_files = [];
  test_name = codes "smoke";
  target_name = codes "unit";
  test_config_hash = [];
  seed = some 1;
  artifacts = [];
  result = record { diagnostics = some []; status = none; metrics = none };
}

abbrev cases : List Case
cases =
    record { test = codes "smoke"; seed = 1; job = job (codes "J-1") passed }
    ∷ record { test = codes "smoke"; seed = 2; job = job (codes "J-2") failed }
    ∷ record { test = codes "long"; seed = 1; job = job (codes "J-3") error }
    ∷ []

summarize-counts_example :
    let r = summarize (λ j. j.summary) cases in
    (r.total ≡ r.passed + r.failed + r.errored) × (clustered r.clusters ≡ r.failed)
summarize-counts_example = summarize-counts (λ j. j.summary) cases

abbrev farm : FarmConfig
farm = record {
  kind = codes "lsf";
  queue = codes "short";
  resources = [];
  extra_args = codes "-x" ∷ [];
}

wrap_for_farm_example :
    wrap_for_farm (λ s. s ∷ []) (codes "make" ∷ []) farm (codes "j")
    ≡ codes "bsub"
      ∷ codes "-K"
      ∷ codes "-J"
      ∷ codes "j"
      ∷ codes "-q"
      ∷ codes "short"
      ∷ codes "-x"
      ∷ codes "make"
      ∷ []
unfolding wrap_for_farm
wrap_for_farm_example = refl
