-- ===== src/Jobs/Farm.antt =====
-- chipchamp/jobs/farm.py: the command lines for LSF and SLURM. `on_path` is `shutil.which`, and
-- `words` is `str.split` without an argument.
pub mod Wraps
use chipchamp.Prelude.{Bool, true, false, not, ◌&&◌, List, [], ◌∷◌, ◌++◌, if◌then◌else◌}
use chipchamp.Text.{Text, codes, text_eq, is_empty}

pub record FarmConfig : Type 0 where
  pub kind : Text
  pub queue : Text
  pub resources : Text
  pub extra_args : List Text

pub data Note : Type 0 where
  ran : Text → Note
  not_on_path : Text → Note

abbrev submit_bin : Text → Text
submit_bin kind =
    if text_eq kind (codes "lsf")
    then codes "bsub"
    else if text_eq kind (codes "slurm")
    then codes "srun"
    else []

unfoldable pub lsf_options : FarmConfig → Text → List Text
unfolding is_empty
lsf_options farm job_name =
    (codes "bsub" ∷ codes "-K" ∷ codes "-J" ∷ job_name ∷ [])
    ++ ((if is_empty farm.queue then [] else codes "-q" ∷ farm.queue ∷ [])
        ++ ((if is_empty farm.resources then [] else codes "-R" ∷ farm.resources ∷ [])
            ++ farm.extra_args))

module _ (words : Text → List Text) where
  unfoldable pub slurm_options : FarmConfig → Text → List Text
  unfolding is_empty
  slurm_options farm job_name =
      (codes "srun" ∷ (codes "--job-name=" ++ job_name) ∷ [])
      ++ ((if is_empty farm.queue then [] else (codes "--partition=" ++ farm.queue) ∷ [])
          ++ ((if is_empty farm.resources then [] else words farm.resources) ++ farm.extra_args))

  unfoldable pub wrap_for_farm : List Text → FarmConfig → Text → List Text
  unfolding text_eq lsf_options
  wrap_for_farm argv farm job_name =
      if text_eq farm.kind (codes "lsf")
      then lsf_options farm job_name ++ argv
      else if text_eq farm.kind (codes "slurm")
      then slurm_options farm job_name ++ argv
      else argv

  module _ (on_path : Text → Bool) where
    unfoldable pub scheduler_available : Text → Bool
    unfolding text_eq is_empty
    scheduler_available kind = not (is_empty (submit_bin kind)) && on_path (submit_bin kind)

    unfoldable pub plan_submission : List Text → FarmConfig → Text → Bool → List Text × Note
    plan_submission argv farm job_name dry_run =
        if text_eq farm.kind (codes "local")
        then (argv, ran (codes "local"))
        else if not (scheduler_available farm.kind) && not dry_run
        then (argv, not_on_path farm.kind)
        else (wrap_for_farm argv farm job_name, ran farm.kind)
