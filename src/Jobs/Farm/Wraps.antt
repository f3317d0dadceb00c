-- ===== src/Jobs/Farm/Wraps.antt =====
-- chipchamp/jobs/farm.py: a wrapped command still runs what was asked for.
use chipchamp.Prelude.{Bool, true, false, not, ◌&&◌, ◌≡◌, refl, List, [], ◌++◌, if◌then◌else◌}
use chipchamp.Text.{Text, codes, text_eq}
use chipchamp.Jobs.Farm.{
  FarmConfig, Note, lsf_options, slurm_options, wrap_for_farm, scheduler_available, plan_submission,
}

-- a command line that ends with another one
pub record EndsWith (argv whole : List Text) : Type 0 where
  pub options : List Text
  pub joined : whole ≡ options ++ argv

either :
    (argv : List Text) (b : Bool) (xs ys : List Text)
    → EndsWith argv xs
    → EndsWith argv ys
    → EndsWith argv (if b then xs else ys)
either argv true xs ys p q = p
either argv false xs ys p q = q

chosen :
    (argv : List Text) (b : Bool) (x y : List Text × Note)
    → EndsWith argv x.0
    → EndsWith argv y.0
    → EndsWith argv (if b then x else y).0
chosen argv true x y p q = p
chosen argv false x y p q = q

bare : (argv : List Text) → EndsWith argv argv
bare argv = record { options = []; joined = refl }

wrap_for_farm-EndsWith :
    (words : Text → List Text) (argv : List Text) (farm : FarmConfig) (job_name : Text)
    → EndsWith argv (wrap_for_farm words argv farm job_name)
unfolding wrap_for_farm
wrap_for_farm-EndsWith words argv farm job_name =
    either argv (text_eq farm.kind (codes "lsf")) _ _
      (record { options = lsf_options farm job_name; joined = refl })
      (either argv (text_eq farm.kind (codes "slurm")) _ _
        (record { options = slurm_options words farm job_name; joined = refl }) (bare argv))

-- Whatever the farm, and whether its scheduler is there or not, the command that is run is the one
-- that was asked for behind the options of the scheduler, with nothing lost from it.
pub plan_submission-EndsWith :
    (words : Text → List Text) (on_path : Text → Bool) (argv : List Text) (farm : FarmConfig)
    (job_name : Text) (dry_run : Bool)
    → EndsWith argv (plan_submission words on_path argv farm job_name dry_run).0
unfolding plan_submission
plan_submission-EndsWith words on_path argv farm job_name dry_run =
    chosen argv (text_eq farm.kind (codes "local")) _ _ (bare argv) (
      chosen argv (not (scheduler_available words on_path farm.kind) && not dry_run) _ _ (bare argv)
        (wrap_for_farm-EndsWith words argv farm job_name))
