-- ===== src/Policy/Gates/Signoff.antt =====
-- chipchamp/policy/gates.py: what the passing of the four physical gates says of the latest run.
use chipchamp.Prelude.{
  ◌≡◌, refl, ◌⊎◌, inl, inr, ℕ, Bool, true, false, not, ◌&&◌, ◌||◌, Option, none, some, [], ◌∷◌,
  arith, ==_iff, ap, if◌then◌else◌,
}
use chipchamp.Prelude.Int.{pos}
use chipchamp.Text.{Text, codes, text_eq_sound, any, all}
use chipchamp.Jobs.Record.{
  JobRecord, Status, passed, failed, Value, boolean, int, float, is_passed, is_zero, non_negative,
  metric, metrics_of,
}
use chipchamp.Policy.Gates.Data.{
  Gate, drc_clean, lvs_clean, timing_met, antenna_clean, Evidence, missing, result, unfinished,
  verdict, jobs_of, last_job,
}
use chipchamp.Policy.Gates.Checks.{finite, status_is, is_failed, physical_of, eval_physical}
use chipchamp.Policy.Gates.{is_ok}

-- the number 0, whole or not
abbrev pub IsZero : Value → Type 0
IsZero v = (v ≡ int (pos 0)) ⊎ (v ≡ float (pos 0))

-- a number from 0 on
abbrev pub IsNotNegative : Value → Type 0
IsNotNegative v = (n : ℕ) × ((v ≡ int (pos n)) ⊎ (v ≡ float (pos n)))

-- a run that passed, or failed in its signoff alone
abbrev pub Counts : JobRecord → Type 0
Counts j =
    (j.status ≡ passed) ⊎ ((j.status ≡ failed) × (j.result.status ≡ some (codes "signoff-fail")))

-- The latest place-and-route run counts, it recorded no violation and no error, and the slacks that
-- it recorded for setup and for hold are not negative.
pub record SignedOff (ev : Evidence) : Type 0 where
  pub job : JobRecord
  pub latest : last_job (jobs_of (codes "pnr") ev) ≡ some job
  pub counts : Counts job
  pub drc : IsZero (metric (codes "drc_violations") (metrics_of job))
  pub lvs : IsZero (metric (codes "lvs_errors") (metrics_of job))
  pub antenna : IsZero (metric (codes "antenna_violations") (metrics_of job))
  pub setup : IsNotNegative (metric (codes "setup_ws_ns") (metrics_of job))
  pub hold : IsNotNegative (metric (codes "hold_ws_ns") (metrics_of job))

zero_lem : (v : Value) → finite v ≡ true → is_zero v ≡ true → IsZero v
zero_lem (int (pos n)) f z = inl (ap (λ k. int (pos k)) ((==_iff n 0).0 z))
zero_lem (float (pos n)) f z = inr (ap (λ k. float (pos k)) ((==_iff n 0).0 z))
zero_lem (boolean b) f z = cc
zero_lem _ f z = cc

not_negative_lem : (v : Value) → finite v ≡ true → non_negative v ≡ true → IsNotNegative v
not_negative_lem (int (pos n)) f z = (n, inl refl)
not_negative_lem (float (pos n)) f z = (n, inr refl)
not_negative_lem (boolean b) f z = cc
not_negative_lem _ f z = cc

status_is_sound : (t : Text) (o : Option Text) → status_is t o ≡ true → o ≡ some t
status_is_sound t none h = cc
status_is_sound t (some s) h = ap some (text_eq_sound s t h)

signed_by :
    (s : Status) (o : Option Text)
    → is_passed s || is_failed s && status_is (codes "signoff-fail") o ≡ true
    → (s ≡ passed) ⊎ ((s ≡ failed) × (o ≡ some (codes "signoff-fail")))
signed_by passed o h = inl refl
signed_by failed o h = inr (refl, status_is_sound (codes "signoff-fail") o h)
signed_by _ o h = cc

parts :
    (g : Gate) (j : JobRecord) (s m c : Bool)
    → is_ok (
        if not s
        then result g (unfinished j) (j.id ∷ [])
        else if m
        then result g missing (j.id ∷ [])
        else result g (verdict c) (j.id ∷ []))
      ≡ true
    → (s ≡ true) × (m ≡ false) × (c ≡ true)
parts g j s m c h = ground arith

-- what one key's tests say
one_key : (f c : Bool) → not f || false ≡ false → c && true ≡ true → (f ≡ true) × (c ≡ true)
one_key f c m k = ground arith

counted :
    (j : JobRecord) (key : Text)
    → any (λ k. not (finite (metric k (metrics_of j)))) (key ∷ []) ≡ false
    → all (λ k. is_zero (metric k (metrics_of j))) (key ∷ []) ≡ true
    → IsZero (metric key (metrics_of j))
counted j key m c =
    let (f, z) = one_key (finite (metric key (metrics_of j))) _ m c in zero_lem _ f z

two_keys :
    (f g c d : Bool)
    → not f || (not g || false) ≡ false
    → c && (d && true) ≡ true
    → ((f ≡ true) × (c ≡ true)) × ((g ≡ true) × (d ≡ true))
two_keys f g c d m k = ground arith

slacks :
    (j : JobRecord) (key other : Text)
    → any (λ k. not (finite (metric k (metrics_of j)))) (key ∷ other ∷ []) ≡ false
    → all (λ k. non_negative (metric k (metrics_of j))) (key ∷ other ∷ []) ≡ true
    → IsNotNegative (metric key (metrics_of j)) × IsNotNegative (metric other (metrics_of j))
slacks j key other m c =
    let ((f, n), (g, o)) =
      two_keys (finite (metric key (metrics_of j))) (finite (metric other (metrics_of j))) _ _ m
        c in
    (not_negative_lem _ f n, not_negative_lem _ g o)

signed_off :
    (ev : Evidence) (o : Option JobRecord)
    → last_job (jobs_of (codes "pnr") ev) ≡ o
    → is_ok (physical_of drc_clean o) ≡ true
    → is_ok (physical_of lvs_clean o) ≡ true
    → is_ok (physical_of antenna_clean o) ≡ true
    → is_ok (physical_of timing_met o) ≡ true
    → SignedOff ev
unfolding physical_of
signed_off ev none e d l a t = cc
signed_off ev (some j) e d l a t =
    let (s, dm, dc) = parts drc_clean j _ _ _ d in
    let (_, lm, lc) = parts lvs_clean j _ _ _ l in
    let (_, am, ac) = parts antenna_clean j _ _ _ a in
    let (_, tm, tc) = parts timing_met j _ _ _ t in
    let (setup, hold) = slacks j (codes "setup_ws_ns") (codes "hold_ws_ns") tm tc in
    record {
      job = j;
      latest = e;
      counts = signed_by j.status j.result.status s;
      drc = counted j (codes "drc_violations") dm dc;
      lvs = counted j (codes "lvs_errors") lm lc;
      antenna = counted j (codes "antenna_violations") am ac;
      setup = setup;
      hold = hold;
    }

pub physical_ok :
    (ev : Evidence)
    → is_ok (eval_physical drc_clean ev) ≡ true
    → is_ok (eval_physical lvs_clean ev) ≡ true
    → is_ok (eval_physical antenna_clean ev) ≡ true
    → is_ok (eval_physical timing_met ev) ≡ true
    → SignedOff ev
unfolding eval_physical
physical_ok ev d l a t = signed_off ev (last_job (jobs_of (codes "pnr") ev)) refl d l a t
