-- ===== src/Agent/Tracker.antt =====
-- chipchamp/agent/runstate.py: `VerificationTracker`. A check keeps what the decisions read, not
-- its number of errors; the teachings keep what their texts name. Epochs count up from 0, and the
-- `green_epoch` of -1 is `none`.
pub mod Green
use chipchamp.Prelude.{
  ℕ, ◌+◌, Bool, true, false, not, ◌&&◌, ◌||◌, Option, none, some, List, [], ◌∷◌, ◌++◌, ltb, ◌==◌,
  if◌then◌else◌,
}
use chipchamp.Text.{Text, codes, text_eq, is_empty, all, any}

-- a tool and its scope
abbrev pub Key : Type 0
Key = Text × Text

abbrev pub key_eq : Key → Key → Bool
key_eq k l = text_eq k.0 l.0 && text_eq k.1 l.1

pub record Check : Type 0 where
  pub job : Text
  pub passed : Bool
  pub epoch : ℕ
  pub rank : ℕ
  pub scope : Text
  pub tool : Text

pub data Kind : Type 0 where
  redo gap : Kind

abbrev kind_eq : Kind → Kind → Bool
kind_eq redo redo = true
kind_eq gap gap = true
kind_eq _ _ = false

abbrev pub Taught : Type 0
Taught = Key × (ℕ × Kind)

abbrev taught_eq : Taught → Taught → Bool
taught_eq a b = key_eq a.0 b.0 && (a.1.0 == b.1.0) && kind_eq a.1.1 b.1.1

pub record VerificationTracker : Type 0 where
  pub checks : List (Key × Check)
  pub green_epoch : Option ℕ
  pub green_job : Text
  pub fails_since_green : ℕ
  pub checkpoint_taught : Bool
  pub scope_taught : List Taught

abbrev pub new_tracker : VerificationTracker
new_tracker = record {
  checks = [];
  green_epoch = none;
  green_job = [];
  fails_since_green = 0;
  checkpoint_taught = false;
  scope_taught = [];
}

-- the fields of a tool's result that `observe` reads
pub record CheckResult : Type 0 where
  pub status : Text
  pub sim_status : Text
  pub job : Text

pub data Teaching : Type 0 where
  scope_redo : Check → Teaching
  scope_gap : Check → Teaching

unfoldable pub find_check : Key → List (Key × Check) → Option Check
find_check k [] = none
find_check k ((l, c) ∷ cs) = if key_eq l k then some c else find_check k cs

unfoldable pub put_check : Key → Check → List (Key × Check) → List (Key × Check)
put_check k c [] = (k, c) ∷ []
put_check k c ((l, d) ∷ cs) =
    let rest = put_check k c cs in if key_eq l k then (l, c) ∷ cs else (l, d) ∷ rest

-- the checks that ran on an epoch
unfoldable pub on_epoch : ℕ → List (Key × Check) → List Check
on_epoch e [] = []
on_epoch e ((k, c) ∷ cs) = let rest = on_epoch e cs in if c.epoch == e then c ∷ rest else rest

unfoldable pub current : VerificationTracker → ℕ → List Check
current t e = on_epoch e t.checks

abbrev pub epoch_is : Option ℕ → ℕ → Bool
epoch_is none e = false
epoch_is (some g) e = g == e

unfoldable pub is_green : VerificationTracker → ℕ → Bool
is_green t e = not (is_empty t.green_job) && epoch_is t.green_epoch e

-- `max(cs, key=rank)`: the first of the highest
unfoldable pub strongest_from : Check → List Check → Check
strongest_from best [] = best
strongest_from best (c ∷ cs) = strongest_from (if ltb best.rank c.rank then c else best) cs

abbrev pub strongest : List Check → Option Check
strongest [] = none
strongest (c ∷ cs) = some (strongest_from c cs)

unfoldable pub weaker : ℕ → List Check → List Check
weaker r [] = []
weaker r (c ∷ cs) = let rest = weaker r cs in if c.passed && ltb c.rank r then c ∷ rest else rest

abbrev pub passes : CheckResult → Bool
passes r = text_eq r.status (codes "passed") || text_eq r.sim_status (codes "pass")

abbrev pub fails : CheckResult → Bool
fails r = text_eq r.status (codes "failed") || text_eq r.status (codes "error")

abbrev pub was_taught : Taught → VerificationTracker → Bool
was_taught a t = any (λ b. taught_eq a b) t.scope_taught

-- what a run that passes does: the job of the green checkpoint, if it has one, for `on_green`
abbrev pub checkpoint : VerificationTracker → ℕ → Option Check → VerificationTracker × Option Text
checkpoint t e none = (t, none)
checkpoint t e (some best) =
    let job = if is_empty best.job then t.green_job else best.job in
    (
      record t {
        green_job = job;
        green_epoch = some e;
        fails_since_green = 0;
        checkpoint_taught = false;
      },
      if is_empty best.job then none else some best.job,
    )

unfoldable pub after_pass : VerificationTracker → ℕ → VerificationTracker × Option Text
after_pass t e =
    let cur = current t e in
    if all (λ c. c.passed) cur then checkpoint t e (strongest cur) else (t, none)

abbrev pub gap_of :
    VerificationTracker → Taught → Option Check → VerificationTracker × List Teaching
gap_of t a none = (t, [])
gap_of t a (some w) =
    if was_taught a t
    then (t, [])
    else (record t { scope_taught = a ∷ t.scope_taught }, scope_gap w ∷ [])

unfoldable pub after_fail : VerificationTracker → Key → ℕ → ℕ → VerificationTracker × List Teaching
after_fail t k rank e =
    let red = record t { fails_since_green = t.fails_since_green + 1; green_epoch = none } in
    gap_of red (k, (e, gap)) (strongest (weaker rank (current t e)))

abbrev pub redo_of :
    VerificationTracker → Taught → Option Check → VerificationTracker × List Teaching
redo_of t a none = (t, [])
redo_of t a (some prev) =
    if (prev.epoch == a.1.0) && not (was_taught a t)
    then (record t { scope_taught = a ∷ t.scope_taught }, scope_redo prev ∷ [])
    else (t, [])

-- The tracker afterwards, the teachings, and the job that `on_green` is called with.
abbrev pub Observed : Type 0
Observed = VerificationTracker × (List Teaching × Option Text)

abbrev conclude : Bool → VerificationTracker → List Teaching → Key → ℕ → ℕ → Observed
conclude true t out k rank e = let (u, green) = after_pass t e in (u, (out, green))
conclude false t out k rank e = let (u, more) = after_fail t k rank e in (u, (out ++ more, none))

unfoldable pub observe : VerificationTracker → Text → Key → Text → ℕ → CheckResult → ℕ → Observed
unfolding after_pass after_fail
observe t tool key scope rank result epoch =
    let (u, out) = redo_of t (key, (epoch, redo)) (find_check key t.checks) in
    let check : Check = record {
      job = result.job;
      passed = passes result;
      epoch = epoch;
      rank = rank;
      scope = scope;
      tool = tool;
    } in
    if not (passes result || fails result)
    then (t, ([], none))
    else conclude (passes result) (record u { checks = put_check key check u.checks }) out key rank
        epoch
