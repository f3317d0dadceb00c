-- ===== src/Agent/Tracker/Green.antt =====
-- chipchamp/agent/runstate.py: what it means that the tracker calls the tree green.
use chipchamp.Prelude.{
  ℕ, ◌≡◌, refl, true, false, not, ◌&&◌, Option, none, some, List, [], ◌∷◌, ◌==◌, arith, Bool-cases,
  inl, inr, and_parts,
}
use chipchamp.Text.{Text, all, is_empty}
use mathlib.Core.Bool.{false≢true}
use chipchamp.Agent.Tracker.{
  gap, Taught, gap_of, redo_of, redo, was_taught, find_check, fails, weaker, Key, key_eq, Check,
  VerificationTracker, new_tracker, CheckResult, put_check, on_epoch, current, epoch_is, is_green,
  after_pass, after_fail, observe, passes, checkpoint, strongest,
}

-- Every check that ran on the green epoch passed.
abbrev AllGreen : Option ℕ → List (Key × Check) → Type 0
AllGreen g [] = Unit
AllGreen g ((k, c) ∷ cs) = (epoch_is g c.epoch ≡ true → c.passed ≡ true) × AllGreen g cs

put-AllGreen :
    (g : Option ℕ) (k : Key) (c : Check) (cs : List (Key × Check))
    → (epoch_is g c.epoch ≡ true → c.passed ≡ true)
    → AllGreen g cs
    → AllGreen g (put_check k c cs)
unfolding put_check
put-AllGreen g k c [] p h = (p, tt)
put-AllGreen g k c ((l, d) ∷ cs) p h = elim (Bool-cases (key_eq l k)) [
  | inl e ↦ rw e (p, h.1)
  | inr e ↦ rw e (h.0, put-AllGreen g k c cs p h.1)
]

all-AllGreen :
    (e : ℕ) (cs : List (Key × Check))
    → all (λ c. c.passed) (on_epoch e cs) ≡ true
    → AllGreen (some e) cs
unfolding on_epoch
all-AllGreen e [] h = tt
all-AllGreen e ((k, c) ∷ cs) h = elim (Bool-cases (c.epoch == e)) [
  | inl s ↦ let (p, rest) = and_parts c.passed _ (rw s at h) in (λ g. p, all-AllGreen e cs rest)
  | inr s ↦ (λ g. absurd (apart e c.epoch g s), all-AllGreen e cs (rw s at h))
]
  where
    apart : (a b : ℕ) → (a == b) ≡ true → (b == a) ≡ false → ⊥
    apart a b g s = ground arith

none-AllGreen : (cs : List (Key × Check)) → AllGreen none cs
none-AllGreen [] = tt
none-AllGreen ((k, c) ∷ cs) = (λ h. absurd (false≢true h), none-AllGreen cs)

AllGreen-all :
    (e : ℕ) (cs : List (Key × Check)) (g : Option ℕ)
    → epoch_is g e ≡ true
    → AllGreen g cs
    → all (λ c. c.passed) (on_epoch e cs) ≡ true
unfolding on_epoch
AllGreen-all e [] g s h = refl
AllGreen-all e ((k, c) ∷ cs) g s h = elim (Bool-cases (c.epoch == e)) [
  | inl q ↦ rw q (rw (h.0 (here g c.epoch e s q)) (AllGreen-all e cs g s h.1))
  | inr q ↦ rw q (AllGreen-all e cs g s h.1)
]
  where
    here : (o : Option ℕ) (a b : ℕ) → epoch_is o b ≡ true → (a == b) ≡ true → epoch_is o a ≡ true
    here none a b t q = cc
    here (some n) a b t q = ground arith

Kept : VerificationTracker → Type 0
Kept t = AllGreen t.green_epoch t.checks

checkpoint-Kept :
    (t : VerificationTracker) (e : ℕ) (o : Option Check)
    → all (λ c. c.passed) (on_epoch e t.checks) ≡ true
    → Kept t
    → Kept (checkpoint t e o).0
unfolding Kept
checkpoint-Kept t e none a h = h
checkpoint-Kept t e (some best) a h = all-AllGreen e t.checks a

after_pass-Kept : (t : VerificationTracker) (e : ℕ) → Kept t → Kept (after_pass t e).0
unfolding after_pass current
after_pass-Kept t e h = elim (Bool-cases (all (λ c. c.passed) (on_epoch e t.checks))) [
  | inl a ↦ rw a (checkpoint-Kept t e (strongest (on_epoch e t.checks)) a h)
  | inr a ↦ rw a h
]

gap_of-Kept :
    (t : VerificationTracker) (a : Taught) (o : Option Check) → Kept t → Kept (gap_of t a o).0
unfolding Kept
gap_of-Kept t a none h = h
gap_of-Kept t a (some w) h = elim (Bool-cases (was_taught a t)) [ inl e ↦ rw e h | inr e ↦ rw e h ]

redo_of-Kept :
    (t : VerificationTracker) (a : Taught) (o : Option Check) → Kept t → Kept (redo_of t a o).0
unfolding Kept
redo_of-Kept t a none h = h
redo_of-Kept t a (some prev) h = elim (Bool-cases ((prev.epoch == a.1.0) && not (was_taught a t))) [
  | inl e ↦ rw e h
  | inr e ↦ rw e h
]

red-Kept : (t : VerificationTracker) → t.green_epoch ≡ none → Kept t
unfolding Kept
red-Kept t h = rw h (none-AllGreen t.checks)

after_fail-Kept : (t : VerificationTracker) (k : Key) (r e : ℕ) → Kept (after_fail t k r e).0
unfolding after_fail
after_fail-Kept t k r e =
    gap_of-Kept _ (k, (e, gap)) (strongest (weaker r (current t e))) (red-Kept _ refl)

put-Kept :
    (t : VerificationTracker) (k : Key) (c : Check)
    → c.passed ≡ true
    → Kept t
    → Kept (record t { checks = put_check k c t.checks })
unfolding Kept
put-Kept t k c p h = put-AllGreen t.green_epoch k c t.checks (λ g. p) h

observe-Kept :
    (t : VerificationTracker) (tool : Text) (k : Key) (scope : Text) (rank : ℕ) (r : CheckResult)
    (e : ℕ)
    → Kept t
    → Kept (observe t tool k scope rank r e).0
unfolding observe
observe-Kept t tool k scope rank r e h =
    let kept = redo_of-Kept t (k, (e, redo)) (find_check k t.checks) h in
    elim (Bool-cases (passes r)) [
      | inl p ↦ rw p (after_pass-Kept _ e (put-Kept _ k _ refl kept))
      | inr p ↦ rw p (elim (Bool-cases (fails r)) [
        | inl f ↦ rw f (after_fail-Kept _ k rank e)
        | inr f ↦ rw f h
      ])
    ]

-- one check that the loop reports
pub record Observation : Type 0 where
  pub tool : Text
  pub key : Key
  pub scope : Text
  pub rank : ℕ
  pub result : CheckResult
  pub epoch : ℕ

unfoldable pub observe_all : VerificationTracker → List Observation → VerificationTracker
observe_all t [] = t
observe_all t (o ∷ os) = observe_all (observe t o.tool o.key o.scope o.rank o.result o.epoch).0 os

observe_all-Kept :
    (t : VerificationTracker) (os : List Observation) → Kept t → Kept (observe_all t os)
unfolding observe_all
observe_all-Kept t [] h = h
observe_all-Kept t (o ∷ os) h =
    observe_all-Kept (observe t o.tool o.key o.scope o.rank o.result o.epoch).0 os
      (observe-Kept t o.tool o.key o.scope o.rank o.result o.epoch h)

green_all :
    (t : VerificationTracker) (e : ℕ)
    → Kept t
    → is_green t e ≡ true
    → all (λ c. c.passed) (current t e) ≡ true
unfolding Kept is_green current
green_all t e k h =
    AllGreen-all e t.checks t.green_epoch (and_parts (not (is_empty t.green_job)) _ h).1 k

-- Whatever checks were reported, in whatever order and on whatever epochs: if the tracker calls
-- the tree of an epoch green, then every check on record for that epoch passed.
pub is_green-all :
    (os : List Observation) (e : ℕ)
    → is_green (observe_all new_tracker os) e ≡ true
    → all (λ c. c.passed) (current (observe_all new_tracker os) e) ≡ true
is_green-all os e h =
    green_all (observe_all new_tracker os) e
      (observe_all-Kept new_tracker os (red-Kept new_tracker refl)) h
