-- ===== src/Coverage/Service/Accepted.antt =====
-- chipchamp/coverage/service.py: what a change that the baseline check accepts keeps.
use chipchamp.Prelude.{
  ℕ, ◌+◌, ◌≤◌, ◌≡◌, refl, Bool, true, false, Option, none, some, List, [], ◌∷◌, ◌++◌, arith, leb,
  ltb, Bool-cases, leb→le, ==_iff, and_parts, inl, inr,
}
use chipchamp.Text.{Text, text_eq_sound, is_empty}
use chipchamp.Dict.{Dict, get}
use chipchamp.Coverage.Model.{Bin, CoverageModel, total, by_section}
use chipchamp.Coverage.Service.{
  Change, note, differences, model_changes, rate_or, regressed, baseline_check,
}

-- The same bin, but for its counts and its source.
pub record Same (old new : Bin) : Type 0 where
  pub weight : old.weight ≡ new.weight
  pub section : old.section ≡ new.section
  pub kind : old.kind ≡ new.kind
  pub group : old.group ≡ new.group
  pub point : old.point ≡ new.point
  pub name : old.name ≡ new.name

pub record Kept (current : Dict Bin) (i : Text) (old : Bin) : Type 0 where
  pub new : Bin
  pub found : get i current ≡ some new
  pub same : Same old new

abbrev pub AllKept : Dict Bin → Dict Bin → Type 0
AllKept current [] = Unit
AllKept current ((i, old) ∷ more) = Kept current i old × AllKept current more

nil_parts : (xs ys : List (Text × Change)) → xs ++ ys ≡ [] → (xs ≡ []) × (ys ≡ [])
nil_parts [] ys h = (refl, h)
nil_parts (x ∷ xs) ys h = cc

noted : (b : Bool) (i : Text) (c : Change) → note b i c ≡ [] → b ≡ true
noted true i c h = refl
noted false i c h = cc

differences-Same : (i : Text) (old new : Bin) → differences i old (some new) ≡ [] → Same old new
unfolding differences
differences-Same i old new h =
    let (h5, e6) = nil_parts _ _ h in
    let (h4, e5) = nil_parts _ _ h5 in
    let (h3, e4) = nil_parts _ _ h4 in
    let (h2, e3) = nil_parts _ _ h3 in
    let (e1, e2) = nil_parts _ _ h2 in
    record {
      weight = (==_iff old.weight new.weight).0 (noted _ i _ e1);
      section = text_eq_sound old.section new.section (noted _ i _ e2);
      kind = text_eq_sound old.kind new.kind (noted _ i _ e3);
      group = text_eq_sound old.group new.group (noted _ i _ e4);
      point = text_eq_sound old.point new.point (noted _ i _ e5);
      name = text_eq_sound old.name new.name (noted _ i _ e6);
    }

differences-Kept :
    (current : Dict Bin) (i : Text) (old : Bin) (o : Option Bin)
    → get i current ≡ o
    → differences i old o ≡ []
    → Kept current i old
differences-Kept current i old none e h = unfold differences in cc
differences-Kept current i old (some new) e h = record {
  new = new;
  found = e;
  same = differences-Same i old new h;
}

model_changes-AllKept :
    (current base : Dict Bin) → model_changes current base ≡ [] → AllKept current base
unfolding model_changes
model_changes-AllKept current [] h = tt
model_changes-AllKept current ((i, old) ∷ more) h =
    let (d, rest) = nil_parts _ _ h in
    (differences-Kept current i old (get i current) refl d, model_changes-AllKept current more rest)

-- No rate is more than the tolerance below that of the baseline; a section that is not there has 0.
abbrev pub AllCovered : ℕ → Dict ℕ → Dict ℕ → Type 0
AllCovered tol current [] = Unit
AllCovered tol current ((sec, base) ∷ more) =
    (base ≤ rate_or (get sec current) + tol) × AllCovered tol current more

no_text : (t : Text) (ts : List Text) → t ∷ ts ≡ [] → ⊥
no_text t ts h = cc

regressed-AllCovered :
    (tol : ℕ) (current base : Dict ℕ)
    → regressed tol current base ≡ []
    → AllCovered tol current base
unfolding regressed
regressed-AllCovered tol current [] h = tt
regressed-AllCovered tol current ((sec, base) ∷ more) h =
    elim (Bool-cases (ltb (rate_or (get sec current) + tol) base)) [
      | inl e ↦ absurd (no_text sec _ (rw e at h))
      | inr e ↦ (ground arith, regressed-AllCovered tol current more (rw e at h))
    ]

empty_is_nil {ℓ} : {A : Type ℓ} (xs : List A) → is_empty xs ≡ true → xs ≡ []
unfolding is_empty
empty_is_nil [] h = refl
empty_is_nil (x ∷ xs) h = cc

-- If the check accepts a model against a baseline, then every bin of the baseline is still in the
-- model with its weight, section, kind, group, point and name; and no section of the baseline, nor
-- the total, is more than the tolerance below what it was.
pub baseline_check-AllKept :
    (model baseline : CoverageModel) (tol : ℕ)
    → (baseline_check model baseline tol).ok ≡ true
    → AllKept model.bins baseline.bins
      × AllCovered tol (by_section model) (by_section baseline)
      × (total baseline ≤ total model + tol)
unfolding baseline_check
baseline_check-AllKept model baseline tol h =
    let (first, changes) = and_parts _ (is_empty (model_changes model.bins baseline.bins)) h in
    let (high, lost) =
      and_parts (leb (total baseline) (total model + tol))
        (is_empty (regressed tol (by_section model) (by_section baseline))) first in
    (
      model_changes-AllKept model.bins baseline.bins (empty_is_nil _ changes),
      regressed-AllCovered tol (by_section model) (by_section baseline) (empty_is_nil _ lost),
      leb→le (total baseline) (total model + tol) high,
    )
