-- ===== src/Policy/Engine/Guarded.antt =====
-- chipchamp/policy/engine.py: what `can_read` and `can_write` keep from the agent.
use chipchamp.Prelude.{
  ◌++◌, ◌&&◌, ◌⊎◌, ◌≡◌, refl, sym, Bool-cases, inl, inr, Bool, true, false, not, ◌||◌, List, [],
  ◌∷◌, Option, none, some, arith, and_parts, ◌∙◌, if◌then◌else◌,
}
use mathlib.Core.List.{reverse}
use chipchamp.Text.{any, codes, Text, slash, split, join, forward, backslash, starts_with}
use chipchamp.Policy.Acl.{is_allowed, Reason}
use chipchamp.Policy.Canonical.{canonical, isabs, outside}
use chipchamp.Policy.Canonical.Steps.{walk, AllNames}
use chipchamp.Policy.Canonical.Walk.{Denotes, canonical-Denotes, canonical-isabs}
use chipchamp.Fnmatch.{fnmatch}
use chipchamp.Fnmatch.Stars.{waivers_glob}
use chipchamp.Policy.Engine.{
  default_protected, PolicyEngine, outside_workspace, can_read, can_write, denied, ok,
  protected_verdict, generated_verdict,
}
use chipchamp.Policy.Engine.Writes.{is_ok, can_write-is_ok}

-- The place inside the workspace that a path denotes: the walk along the path ends there without
-- leaving the root, and the canonical form is the path of the place.
pub record Inside (raw : Text) : Type 0 where
  pub place : List Text
  pub arrives : walk [] (split slash (forward raw)) ≡ some place
  pub named : canonical raw ≡ join slash (reverse place)
  pub names : AllNames (reverse place)

Denotes-Inside :
    (raw : Text) (end : Option (List Text))
    → walk [] (split slash (forward raw)) ≡ end
    → Denotes end (canonical raw)
    → outside (canonical raw) ≡ false
    → Inside raw
Denotes-Inside raw none e d h = cc
Denotes-Inside raw (some to) e d h = record { place = to; arrives = e; named = d.1; names = d.2 }

inside : (raw : Text) → isabs (forward raw) ≡ false → outside (canonical raw) ≡ false → Inside raw
inside raw a h =
    Denotes-Inside raw (walk [] (split slash (forward raw))) refl (canonical-Denotes raw a) h

-- A path that `can_read` lets through, however it is written, denotes a place inside the workspace
-- by name: it is relative, also with backslashes, and its walk never leaves the root.
pub can_read-Inside : (engine : PolicyEngine) (raw : Text) → can_read engine raw ≡ true → Inside raw
unfolding can_read
can_read-Inside engine raw h =
    let (away, allowed) = and_parts (not (isabs (canonical raw) || outside (canonical raw))) _ h in
    elim (Bool-cases (isabs (forward raw))) [
      | inl a ↦ absurd (let (c, o) = canonical-isabs raw a in ground arith)
      | inr a ↦ inside raw a (ground arith)
    ]

-- The same for `can_write`, if the path is not absolute once its backslashes are slashes.
pub can_write-Inside :
    (engine : PolicyEngine) (raw : Text) (allow_generated : Bool)
    → isabs (forward raw) ≡ false
    → is_ok (can_write engine raw allow_generated) ≡ true
    → Inside raw
can_write-Inside engine raw allow_generated a h =
    let (here, rest) =
      and_parts (not (isabs raw || outside (canonical raw))) _
        (sym (can_write-is_ok engine raw allow_generated) ∙ h) in
    inside raw a (ground arith)

other_verdicts :
    (allowed allow : Bool) (r : Reason) (p g : Option Text)
    → ((if not allowed
            then denied r
            else protected_verdict p (if allow then ok else generated_verdict g))
          ≡ outside_workspace
        → ⊥)
other_verdicts false allow r p g h = cc
other_verdicts true allow r (some x) g h = cc
other_verdicts true true r none g h = cc
other_verdicts true false r none none h = cc
other_verdicts true false r none (some x) h = cc

backslash-canonical :
    (s : Text)
    → (isabs (canonical (backslash ∷ s)) ≡ true) × (outside (canonical (backslash ∷ s)) ≡ false)
backslash-canonical s = canonical-isabs (backslash ∷ s) (unfold isabs starts_with forward in refl)

-- `can_write` does not see that a path which begins with a backslash is absolute in its canonical
-- form: it never answers that the path is outside. `can_read` refuses each such path.
pub can_write-backslash :
    (engine : PolicyEngine) (s : Text) (allow_generated : Bool)
    → (can_write engine (backslash ∷ s) allow_generated ≡ outside_workspace → ⊥)
      × (can_read engine (backslash ∷ s) ≡ false)
unfolding can_write can_read
can_write-backslash engine s allow_generated =
    let (c, o) = backslash-canonical s in
    (
      rw o (
          unfold isabs starts_with in
          other_verdicts (is_allowed engine.acl (canonical (backslash ∷ s))) allow_generated _ _ _),
      rw c refl,
    )

abbrev shipped_name : Text
shipped_name = codes ".chipchamp"

policy_file : fnmatch (codes ".chipchamp/policy.yaml") (codes ".chipchamp/policy.yaml") ≡ true
unfolding fnmatch
policy_file = refl

-- A path that a protected glob matches is not written.
blocked :
    (engine : PolicyEngine) (raw : Text) (allow_generated : Bool)
    → any (λ g. fnmatch (canonical raw) g) engine.protected_paths ≡ true
    → is_ok (can_write engine raw allow_generated) ≡ false
blocked engine raw allow_generated h =
    can_write-is_ok engine raw allow_generated
    ∙ no_write _ (is_allowed engine.acl (canonical raw)) _ _ h
  where
    no_write : (a b p c : Bool) → p ≡ true → (a && (b && (not p && c))) ≡ false
    no_write a b p c h = ground arith

either : (a b : Bool) → b ≡ true → (a || (b || false)) ≡ true
either a b h = ground arith

-- With the paths that are protected by default, no writer, the generators included, may write the
-- policy file or a file of the waivers, however the path is written.
pub can_write-protected :
    (engine : PolicyEngine) (raw : Text) (allow_generated : Bool)
    → engine.protected_paths ≡ default_protected (shipped_name ∷ [])
    → ((canonical raw ≡ codes ".chipchamp/policy.yaml")
        ⊎ ((s : Text) × (canonical raw ≡ codes "waivers/" ++ s)))
    → is_ok (can_write engine raw allow_generated) ≡ false
can_write-protected engine raw allow_generated e (inl p) =
    blocked engine raw allow_generated (rw (e, p) (rw policy_file refl))
can_write-protected engine raw allow_generated e (inr (s, p)) = blocked engine raw allow_generated (
    rw (e, p)
      (either (fnmatch (codes "waivers/" ++ s) (codes ".chipchamp/policy.yaml")) _
        (waivers_glob s)))
