-- ===== src/Policy/Acl/Rules.antt =====
-- A path that is refused is named a rule that it matches; rules only ever deny more.
use chipchamp.Prelude.{◌≡◌, refl, ◌⊎◌, inl, inr, true, false, List, [], ◌∷◌, arith, Bool-cases}
use chipchamp.Text.{Text, forward, any}
use chipchamp.Policy.Acl.{
  ContextAcl, deny_globs, hits, is_allowed, reason, first_hit, Reason, allowed, matches_deny,
}

abbrev pub In : Text → List Text → Type 0
In g [] = ⊥
In g (h ∷ hs) = (g ≡ h) ⊎ In g hs

-- A rule of the list that the path matches.
abbrev pub Blames : Text → List Text → Reason → Type 0
Blames norm gs allowed = ⊥
Blames norm gs (matches_deny g) = In g gs × (hits norm g ≡ true)

widen : (norm h : Text) (gs : List Text) (r : Reason) → Blames norm gs r → Blames norm (h ∷ gs) r
widen norm h gs allowed b = b
widen norm h gs (matches_deny g) b = (inr b.0, b.1)

first_hit-Blames :
    (norm : Text) (gs : List Text)
    → any (λ g. hits norm g) gs ≡ true
    → Blames norm gs (first_hit norm gs)
unfolding first_hit
first_hit-Blames norm [] h = cc
first_hit-Blames norm (g ∷ gs) h = elim (Bool-cases (hits norm g)) [
  | inl e ↦ rw e (inl refl, e)
  | inr e ↦ rw e (widen norm g gs (first_hit norm gs) (first_hit-Blames norm gs (rw e at h)))
]

denied-any :
    (acl : ContextAcl) (path : Text)
    → is_allowed acl path ≡ false
    → any (λ g. hits (forward path) g) (deny_globs acl) ≡ true
unfolding is_allowed
denied-any acl path h = ground arith

-- Whenever a path is not allowed, the reason that the tools show names one of the deny rules in
-- force, and the path, with forward slashes, matches that rule.
pub reason-Blames :
    (acl : ContextAcl) (path : Text)
    → is_allowed acl path ≡ false
    → Blames (forward path) (deny_globs acl) (reason acl path)
unfolding reason
reason-Blames acl path h = first_hit-Blames (forward path) (deny_globs acl) (denied-any acl path h)
