-- ===== src/Policy/Engine/Writes.antt =====
-- chipchamp/policy/engine.py: which paths may be read and written.
use chipchamp.Prelude.{
  ◌≡◌, refl, sym, inl, inr, Bool, true, false, not, ◌&&◌, ◌||◌, List, [], ◌∷◌, ◌++◌, Option, none,
  some, arith, ap, ap₂, ◌∙◌, Bool-cases, if◌then◌else◌,
}
use chipchamp.Text.{Text, any}
use chipchamp.Fnmatch.{fnmatch}
use chipchamp.Policy.Acl.{is_allowed, Reason}
use chipchamp.Policy.Canonical.{canonical, isabs, outside}
use chipchamp.Policy.Engine.{
  PolicyEngine, Verdict, ok, outside_workspace, denied, protected_by, generated_by, first_match,
  generated_match, concat_all, can_write, generated_globs, generated_verdict, protected_verdict,
}

any-append {ℓ} :
    {A : Type ℓ} (p : A → Bool) (xs ys : List A) → any p (xs ++ ys) ≡ (any p xs || any p ys)
any-append p [] ys = refl
any-append p (x ∷ xs) ys = ground (arith, any-append p xs ys)

abbrev found : Option Text → Bool
found none = false
found (some g) = true

-- The searches find a glob exactly if one matches.
found-first_match :
    (path : Text) (gs : List Text) → found (first_match path gs) ≡ any (λ g. fnmatch path g) gs
unfolding first_match
found-first_match path [] = refl
found-first_match path (g ∷ gs) = elim (Bool-cases (fnmatch path g)) [
  | inl e ↦ rw e refl
  | inr e ↦ rw e (found-first_match path gs)
]

found-step :
    (o : Option Text) (b : Bool) (more : Option Text)
    → found o ≡ b
    → found (elim o [ some g ↦ some g | none ↦ more ]) ≡ (b || found more)
found-step none b more h = rw (sym h) refl
found-step (some g) b more h = rw (sym h) refl

found-generated_match :
    (path : Text) (entries : List (List Text))
    → found (generated_match path entries) ≡ any (λ g. fnmatch path g) (concat_all entries)
unfolding generated_match
found-generated_match path [] = refl
found-generated_match path (outputs ∷ entries) =
    found-step (first_match path outputs) _ (generated_match path entries)
      (found-first_match path outputs)
    ∙ ap (λ b. any (λ g. fnmatch path g) outputs || b) (found-generated_match path entries)
    ∙ sym (any-append (λ g. fnmatch path g) outputs (concat_all entries))

abbrev pub is_ok : Verdict → Bool
is_ok ok = true
is_ok outside_workspace = false
is_ok (denied r) = false
is_ok (protected_by g) = false
is_ok (generated_by g) = false

is_ok-generated : (o : Option Text) → is_ok (generated_verdict o) ≡ not (found o)
is_ok-generated none = refl
is_ok-generated (some g) = refl

is_ok-protected :
    (o : Option Text) (v : Verdict) → is_ok (protected_verdict o v) ≡ (not (found o) && is_ok v)
is_ok-protected none v = refl
is_ok-protected (some g) v = refl

is_ok-last :
    (allow : Bool) (o : Option Text)
    → is_ok (if allow then ok else generated_verdict o) ≡ (allow || not (found o))
is_ok-last true o = refl
is_ok-last false o = is_ok-generated o

is_ok-guards :
    (away allowed : Bool) (r : Reason) (v : Verdict)
    → is_ok (if away then outside_workspace else if not allowed then denied r else v)
      ≡ (not away && (allowed && is_ok v))
is_ok-guards true allowed r v = refl
is_ok-guards false true r v = refl
is_ok-guards false false r v = refl

-- `can_write` says yes exactly if the path, as it was given, is not absolute, its canonical form
-- stays inside, the access list allows that form, no protected glob matches it, and no glob of the
-- generated outputs does either, unless the writer is one of the generators.
pub can_write-is_ok :
    (engine : PolicyEngine) (raw : Text) (allow_generated : Bool)
    → let path = canonical raw in
      is_ok (can_write engine raw allow_generated) ≡ (
        not (isabs raw || outside path)
        && (is_allowed engine.acl path
            && (not (any (λ g. fnmatch path g) engine.protected_paths)
                && (allow_generated || not (any (λ g. fnmatch path g) (generated_globs engine))))))
unfolding can_write generated_globs
can_write-is_ok engine raw allow_generated =
    let path = canonical raw in
    is_ok-guards (isabs raw || outside path) (is_allowed engine.acl path) _ _
    ∙ ap (λ b. not (isabs raw || outside path) && (is_allowed engine.acl path && b))
        (is_ok-protected (first_match path engine.protected_paths) _
          ∙ ap₂ (λ b c. not b && c) (found-first_match path engine.protected_paths)
              (is_ok-last allow_generated (generated_match path engine.generated)
                ∙ ap (λ b. allow_generated || not b) (found-generated_match path engine.generated)))
