-- ===== src/Tools/Paths/Opened.antt =====
-- chipchamp/tools/paths.py: what `ws_path` opens.
use chipchamp.Prelude.{
  ◌≡◌, refl, sym, ap, ◌∙◌, ◌⊎◌, Bool, true, false, not, ◌||◌, Option, none, some, [], ◌∷◌, ◌++◌,
  false_is_true, if◌then◌else◌, choose, or-false, not-false,
}
use chipchamp.Text.{Text, codes}
use chipchamp.Policy.Canonical.{canonical, isabs, outside}
use chipchamp.Policy.Engine.{
  PolicyEngine, Verdict, ok, outside_workspace, denied, protected_by, generated_by, can_read,
  can_write, default_protected,
}
use chipchamp.Policy.Engine.Writes.{is_ok}
use chipchamp.Policy.Engine.Guarded.{can_write-protected}
use chipchamp.Tools.Paths.{
  Refusal, Outcome, refused, opened, of_verdict, refusal, path_join, below, settle, in_root,
  ws_path,
}

-- what the policy engine says of a name
abbrev pub Allowed : PolicyEngine → Bool → Bool → Text → Type 0
Allowed engine true allow_generated p = is_ok (can_write engine p allow_generated) ≡ true
Allowed engine false allow_generated p = can_read engine p ≡ true

-- the policy file and the files of the waivers
abbrev pub IsProtected : Text → Type 0
IsProtected p =
    (canonical p ≡ codes ".chipchamp/policy.yaml")
    ⊎ ((s : Text) × (canonical p ≡ codes "waivers/" ++ s))

-- A path that was opened: the name that was asked for is relative and stays inside, what it
-- resolves to is the root or below it, and the engine allows both the name and the target.
pub record IsOpened (real : Text → Text) (ws_root : Text) (engine : PolicyEngine) (path : Text)
    (write allow_generated : Bool) (ap target : Text) : Type 0 where
  pub relative : isabs path ≡ false
  pub stays : outside (canonical path) ≡ false
  pub resolved : ap ≡ real (path_join (real ws_root) (canonical path))
  pub in_workspace : in_root (real ws_root) ap ≡ true
  pub named : target ≡ below (real ws_root) ap
  pub name_allowed : Allowed engine write allow_generated (canonical path)
  pub target_allowed : Allowed engine write allow_generated target

of_verdict-none : (v : Verdict) → of_verdict v ≡ none → is_ok v ≡ true
of_verdict-none ok h = refl
of_verdict-none outside_workspace h = cc
of_verdict-none (denied r) h = cc
of_verdict-none (protected_by g) h = cc
of_verdict-none (generated_by g) h = cc

readable : (b : Bool) (r : Refusal) → (if b then none else some r) ≡ none → b ≡ true
readable true r h = refl
readable false r h = cc

refusal-none :
    (engine : PolicyEngine) (write allow_generated : Bool) (p : Text)
    → refusal engine write allow_generated p ≡ none
    → Allowed engine write allow_generated p
unfolding refusal
refusal-none engine true allow_generated p h = of_verdict-none _ h
refusal-none engine false allow_generated p h = readable (can_read engine p) _ h

abbrev pub Means : Outcome → (Text → Text → Type 0) → Type 0
Means (refused r) P = Unit {0}
Means (opened ap target) P = P ap target

settle-Means :
    (first second : Option Refusal) (a t : Text) (P : Text → Text → Type 0)
    → (first ≡ none → second ≡ none → P a t)
    → Means (settle first second a t) P
settle-Means (some r) second a t P h = tt
settle-Means none (some r) a t P h = tt
settle-Means none none a t P h = h refl refl

-- Whatever `ws_path` opens, the name that was asked for is relative and does not leave the root, what
-- it resolves to is the root or below it, and the engine allows both the name and the target.
pub ws_path-IsOpened :
    (real : Text → Text) (ws_root : Text) (engine : PolicyEngine) (path : Text)
    (write allow_generated : Bool)
    → Means
        (ws_path real ws_root engine path write allow_generated)
        (λ a t. IsOpened real ws_root engine path write allow_generated a t)
unfolding ws_path
ws_path-IsOpened real ws_root engine path write allow_generated =
    let P = λ (a t : Text). IsOpened real ws_root engine path write allow_generated a t in
    let root = real ws_root in
    let a = real (path_join root (canonical path)) in
    choose (λ o. Means o P) (isabs path) _ _ (λ e. tt)
      (λ rel.
        choose (λ o. Means o P) (outside (canonical path) || not (in_root root a)) _ _ (λ e. tt)
          (λ e.
            let (s, r) = (or-false (outside (canonical path)) (not (in_root root a))).0 e in
            settle-Means _ _ a (below root a) P (λ f g. record {
              relative = rel;
              stays = s;
              resolved = refl;
              in_workspace = (not-false (in_root root a) _ (λ x. x, λ x. x)).0 r;
              named = refl;
              name_allowed = refusal-none engine write allow_generated _ f;
              target_allowed = refusal-none engine write allow_generated _ g;
            })))

Means-map :
    (o : Outcome) (P Q : Text → Text → Type 0)
    → ((a t : Text) → P a t → Q a t)
    → Means o P
    → Means o Q
Means-map (refused r) P Q f m = tt
Means-map (opened a t) P Q f m = f a t m

-- With the paths that are protected by default, neither the name nor the target of a path that
-- `ws_path` opens for writing is the policy file or a file of the waivers, whatever links there are.
pub ws_path-unprotected :
    (real : Text → Text) (ws_root : Text) (engine : PolicyEngine) (path : Text)
    (allow_generated : Bool)
    → engine.protected_paths ≡ default_protected (codes ".chipchamp" ∷ [])
    → Means
        (ws_path real ws_root engine path true allow_generated)
        (λ a t. ¬ IsProtected (canonical path) × ¬ IsProtected t)
ws_path-unprotected real ws_root engine path allow_generated e =
    let blocked =
      λ (p : Text) (allowed : Allowed engine true allow_generated p) (h : IsProtected p).
        false_is_true (sym (can_write-protected engine p allow_generated e h) ∙ allowed) in
    Means-map (ws_path real ws_root engine path true allow_generated)
      (λ a t. IsOpened real ws_root engine path true allow_generated a t) _
      (λ a t o. (blocked (canonical path) o.name_allowed, blocked t o.target_allowed))
      (ws_path-IsOpened real ws_root engine path true allow_generated)
