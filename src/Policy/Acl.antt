-- ===== src/Policy/Acl.antt =====
-- chipchamp/policy/acl.py: which paths a tool may show to the model.
pub mod Rules
use chipchamp.Prelude.{◌≡◌, refl, Bool, true, false, ◌||◌, List, [], ◌∷◌, ◌++◌, if◌then◌else◌}
use chipchamp.Text.{Text, codes, forward, slash, any}
use chipchamp.Fnmatch.{fnmatch}

abbrev pub default_deny : List Text
default_deny =
    codes "**/pdk/**"
    ∷ codes "pdk/**"
    ∷ codes "**/foundry/**"
    ∷ codes "foundry/**"
    ∷ codes "**/*tsmc*/**"
    ∷ codes "**/*gf*/**/*.lib"
    ∷ codes "**/vendor_encrypted/**"
    ∷ codes "**/*.lic"
    ∷ codes "**/*.pdk"
    ∷ codes "**/*.cdl"
    ∷ codes "**/*.gds"
    ∷ codes "**/*.oas"
    ∷ []

pub record ContextAcl : Type 0 where
  pub deny : List Text
  pub allow : List Text
  pub use_defaults : Bool

unfoldable pub deny_globs : ContextAcl → List Text
deny_globs acl = (if acl.use_defaults then default_deny else []) ++ acl.deny

abbrev pub hits : Text → Text → Bool
hits norm g = fnmatch norm g || fnmatch (slash ∷ norm) g

unfoldable pub is_allowed : ContextAcl → Text → Bool
is_allowed acl path =
    let norm = forward path in
    if any (λ g. fnmatch norm g) acl.allow
    then true
    else if any (λ g. hits norm g) (deny_globs acl)
    then false
    else true

-- the text of `reason`: "allowed", or the deny rule that the path matches
pub data Reason : Type 0 where
  allowed : Reason
  matches_deny : Text → Reason

first_hit : Text → List Text → Reason
first_hit norm [] = allowed
first_hit norm (g ∷ gs) = if hits norm g then matches_deny g else first_hit norm gs

pub reason : ContextAcl → Text → Reason
unfolding first_hit
reason acl path = first_hit (forward path) (deny_globs acl)
