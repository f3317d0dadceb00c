-- ===== src/Policy/Canonical.antt =====
-- chipchamp/policy/engine.py: `canonical`, over `os.path.isabs` and `os.path.normpath` of Python's
-- library on POSIX.
pub mod Steps
pub mod Walk
mod Examples
use chipchamp.Prelude.{
  ℕ, ◌≡◌, refl, Bool, true, false, not, ◌&&◌, ◌||◌, List, [], ◌∷◌, ◌++◌, ◌==◌, if◌then◌else◌,
}
use chipchamp.Text.{Text, codes, text_eq, starts_with, split, join, slash, forward, is_empty}
use mathlib.Core.List.{reverse}

abbrev pub dot : Text
dot = codes "."

abbrev pub dotdot : Text
dotdot = codes ".."

unfoldable pub isabs : Text → Bool
unfolding starts_with
isabs p = starts_with p (slash ∷ [])

abbrev pub skipped : Text → Bool
skipped c = is_empty c || text_eq c dot

abbrev top_is_dotdot : List Text → Bool
top_is_dotdot [] = false
top_is_dotdot (t ∷ ts) = text_eq t dotdot

abbrev pop : List Text → List Text
pop [] = []
pop (t ∷ ts) = ts

-- one turn of the loop over the components; `new_comps` is held last component first
unfoldable pub push : Bool → List Text → Text → List Text
unfolding is_empty text_eq
push rooted comps c =
    if skipped c
    then comps
    else if not (text_eq c dotdot) || not rooted && is_empty comps || top_is_dotdot comps
    then c ∷ comps
    else pop comps

unfoldable pub push_all : Bool → List Text → List Text → List Text
push_all rooted comps [] = comps
push_all rooted comps (c ∷ cs) = push_all rooted (push rooted comps c) cs

-- POSIX keeps two leading slashes, and makes one of three or more.
abbrev root_of : Text → Text
root_of p =
    if starts_with p (codes "//") && not (starts_with p (codes "///"))
    then codes "//"
    else if isabs p
    then codes "/"
    else []

abbrev or_dot : Text → Text
or_dot p = if is_empty p then dot else p

unfoldable pub normpath : Text → Text
normpath p = or_dot (root_of p ++ join slash (reverse (push_all (isabs p) [] (split slash p))))

-- behind `str(path or "").replace("\\", "/")`
pub canonical_of : Text → Text
canonical_of p =
    if is_empty p
    then p
    else if isabs p
    then normpath p
    else let q = normpath p in if text_eq q dot then [] else q

unfoldable pub canonical : Text → Text
unfolding canonical_of normpath forward isabs push push_all split join
canonical path = canonical_of (forward path)

-- `path == ".." or path.startswith("../")`, of a canonical path
unfoldable pub outside : Text → Bool
unfolding text_eq starts_with
outside p = text_eq p dotdot || starts_with p (codes "../")

canonical_example :
    (canonical (codes "./waivers/x") ≡ codes "waivers/x")
    × (canonical (codes "rtl/../.chipchamp//policy.yaml") ≡ codes ".chipchamp/policy.yaml")
    × (canonical (codes "a\\..\\../b") ≡ codes "../b")
    × (canonical (codes "///etc/../x/") ≡ codes "/x")
    × (canonical (codes "a/..") ≡ [])
unfolding canonical
canonical_example = (refl, refl, refl, refl, refl)
