-- ===== src/Filelist.antt =====
-- chipchamp/filelist.py: `parse_filelist` and what it calls. The file system is three parameters: the
-- working directory `cwd`, `read` for the text of a file that exists, and `glob`; `expand` is
-- `os.path.expandvars`. The set of the files seen is passed along and returned.
pub mod Ends
pub mod Sources
mod Examples
use chipchamp.Prelude.{
  ℕ, zero, suc, Bool, true, false, not, ◌||◌, ◌&&◌, Option, none, some, List, [], ◌∷◌, ◌++◌, drop,
  ◌==◌, if◌then◌else◌,
}
use chipchamp.Text.{Text, codes, text_eq, starts_with, split, slash, is_empty, any, take_while}
use chipchamp.Lines.{strip_left}
use chipchamp.Regex.{is_space}
use chipchamp.Text.{cons_first}
use chipchamp.Dict.{Dict, put, update}
use chipchamp.Policy.Canonical.{isabs, normpath}
use chipchamp.Tools.Paths.{path_join}

pub record FileSet : Type 0 where
  pub sources : List Text
  pub incdirs : List Text
  pub defines : Dict Text
  pub manifests : List Text

pub mem : Text → List Text → Bool
unfolding text_eq
mem t ts = any (λ u. text_eq t u) ts

-- the texts whose keys are new, in order
pub firsts : (Text → Text) → List Text → List Text → List Text
unfolding mem
firsts key seen [] = []
firsts key seen (t ∷ ts) =
    let rest = firsts key (key t ∷ seen) ts in if mem (key t) seen then rest else t ∷ rest

-- `os.path.dirname`
abbrev up_to_slash : Text → Text
up_to_slash [] = []
up_to_slash (c ∷ s) =
    let rest = c ∷ up_to_slash s in if c == slash || any (λ d. d == slash) s then rest else []

abbrev without_slashes : Text → Text
without_slashes [] = []
without_slashes (c ∷ s) =
    let rest = without_slashes s in if is_empty rest && c == slash then [] else c ∷ rest

pub dirname : Text → Text
unfolding is_empty
dirname p =
    let head = without_slashes (up_to_slash p) in if is_empty head then up_to_slash p else head

-- `_resolve`
pub resolve : Text → Text → Text
unfolding isabs path_join
resolve base p = if isabs p then p else normpath (path_join base p)

-- The tokens: what stands before `//`, in the lines that do not begin with `#`.
abbrev cut : Text → Text
cut [] = []
cut (c ∷ s) = let rest = c ∷ cut s in if starts_with (c ∷ s) (codes "//") then [] else rest

abbrev goes_on : Text → Bool
goes_on [] = false
goes_on (c ∷ s) = not (is_space c)

-- `s.split()`
abbrev words : Text → List Text
words [] = []
words (c ∷ s) =
    let rest = words s in
    if is_space c then rest else if goes_on s then cons_first c rest else (c ∷ []) ∷ rest

abbrev words_of : List Text → List Text
words_of [] = []
words_of (l ∷ ls) =
    let rest = words_of ls in
    if starts_with (strip_left (cut l)) (codes "#") then rest else words (cut l) ++ rest

pub tokens : Text → List Text
unfolding starts_with split
tokens raw = words_of (split 10 raw)

-- `d.split("=", 1)`, or the value "1"
abbrev after_equals : Text → Text
after_equals [] = []
after_equals (c ∷ s) = let rest = after_equals s in if c == b'=' then s else rest

pub define : Text → FileSet → FileSet
unfolding put take_while is_empty
define d fs =
    if any (λ c. c == b'=') d
    then record fs {
      defines = put (take_while (λ c. not (c == b'=')) d) (after_equals d) fs.defines;
    }
    else if is_empty d
    then fs
    else record fs { defines = put d (codes "1") fs.defines }

abbrev define_all : List Text → FileSet → FileSet
define_all [] fs = fs
define_all (d ∷ ds) fs = define_all ds (define d fs)

pub add_incdir : Text → Text → FileSet → FileSet
unfolding is_empty
add_incdir base d fs =
    if is_empty d then fs else record fs { incdirs = fs.incdirs ++ resolve base d ∷ [] }

abbrev add_incdirs : Text → List Text → FileSet → FileSet
add_incdirs base [] fs = fs
add_incdirs base (d ∷ ds) fs = add_incdirs base ds (add_incdir base d fs)

-- what the switch before a token asks for
pub data Pending : Type 0 where
  nothing include incdir skipped : Pending

abbrev pub merge : FileSet → FileSet → FileSet
merge fs child = record {
  sources = fs.sources ++ child.sources;
  incdirs = fs.incdirs ++ child.incdirs;
  defines = update fs.defines child.defines;
  manifests = fs.manifests ++ child.manifests;
}

-- the file set and the files seen
abbrev pub Parsed : Type 0
Parsed = FileSet × List Text

abbrev pub bind {ℓ κ} : {A : Type ℓ} {B : Type κ} → Option A → (A → Option B) → Option B
bind none k = none
bind (some a) k = k a

abbrev pub include_child : FileSet → Option Parsed → Option (Pending × Parsed)
include_child fs none = none
include_child fs (some (child, seen)) = some (nothing, (merge fs child, seen))

abbrev pub or_itself : Text → List Text → List Text
or_itself t [] = t ∷ []
or_itself t (m ∷ ms) = m ∷ ms

module _ (cwd : Text) (read : Text → Option Text) (expand : Text → Text)
    (glob : Text → List Text) where
  -- `os.path.abspath`
  pub abspath : Text → Text
  unfolding path_join
  abspath p = normpath (path_join cwd p)

  pub dedup : FileSet → FileSet
  unfolding firsts abspath
  dedup fs = record fs {
    sources = firsts abspath [] fs.sources;
    incdirs = firsts (λ d. d) [] fs.incdirs;
  }

  -- the branches of a token that stands for itself, expanded
  pub switch : Text → Text → FileSet → Pending × FileSet
  unfolding text_eq starts_with split define add_incdir is_empty resolve
  switch base tok fs =
      if text_eq tok (codes "-f") || text_eq tok (codes "-F") || text_eq tok (codes "-file")
      then (include, fs)
      else if starts_with tok (codes "+incdir+")
      then (nothing, add_incdirs base (split b'+' (drop 8 tok)) fs)
      else if starts_with tok (codes "-I")
      then if text_eq tok (codes "-I")
        then (incdir, fs)
        else (nothing, add_incdir base (drop 2 tok) fs)
      else if starts_with tok (codes "+define+")
      then (nothing, define_all (split b'+' (drop 8 tok)) fs)
      else if starts_with tok (codes "-D")
      then (nothing, define (drop 2 tok) fs)
      else if starts_with tok (codes "-y") || text_eq tok (codes "-v")
      then (skipped, fs)
      else if starts_with tok (codes "-") || starts_with tok (codes "+")
      then (nothing, fs)
      else (
        nothing,
        record fs {
          sources = fs.sources ++ or_itself (resolve base tok) (glob (resolve base tok));
        },
      )

  module _ (child : List Text → Text → Option Parsed) (base : Text) where
    -- one token: `child` parses a file that is included
    pub turn : Pending → FileSet → List Text → Text → Option (Pending × Parsed)
    unfolding switch add_incdir resolve
    turn nothing fs seen tok =
        let (next, out) = switch base (expand tok) fs in some (next, (out, seen))
    turn include fs seen tok = include_child fs (child seen (resolve base (expand tok)))
    turn incdir fs seen tok = some (nothing, (add_incdir base tok fs, seen))
    turn skipped fs seen tok = some (nothing, (fs, seen))

    pub walk : Pending → FileSet → List Text → List Text → Option Parsed
    unfolding turn
    walk pending fs seen [] = some (dedup fs, seen)
    walk pending fs seen (tok ∷ toks) =
        bind (turn pending fs seen tok) (λ o. walk o.0 o.1.0 o.1.1 toks)

  abbrev pub named : Text → FileSet
  named ap = record { sources = []; incdirs = []; defines = []; manifests = ap ∷ [] }

  -- a file that was not seen, by its text
  pub parse_file :
      (List Text → Text → Option Parsed) → List Text → Text → Option Text → Option Parsed
  unfolding walk abspath dirname tokens
  parse_file child seen path none = some (named (abspath path), seen)
  parse_file child seen path (some raw) =
      walk child (dirname path) nothing (named (abspath path)) (abspath path ∷ seen) (tokens raw)

  -- `parse_filelist` with the files seen, and fuel for the depth of the includes
  pub parse : ℕ → List Text → Text → Option Parsed
  unfolding parse_file abspath mem
  parse zero seen path = none
  parse (suc n) seen path =
      if mem (abspath path) seen
      then some (named (abspath path), seen)
      else parse_file (parse n) seen path (read path)

  pub parse_filelist : ℕ → Text → Option FileSet
  unfolding parse
  parse_filelist fuel path = bind (parse fuel [] path) (λ o. some o.0)
