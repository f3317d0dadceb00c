-- ===== src/Filelist/Sources.antt =====
-- chipchamp/filelist.py: `parse_fusesoc_core`, `parse_bender_manifest` and `resolve_sources`, over what
-- YAML reads from the two manifests: nothing if the file is not there or is not YAML.
pub mod Distinct
use chipchamp.Prelude.{ℕ, Option, none, some, List, [], ◌∷◌, ◌++◌, map, if◌then◌else◌, Bool}
use chipchamp.Text.{Text, codes, sorted_texts}
use chipchamp.Dict.{put, update}
use chipchamp.Tools.Paths.{path_join}
use chipchamp.Filelist.{FileSet, abspath, dedup, resolve, dirname, named, parse_filelist}

-- an entry of a fileset: its name, and whether it is marked `is_include_file`
pub data CoreFile : Type 0 where
  file : Text → Bool → CoreFile
  no_file : CoreFile

pub data Fileset : Type 0 where
  files : List CoreFile → Fileset
  no_dict : Fileset

pub add_file : Text → FileSet → CoreFile → FileSet
add_file base fs no_file = fs
add_file base fs (file name is_include) =
    let resolved = resolve base name in
    if is_include
    then record fs { incdirs = fs.incdirs ++ dirname resolved ∷ [] }
    else record fs { sources = fs.sources ++ resolved ∷ [] }

abbrev add_files : Text → FileSet → List CoreFile → FileSet
add_files base fs [] = fs
add_files base fs (f ∷ more) = add_files base (add_file base fs f) more

abbrev add_filesets : Text → FileSet → List Fileset → FileSet
add_filesets base fs [] = fs
add_filesets base fs (no_dict ∷ more) = add_filesets base fs more
add_filesets base fs (files l ∷ more) = add_filesets base (add_files base fs l) more

-- an entry of Bender's sources; a definition without a value is `none`
mutual
  pub data Entry : Type 0 where
    path : Text → Entry
    group : List Text → List (Text × Option Text) → Entries → Entry
    other : Entry

  pub data Entries : Type 0 where
    no_more : Entries
    entry : Entry → Entries → Entries

abbrev value_or_one : Option Text → Text
value_or_one none = codes "1"
value_or_one (some v) = v

abbrev set_defines : FileSet → List (Text × Option Text) → FileSet
set_defines fs [] = fs
set_defines fs ((k, v) ∷ more) =
    set_defines (record fs { defines = put k (value_or_one v) fs.defines }) more

mutual
  pub add_entry : Text → FileSet → Entry → FileSet
  add_entry base fs (path p) = record fs { sources = fs.sources ++ resolve base p ∷ [] }
  add_entry base fs (group dirs defines inner) =
      add_entries base
        (set_defines (record fs { incdirs = fs.incdirs ++ map (λ d. resolve base d) dirs }) defines)
        inner
  add_entry base fs other = fs

  pub add_entries : Text → FileSet → Entries → FileSet
  add_entries base fs no_more = fs
  add_entries base fs (entry e es) = add_entries base (add_entry base fs e) es

abbrev pub take_in : FileSet → FileSet → FileSet
take_in fs child = record fs {
  manifests = fs.manifests ++ child.manifests;
  sources = fs.sources ++ child.sources;
  incdirs = fs.incdirs ++ child.incdirs;
}

abbrev pub with_defines : FileSet → FileSet → FileSet
with_defines fs child = record fs { defines = update fs.defines child.defines }

abbrev pub empty : FileSet
empty = record { sources = []; incdirs = []; defines = []; manifests = [] }

module _ (cwd : Text) (read : Text → Option Text) (expand : Text → Text)
    (glob : Text → List Text) where
  abbrev abs : Text → Text
  abs p = abspath cwd read expand glob p

  abbrev unique : FileSet → FileSet
  unique fs = dedup cwd read expand glob fs

  module _ (load_core : Text → Option (List Fileset)) (load_bender : Text → Option Entries) where
    pub parse_fusesoc_core : Text → FileSet
    parse_fusesoc_core p = elim (load_core p) [
      | none ↦ named cwd read expand glob (abs p)
      | some sets ↦ unique (add_filesets (dirname p) (named cwd read expand glob (abs p)) sets)
    ]

    pub parse_bender_manifest : Text → FileSet
    parse_bender_manifest p = elim (load_bender p) [
      | none ↦ named cwd read expand glob (abs p)
      | some es ↦ unique (add_entries (dirname p) (named cwd read expand glob (abs p)) es)
    ]

    -- the file lists, with fuel for their includes
    pub add_filelists : ℕ → Text → FileSet → List Text → Option FileSet
    add_filelists fuel root fs [] = some fs
    add_filelists fuel root fs (l ∷ ls) =
        elim (parse_filelist cwd read expand glob fuel (path_join root l)) [
          | none ↦ none
          | some child ↦ add_filelists fuel root (with_defines (take_in fs child) child) ls
        ]

    abbrev and_core : Text → FileSet → Option Text → FileSet
    and_core root fs none = fs
    and_core root fs (some c) = take_in fs (parse_fusesoc_core (path_join root c))

    abbrev and_bender : Text → FileSet → Option Text → FileSet
    and_bender root fs none = fs
    and_bender root fs (some b) =
        let child = parse_bender_manifest (path_join root b) in
        with_defines (take_in fs child) child

    -- a glob answers no path twice, so `sorted_texts` is `sorted` here
    abbrev add_globs : Text → FileSet → List Text → FileSet
    add_globs root fs [] = fs
    add_globs root fs (g ∷ gs) =
        add_globs root
          (record fs { sources = fs.sources ++ sorted_texts (glob (path_join root g)) }) gs

    abbrev add_sources : Text → FileSet → List Text → FileSet
    add_sources root fs ss = record fs { sources = fs.sources ++ map (λ s. path_join root s) ss }

    -- what stands behind the file lists
    abbrev pub finish : Text → List Text → List Text → Option Text → Option Text → FileSet → FileSet
    finish root globs sources core bender fs = unique (
        add_sources root (add_globs root (and_bender root (and_core root fs core) bender) globs)
          sources)

    pub resolve_sources :
        ℕ → Text → List Text → List Text → List Text → Option Text → Option Text → Option FileSet
    resolve_sources fuel root filelists globs sources core bender =
        elim (add_filelists fuel root empty filelists) [
          | none ↦ none
          | some fs ↦ some (finish root globs sources core bender fs)
        ]
