-- ===== src/Filelist/Examples.antt =====
-- Two file lists that include each other.
use chipchamp.Prelude.{
  ℕ, Bool, Bool-cases, inl, inr, false, true, subst, sym, ◌≡◌, refl, ◌<◌, true, Option, none, some,
  List, [], ◌∷◌, length, if◌then◌else◌,
}
use chipchamp.Text.{Text, codes, text_eq, text_eq_sound, split, join, is_empty, starts_with}
use chipchamp.Policy.Canonical.{normpath, push, push_all, isabs}
use chipchamp.Tools.Paths.{path_join}
use chipchamp.Dict.{update}
use chipchamp.Filelist.{
  FileSet, parse_filelist, parse, parse_file, walk, turn, switch, abspath, dedup, tokens, firsts,
  mem, define, resolve, dirname, add_incdir,
}
use chipchamp.Filelist.Sources.{Fileset, Entries, resolve_sources}
use chipchamp.Filelist.Sources.Distinct.{AreDistinct, resolve_sources-AreDistinct}
use chipchamp.Filelist.Ends.{Finite}

abbrev root_list : Text
root_list = codes "// the core\n+incdir+inc+ \n#-f no\n-f sub/b.f top.v +define+W=8+FAST"

abbrev sub_list : Text
sub_list = codes "-f ../a.f -I ../inc x.v ./x.v -y lib"

abbrev read : Text → Option Text
read p =
    if text_eq p (codes "/w/a.f")
    then some root_list
    else if text_eq p (codes "/w/sub/b.f")
    then some sub_list
    else none

abbrev same : Text → Text
same t = t

abbrev no_match : Text → List Text
no_match t = []

parse_filelist_example :
    parse_filelist (codes "/w") read same no_match 3 (codes "/w/a.f")
    ≡ some (record {
      sources = codes "/w/sub/x.v" ∷ codes "/w/top.v" ∷ [];
      incdirs = codes "/w/inc" ∷ [];
      defines = (codes "W", codes "8") ∷ (codes "FAST", codes "1") ∷ [];
      manifests = codes "/w/a.f" ∷ codes "/w/sub/b.f" ∷ codes "/w/a.f" ∷ [];
    })
unfolding normpath push push_all isabs path_join split join is_empty starts_with parse_filelist
    parse parse_file walk turn switch abspath dedup tokens firsts mem define resolve dirname
    add_incdir update text_eq
parse_filelist_example = refl

abbrev files : List Text
files = codes "/w/a.f" ∷ codes "/w/sub/b.f" ∷ []

-- nothing else is a file
no_third :
    (path raw : Text) (a b : Bool)
    → a ≡ false
    → b ≡ false
    → (if a then some root_list else if b then some sub_list else none) ≡ some raw
    → ⊥
no_third path raw true b e f h = cc
no_third path raw false true e f h = cc
no_third path raw false false e f h = cc

read-Finite : Finite (codes "/w") read same no_match files
unfolding abspath normpath push push_all isabs path_join split join is_empty starts_with mem text_eq
read-Finite path raw h = elim (Bool-cases (text_eq path (codes "/w/a.f"))) [
  | inl e ↦
      subst (λ p. mem (abspath (codes "/w") read same no_match p) files ≡ true)
        (sym (text_eq_sound path (codes "/w/a.f") e)) refl
  | inr e ↦ elim (Bool-cases (text_eq path (codes "/w/sub/b.f"))) [
    | inl f ↦
        subst (λ p. mem (abspath (codes "/w") read same no_match p) files ≡ true)
          (sym (text_eq_sound path (codes "/w/sub/b.f") f)) refl
    | inr f ↦ absurd (
        no_third path raw (text_eq path (codes "/w/a.f")) (text_eq path (codes "/w/sub/b.f")) e f h)
  ]
]

abbrev no_core : Text → Option (List Fileset)
no_core p = none

abbrev no_bender : Text → Option Entries
no_bender p = none

resolve_sources-AreDistinct_example :
    (fs : FileSet) × ((fuel : ℕ)
      → length files < fuel
      → resolve_sources
          (codes "/w")
          read
          same
          no_match
          no_core
          no_bender
          fuel
          (codes "/w")
          (codes "a.f" ∷ codes "a.f" ∷ [])
          []
          (codes "top.v" ∷ [])
          none
          none
        ≡ some fs)
    × AreDistinct (abspath (codes "/w") read same no_match) [] fs.sources
resolve_sources-AreDistinct_example =
    resolve_sources-AreDistinct (codes "/w") read same no_match no_core no_bender files read-Finite
      (codes "/w") (codes "a.f" ∷ codes "a.f" ∷ []) [] (codes "top.v" ∷ []) none none
