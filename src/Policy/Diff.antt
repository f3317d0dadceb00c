-- ===== src/Policy/Diff.antt =====
-- chipchamp/policy/diff.py: a change set, and what kind of file each path is. `Diff.from_git` runs
-- git and reads files; the model starts from its result.
use chipchamp.Prelude.{
  Bool, true, false, not, ◌&&◌, ◌||◌, List, [], ◌∷◌, ◌≡◌, refl, ◌==◌, if◌then◌else◌,
}
use mathlib.Core.List.{reverse}
use chipchamp.Text.{
  Text, codes, text_eq, starts_with, ends_with, ends_with_any, contains, split, slash, is_empty,
  any,
}
use chipchamp.Fnmatch.{fnmatch}

pub data Status : Type 0 where
  added modified deleted : Status

pub record FileChange : Type 0 where
  pub path : Text
  pub status : Status
  pub old_text : Text
  pub new_text : Text

pub record Diff : Type 0 where
  pub files : List FileChange
  pub declared_nfc : Bool
  pub declared_cdc : Bool
  pub declared_timing : Bool

-- `Path(p).parts` without the root: `pathlib` drops empty components and `.`
abbrev real_parts : List Text → List Text
real_parts [] = []
real_parts (c ∷ cs) =
    let rest = real_parts cs in if is_empty c || text_eq c (codes ".") then rest else c ∷ rest

pub parts : Text → List Text
unfolding split is_empty text_eq
parts p = real_parts (split slash p)

abbrev last_or_empty : List Text → Text
last_or_empty [] = []
last_or_empty (c ∷ []) = c
last_or_empty (c ∷ d ∷ cs) = last_or_empty (d ∷ cs)

-- `Path(p).name`
pub name : Text → Text
unfolding parts
name p = last_or_empty (parts p)

-- what stands before the last dot, read from the end; a name that begins with its only dot, or
-- ends with a dot, has no suffix
abbrev before_dot : Text → Text
before_dot [] = []
before_dot (c ∷ s) = if c == b'.' then s else before_dot s

abbrev or_whole : Text → Text → Text
or_whole whole [] = whole
or_whole whole (c ∷ s) = reverse (c ∷ s)

-- `Path(p).stem`
pub stem : Text → Text
unfolding name ends_with
stem p =
    let n = name p in if ends_with n (codes ".") then n else or_whole n (before_dot (reverse n))

abbrev in_any : Text → List Text → Bool
in_any c [] = false
in_any c (t ∷ ts) = text_eq c t || in_any c ts

module _ (f : FileChange) where
  unfoldable pub is_rtl : Bool
  unfolding ends_with_any contains name
  is_rtl =
      ends_with_any f.path
        (codes ".sv" ∷ codes ".v" ∷ codes ".svh" ∷ codes ".vh" ∷ codes ".vhd" ∷ codes ".vhdl" ∷ [])
      && not (contains f.path (codes "/tb"))
      && not (contains f.path (codes "/test"))
      && not (starts_with (name f.path) (codes "tb_"))

  unfoldable pub is_tb : Bool
  unfolding ends_with_any contains name
  is_tb =
      (contains f.path (codes "/tb/")
        || contains f.path (codes "/test")
        || starts_with (name f.path) (codes "tb_")
        || ends_with_any f.path (codes ".py" ∷ []) && contains f.path (codes "cocotb"))
      && ends_with_any f.path (codes ".sv" ∷ codes ".v" ∷ codes ".svh" ∷ codes ".py" ∷ [])

  unfoldable pub is_doc : Bool
  unfolding ends_with_any contains
  is_doc =
      ends_with_any f.path (codes ".md" ∷ codes ".txt" ∷ codes ".rst" ∷ [])
      || contains f.path (codes "/docs/")

  unfoldable pub is_regmap_source : Bool
  unfolding ends_with_any contains parts stem
  is_regmap_source =
      if ends_with_any f.path (codes ".rdl" ∷ codes ".hjson" ∷ codes ".ipxact" ∷ [])
      then true
      else if ends_with_any f.path (codes ".json" ∷ codes ".yaml" ∷ codes ".yml" ∷ [])
      then any (λ part. in_any part (codes "regs" ∷ codes "regmap" ∷ codes "registers" ∷ []))
          (parts f.path)
        || contains (stem f.path) (codes "reg")
      else false

  unfoldable pub in_globs : List Text → Bool
  in_globs globs = any (λ g. fnmatch f.path g) globs

  unfoldable pub is_build_script : Bool
  unfolding ends_with_any name
  is_build_script =
      ends_with_any f.path
        (codes ".f" ∷ codes ".tcl" ∷ codes ".mk" ∷ codes ".make" ∷ codes ".cmake" ∷ [])
      || in_any (name f.path) (codes "Makefile" ∷ codes "makefile" ∷ [])

abbrev pub change : Text → FileChange
change p = record { path = p; status = modified; old_text = []; new_text = [] }

kinds_example :
    (is_rtl (change (codes "rtl/core.sv")) ≡ true)
    × (is_rtl (change (codes "rtl/tb_core.sv")) ≡ false)
    × (is_tb (change (codes "rtl/tb_core.sv")) ≡ true)
    × (is_regmap_source (change (codes "hw/timer_regs.yaml")) ≡ true)
    × (is_regmap_source (change (codes "hw/.reg")) ≡ false)
    × (is_doc (change (codes "ip/docs/top.v")) ≡ true)
    × (is_build_script (change (codes "sim/Makefile")) ≡ true)
unfolding is_rtl is_tb is_regmap_source is_doc is_build_script
kinds_example = (refl, refl, refl, refl, refl, refl, refl)
