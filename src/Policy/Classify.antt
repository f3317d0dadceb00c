-- ===== src/Policy/Classify.antt =====
-- chipchamp/policy/classify.py: every verification class that a change belongs to.
pub mod Clocks
pub mod Order
pub mod Intents
mod Examples
use chipchamp.Prelude.{
  ℕ, Bool, true, false, not, ◌&&◌, ◌||◌, List, [], ◌∷◌, ◌++◌, ◌≡◌, refl, ◌==◌, ltb, if◌then◌else◌,
}
use chipchamp.Text.{
  Text, codes, text_eq, ends_with_any, contains, split, slash, lower, forward, any,
}
use chipchamp.Policy.Diff.{
  FileChange, Diff, is_rtl, is_tb, is_doc, is_regmap_source, is_build_script, in_globs, change,
}
use chipchamp.Policy.Classify.Clocks.{touches_domains}

-- The names of `TASK_CLASSES`.
pub data TaskClass : Type 0 where
  docs tb_only build_scripts regmap rtl_nfc rtl_functional riscv timing cdc physical : TaskClass
  efpga_fabulous fpga : TaskClass

-- `_RANK`, from the least to the most demanding
unfoldable pub rank : TaskClass → ℕ
rank docs = 0
rank tb_only = 1
rank build_scripts = 2
rank regmap = 3
rank rtl_nfc = 4
rank rtl_functional = 5
rank riscv = 6
rank timing = 7
rank cdc = 8
rank physical = 9
rank efpga_fabulous = 10
rank fpga = 11

-- No two classes share a rank.
abbrev pub same : TaskClass → TaskClass → Bool
same a b = rank a == rank b

abbrev pub has : TaskClass → List TaskClass → Bool
has c [] = false
has c (d ∷ ds) = same c d || has c ds

abbrev has_text : Text → List Text → Bool
has_text t ts = any (λ u. text_eq t u) ts

abbrev last_is : Text → List Text → Bool
last_is t [] = false
last_is t (c ∷ []) = text_eq c t
last_is t (c ∷ d ∷ cs) = last_is t (d ∷ cs)

-- one turn of the loop over the files: what it appends to `candidates`
unfoldable pub candidate : List Text → FileChange → List TaskClass
unfolding ends_with_any lower forward
candidate globs f =
    let parts = split slash (forward f.path) in
    if ends_with_any f.path (codes ".sdc" ∷ codes ".pdn.tcl" ∷ [])
      || contains (lower f.path) (codes "floorplan")
    then physical ∷ []
    else if ends_with_any f.path (codes ".xdc" ∷ codes ".pcf" ∷ codes ".lpf" ∷ [])
    then fpga ∷ []
    else if has_text (codes "user_design") parts
        || last_is (codes "fabric.csv") parts
        || has_text (codes "Tile") parts && ends_with_any f.path (codes ".csv" ∷ codes ".list" ∷ [])
    then efpga_fabulous ∷ []
    else if in_globs f globs
    then regmap ∷ []
    else if is_doc f
    then docs ∷ []
    else if is_regmap_source f
    then regmap ∷ []
    else if is_build_script f
    then build_scripts ∷ []
    else if is_tb f
    then tb_only ∷ []
    else if is_rtl f
    then rtl_functional ∷ []
    else []

unfoldable pub candidates : List Text → List FileChange → List TaskClass
candidates globs [] = []
candidates globs (f ∷ fs) = candidate globs f ++ candidates globs fs

unfoldable pub has_rtl : List Text → List FileChange → Bool
has_rtl globs fs = any (λ f. is_rtl f && not (in_globs f globs)) fs

abbrev pub without : TaskClass → List TaskClass → List TaskClass
without c [] = []
without c (d ∷ ds) = let rest = without c ds in if same c d then rest else d ∷ rest

abbrev pub when : Bool → TaskClass → List TaskClass
when b c = if b then c ∷ [] else []

-- the block under `if has_rtl`: what the declared intents add, and the downgrade
unfoldable pub intents : Diff → List TaskClass → List TaskClass
intents diff cs =
    let cs' =
      cs
      ++ when (diff.declared_cdc || touches_domains diff.files) cdc
      ++ when diff.declared_timing timing in
    if diff.declared_nfc && not (has cdc cs') && not (has timing cs')
    then without rtl_functional cs' ++ rtl_nfc ∷ []
    else cs'

-- `sorted(set(cs), key=rank)`
pub insert_class : TaskClass → List TaskClass → List TaskClass
insert_class c [] = c ∷ []
insert_class c (d ∷ ds) =
    let rest = insert_class c ds in
    if ltb (rank c) (rank d) then c ∷ d ∷ ds else if same c d then d ∷ ds else d ∷ rest

unfoldable pub sorted_set : List TaskClass → List TaskClass
unfolding insert_class
sorted_set [] = []
sorted_set (c ∷ cs) = insert_class c (sorted_set cs)

abbrev pub or_docs : List TaskClass → List TaskClass
or_docs [] = docs ∷ []
or_docs (c ∷ cs) = c ∷ cs

-- the candidates before they are sorted
unfoldable pub found : Diff → List Text → Bool → List TaskClass
found diff globs riscv_core =
    let cs = candidates globs diff.files in
    if has_rtl globs diff.files then intents diff (cs ++ when riscv_core riscv) else cs

unfoldable pub classify_all : Diff → List Text → Bool → List TaskClass
classify_all diff globs riscv_core = sorted_set (or_docs (found diff globs riscv_core))

abbrev pub last_class : List TaskClass → TaskClass
last_class [] = docs
last_class (c ∷ []) = c
last_class (c ∷ d ∷ cs) = last_class (d ∷ cs)

-- `classify_all(...)[-1]`
pub classify : Diff → List Text → Bool → TaskClass
classify diff globs riscv_core = last_class (classify_all diff globs riscv_core)
