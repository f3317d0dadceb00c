-- ===== src/Policy/Classify/Intents.antt =====
-- Which classes the declared intents add to a change, and when they take one away.
use chipchamp.Prelude.{
  ◌≡◌, refl, ap, ap₂, ◌∙◌, Bool, true, false, not, ◌&&◌, ◌||◌, List, [], ◌∷◌, ◌++◌, arith,
  if◌then◌else◌, Bool-cases, inl, inr,
}
use chipchamp.Text.{Text}
use chipchamp.Policy.Diff.{FileChange, Diff}
use chipchamp.Policy.Classify.Clocks.{touches_domains}
use chipchamp.Policy.Classify.Order.{has-sorted_set}
use chipchamp.Policy.Classify.{
  TaskClass, docs, rtl_nfc, rtl_functional, riscv, timing, cdc, rank, same, has, without, when,
  candidate, candidates, has_rtl, intents, or_docs, found, classify_all,
}

or_false : (b : Bool) → b || false ≡ b
or_false b = ground arith

has-append : (c : TaskClass) (xs ys : List TaskClass) → has c (xs ++ ys) ≡ (has c xs || has c ys)
has-append c [] ys = refl
has-append c (x ∷ xs) ys = ground (arith, has-append c xs ys)

has-without :
    (c d : TaskClass) (xs : List TaskClass) → has c (without d xs) ≡ (not (same c d) && has c xs)
has-without c d [] = ground arith
has-without c d (x ∷ xs) = ground (arith, has-without c d xs)

-- The classes that no file gives by itself.
abbrev declared : TaskClass → Bool
declared rtl_nfc = true
declared riscv = true
declared timing = true
declared cdc = true
declared _ = false

candidate-declared :
    (c : TaskClass) (globs : List Text) (f : FileChange)
    → declared c ≡ true
    → has c (candidate globs f) ≡ false
unfolding candidate rank
candidate-declared rtl_nfc globs f h = ground arith
candidate-declared riscv globs f h = ground arith
candidate-declared timing globs f h = ground arith
candidate-declared cdc globs f h = ground arith
candidate-declared _ globs f h = cc

candidates-declared :
    (c : TaskClass) (globs : List Text) (fs : List FileChange)
    → declared c ≡ true
    → has c (candidates globs fs) ≡ false
unfolding candidates
candidates-declared c globs [] h = refl
candidates-declared c globs (f ∷ fs) h =
    has-append c (candidate globs f) (candidates globs fs)
    ∙ ap₂ ◌||◌ (candidate-declared c globs f h) (candidates-declared c globs fs h)

has-when : (c d : TaskClass) (b : Bool) → has c (when b d) ≡ (b && same c d)
has-when c d b = ground arith

abbrev widened : List TaskClass → Bool → Bool → List TaskClass
widened xs moves timed = xs ++ when moves cdc ++ when timed timing

has-widened :
    (c : TaskClass) (xs : List TaskClass) (moves timed : Bool)
    → has c (widened xs moves timed) ≡ (has c xs || moves && same c cdc || timed && same c timing)
has-widened c xs moves timed =
    has-append c (xs ++ when moves cdc) (when timed timing)
    ∙ ap₂ ◌||◌ (has-append c xs (when moves cdc) ∙ ap (λ b. has c xs || b) (has-when c cdc moves))
        (has-when c timing timed)

-- the block under `if has_rtl`, over what the intents come to
abbrev narrowed : Bool → List TaskClass → List TaskClass
narrowed nfc cs =
    if nfc && not (has cdc cs) && not (has timing cs)
    then without rtl_functional cs ++ rtl_nfc ∷ []
    else cs

has-downgraded :
    (c : TaskClass) (cs : List TaskClass)
    → has c (without rtl_functional cs ++ rtl_nfc ∷ [])
      ≡ (not (same c rtl_functional) && has c cs || same c rtl_nfc)
has-downgraded c cs =
    has-append c (without rtl_functional cs) (rtl_nfc ∷ [])
    ∙ ap₂ ◌||◌ (has-without c rtl_functional cs) (or_false (same c rtl_nfc))

has-narrowed :
    (c : TaskClass) (nfc : Bool) (cs : List TaskClass)
    → has c (narrowed nfc cs) ≡ (
        if nfc && not (has cdc cs) && not (has timing cs)
        then not (same c rtl_functional) && has c cs || same c rtl_nfc
        else has c cs)
has-narrowed c nfc cs = elim (Bool-cases (nfc && not (has cdc cs) && not (has timing cs))) [
  | inl e ↦ rw e (has-downgraded c cs)
  | inr e ↦ rw e refl
]

-- what the files give by themselves
abbrev base : List Text → Bool → Diff → List TaskClass
base globs riscv_core diff = candidates globs diff.files ++ when riscv_core riscv

has-base :
    (c : TaskClass) (globs : List Text) (riscv_core : Bool) (diff : Diff)
    → has c (base globs riscv_core diff)
      ≡ (has c (candidates globs diff.files) || riscv_core && same c riscv)
has-base c globs riscv_core diff =
    has-append c (candidates globs diff.files) (when riscv_core riscv)
    ∙ ap (λ b. has c (candidates globs diff.files) || b) (has-when c riscv riscv_core)

has-or_docs :
    (c : TaskClass) (cs : List TaskClass) → same c docs ≡ false → has c (or_docs cs) ≡ has c cs
has-or_docs c [] h = ground arith
has-or_docs c (d ∷ cs) h = refl

has-classify_all :
    (c : TaskClass) (diff : Diff) (globs : List Text) (riscv_core : Bool)
    → same c docs ≡ false
    → has c (classify_all diff globs riscv_core) ≡ has c (found diff globs riscv_core)
unfolding classify_all
has-classify_all c diff globs riscv_core h =
    has-sorted_set c (or_docs (found diff globs riscv_core))
    ∙ has-or_docs c (found diff globs riscv_core) h

-- How the class `c` comes to be among the classes of a change.
module _ (diff : Diff) (globs : List Text) (riscv_core : Bool) where
  abbrev pub moves : Bool
  moves = diff.declared_cdc || touches_domains diff.files

  abbrev pub lists : TaskClass → Bool
  lists c = has c (candidates globs diff.files)

  has-found :
      (c : TaskClass)
      → has c (found diff globs riscv_core) ≡ (
          if has_rtl globs diff.files
          then has c (
              narrowed diff.declared_nfc
                (widened (base globs riscv_core diff) moves diff.declared_timing))
          else lists c)
  unfolding found intents
  has-found c = elim (Bool-cases (has_rtl globs diff.files)) [
    | inl e ↦ rw e refl
    | inr e ↦ rw e refl
  ]

  -- The same, with the memberships that it asks of the files alone.
  has-classes :
      (c : TaskClass)
      → same c docs ≡ false
      → has c (classify_all diff globs riscv_core) ≡ (
          if has_rtl globs diff.files
          then (let x =
                lists c
                || riscv_core && same c riscv
                || moves && same c cdc
                || diff.declared_timing && same c timing in
              if diff.declared_nfc && not moves && not diff.declared_timing
              then not (same c rtl_functional) && x || same c rtl_nfc
              else x)
          else lists c)
  unfolding rank
  has-classes c h = ground (
    arith,
    has-classify_all c diff globs riscv_core h,
    has-found c,
    has-narrowed c diff.declared_nfc
        (widened (base globs riscv_core diff) moves diff.declared_timing),
    has-widened c (base globs riscv_core diff) moves diff.declared_timing,
    has-widened cdc (base globs riscv_core diff) moves diff.declared_timing,
    has-widened timing (base globs riscv_core diff) moves diff.declared_timing,
    has-base c globs riscv_core diff,
    has-base cdc globs riscv_core diff,
    has-base timing globs riscv_core diff,
    candidates-declared cdc globs diff.files refl,
    candidates-declared timing globs diff.files refl,
  )

  -- A change has the class "cdc" exactly if it has RTL and declares a crossing or touches a module
  -- of two clocks, "timing" exactly if it has RTL and declares timing, and "riscv" exactly if it
  -- has RTL and the workspace is a RISC-V core. "rtl_nfc" is there exactly if it has RTL, declares
  -- no functional change and is neither of the first two; and "rtl_functional" exactly if a file
  -- gives it and "rtl_nfc" does not displace it.
  pub classify_all-intents :
      let cs = classify_all diff globs riscv_core in
      let rtl = has_rtl globs diff.files in
      let nfc = diff.declared_nfc && not moves && not diff.declared_timing in
      (has cdc cs ≡ (rtl && moves))
      × (has timing cs ≡ (rtl && diff.declared_timing))
      × (has riscv cs ≡ (rtl && riscv_core))
      × (has rtl_nfc cs ≡ (rtl && nfc))
      × (has rtl_functional cs ≡ (lists rtl_functional && not (rtl && nfc)))
  unfolding rank
  classify_all-intents = (
    ground (arith, has-classes cdc refl, candidates-declared cdc globs diff.files refl),
    ground (arith, has-classes timing refl, candidates-declared timing globs diff.files refl),
    ground (arith, has-classes riscv refl, candidates-declared riscv globs diff.files refl),
    ground (arith, has-classes rtl_nfc refl, candidates-declared rtl_nfc globs diff.files refl),
    ground (arith, has-classes rtl_functional refl),
  )
