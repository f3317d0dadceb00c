-- ===== src/Policy/Classify/Order.antt =====
-- The classes of a change come in strictly ascending rank, and the last is the one displayed.
use chipchamp.Prelude.{
  ℕ, ◌≤◌, ◌<◌, ◌≡◌, refl, sym, ap, ◌∙◌, if◌then◌else◌, ◌==◌, Bool, true, ◌||◌, List, [], ◌∷◌, arith,
  ltb, Bool-cases, inl, inr, ==_iff, ltb→lt,
}
use chipchamp.Text.{Text}
use chipchamp.Policy.Diff.{Diff}
use chipchamp.Policy.Classify.{
  TaskClass, docs, tb_only, build_scripts, regmap, rtl_nfc, rtl_functional, riscv, timing, cdc,
  physical, efpga_fabulous, fpga, rank, same, has, insert_class, sorted_set, or_docs, found,
  classify_all, last_class, classify,
}

abbrev Above : ℕ → List TaskClass → Type 0
Above n [] = Unit
Above n (d ∷ ds) = n < rank d

pub or_true : (b : Bool) → b || true ≡ true
or_true b = ground arith

-- Each rank is above the one before it.
abbrev pub Ascending : List TaskClass → Type 0
Ascending [] = Unit
Ascending (c ∷ cs) = Above (rank c) cs × Ascending cs

pub has-insert_class :
    (c d : TaskClass) (ds : List TaskClass) → has c (insert_class d ds) ≡ (same c d || has c ds)
unfolding insert_class
has-insert_class c d [] = ground arith
has-insert_class c d (e ∷ ds) = ground (arith, has-insert_class c d ds)

pub has-sorted_set : (c : TaskClass) (cs : List TaskClass) → has c (sorted_set cs) ≡ has c cs
unfolding sorted_set
has-sorted_set c [] = refl
has-sorted_set c (d ∷ cs) =
    has-insert_class c d (sorted_set cs) ∙ ap (λ b. same c d || b) (has-sorted_set c cs)

Above-insert_class :
    (n : ℕ) (c : TaskClass) (ds : List TaskClass)
    → n < rank c
    → Above n ds
    → Above n (insert_class c ds)
unfolding insert_class
Above-insert_class n c [] h a = h
Above-insert_class n c (d ∷ ds) h a = elim (Bool-cases (ltb (rank c) (rank d))) [
  | inl e ↦ rw e h
  | inr e ↦ rw e (elim (Bool-cases (same c d)) [ inl s ↦ rw s a | inr s ↦ rw s a ])
]

insert_class-Ascending :
    (c : TaskClass) (ds : List TaskClass) → Ascending ds → Ascending (insert_class c ds)
unfolding insert_class
insert_class-Ascending c [] a = (tt, tt)
insert_class-Ascending c (d ∷ ds) a = elim (Bool-cases (ltb (rank c) (rank d))) [
  | inl e ↦ rw e (ltb→lt _ _ e, a)
  | inr e ↦ rw e (elim (Bool-cases (same c d)) [
    | inl s ↦ rw s a
    | inr s ↦
        rw s (Above-insert_class (rank d) c ds (ground arith) a.0, insert_class-Ascending c ds a.1)
  ])
]

sorted_set-Ascending : (cs : List TaskClass) → Ascending (sorted_set cs)
unfolding sorted_set
sorted_set-Ascending [] = tt
sorted_set-Ascending (c ∷ cs) = insert_class-Ascending c (sorted_set cs) (sorted_set-Ascending cs)

head-le-last :
    (d : TaskClass) (ds : List TaskClass) → Ascending (d ∷ ds) → rank d ≤ rank (last_class (d ∷ ds))
head-le-last d [] a = omega arith
head-le-last d (e ∷ ds) a = omega (arith, a.0, head-le-last e ds a.1)

-- In an ascending list the last class outranks the others.
has-le-last :
    (c d : TaskClass) (ds : List TaskClass)
    → Ascending (d ∷ ds)
    → has c (d ∷ ds) ≡ true
    → rank c ≤ rank (last_class (d ∷ ds))
has-le-last c d [] a h = ground arith
has-le-last c d (e ∷ ds) a h = elim (Bool-cases (same c d)) [
  | inl s ↦
      let eq : rank c ≡ rank d = (==_iff _ _).0 s in omega (arith, eq, head-le-last d (e ∷ ds) a)
  | inr s ↦ has-le-last c e ds a.1 (rw s at h)
]

has-last_class : (d : TaskClass) (ds : List TaskClass) → has (last_class (d ∷ ds)) (d ∷ ds) ≡ true
has-last_class d [] = ground arith
has-last_class d (e ∷ ds) =
    ap (λ b. same (last_class (e ∷ ds)) d || b) (has-last_class e ds) ∙ or_true _

-- The last class of `cs` is the top of it.
abbrev pub Top : List TaskClass → TaskClass → Type 0
Top cs top =
    Ascending cs × (has top cs ≡ true) × ((c : TaskClass) → has c cs ≡ true → rank c ≤ rank top)

Ascending-Top :
    (d : TaskClass) (cs : List TaskClass) → Ascending cs → has d cs ≡ true → Top cs (last_class cs)
Ascending-Top d [] a h = absurd (ground arith)
Ascending-Top d (e ∷ cs) a h = (a, has-last_class e cs, λ k. has-le-last k e cs a)

has_head : (c : TaskClass) (cs : List TaskClass) → has c (c ∷ cs) ≡ true
has_head c cs = ground arith

-- Whatever the change, its classes are not empty and come in strictly ascending rank, so none
-- twice; the displayed class is one of them, and no other has a higher rank.
pub classify-Top :
    (diff : Diff) (globs : List Text) (riscv_core : Bool)
    → Top (classify_all diff globs riscv_core) (classify diff globs riscv_core)
unfolding classify classify_all
classify-Top diff globs riscv_core = go (found diff globs riscv_core)
  where
    go :
        (cs : List TaskClass) → Top (sorted_set (or_docs cs)) (last_class (sorted_set (or_docs cs)))
    go [] =
        Ascending-Top docs (sorted_set (docs ∷ [])) (sorted_set-Ascending (docs ∷ []))
          (has-sorted_set docs (docs ∷ []) ∙ has_head docs [])
    go (c ∷ cs) =
        Ascending-Top c (sorted_set (c ∷ cs)) (sorted_set-Ascending (c ∷ cs))
          (has-sorted_set c (c ∷ cs) ∙ has_head c cs)

class_at : ℕ → TaskClass
class_at n =
    if n == 0
    then docs
    else if n == 1
    then tb_only
    else if n == 2
    then build_scripts
    else if n == 3
    then regmap
    else if n == 4
    then rtl_nfc
    else if n == 5
    then rtl_functional
    else if n == 6
    then riscv
    else if n == 7
    then timing
    else if n == 8
    then cdc
    else if n == 9
    then physical
    else if n == 10
    then efpga_fabulous
    else fpga

class_at-rank : (c : TaskClass) → class_at (rank c) ≡ c
unfolding class_at rank
class_at-rank docs = refl
class_at-rank _ = refl

-- Classes of one rank are one class.
pub same_sound : (c d : TaskClass) → same c d ≡ true → c ≡ d
same_sound c d e =
    sym (class_at-rank c) ∙ (ap class_at ((==_iff (rank c) (rank d)).0 e) ∙ class_at-rank d)
