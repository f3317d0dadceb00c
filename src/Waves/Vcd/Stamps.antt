-- ===== src/Waves/Vcd/Stamps.antt =====
-- chipchamp/waves/vcd.py: the lines of a dump whose time stamps do not go back.
use chipchamp.Prelude.{
  ℕ, ◌≤◌, ◌≡◌, refl, ap, sym, subst, Bool, true, false, Option, none, some, List, [], ◌∷◌, ◌++◌,
  if◌then◌else◌, arith, Bool-cases, Option-cases, inl, inr, ◌==◌,
}
use chipchamp.Text.{Text, text_eq, lower}
use chipchamp.Lines.{strip}
use chipchamp.Dict.{Dict, get, put}
use chipchamp.Waves.Vcd.{
  Change, VcdData, Body, int, append, stamp, vector, read_line, read_lines, two_words, canon_vec,
}

-- Each change is at or after the one before it, the last at or before the time reached.
abbrev pub Before : ℕ → List Change → ℕ → Type 0
Before m [] cur = m ≤ cur
Before m ((t, v) ∷ ch) cur = (m ≤ t) × Before t ch cur

abbrev pub AllBefore : Dict (List Change) → ℕ → Type 0
AllBefore [] cur = Unit
AllBefore ((k, ch) ∷ d) cur = Before 0 ch cur × AllBefore d cur

later : (m : ℕ) (ch : List Change) (cur next : ℕ) → cur ≤ next → Before m ch cur → Before m ch next
later m [] cur next le h = omega arith
later m ((t, v) ∷ ch) cur next le h = (h.0, later t ch cur next le h.1)

all_later :
    (d : Dict (List Change)) (cur next : ℕ) → cur ≤ next → AllBefore d cur → AllBefore d next
all_later [] cur next le h = tt
all_later ((k, ch) ∷ d) cur next le h = (later 0 ch cur next le h.0, all_later d cur next le h.1)

Before-append :
    (m : ℕ) (ch : List Change) (cur : ℕ) (v : Text)
    → Before m ch cur
    → Before m (ch ++ (cur, v) ∷ []) cur
Before-append m [] cur v h = (h, omega arith)
Before-append m ((t, w) ∷ ch) cur v h = (h.0, Before-append t ch cur v h.1)

pub AllBefore-get :
    (code : Text) (d : Dict (List Change)) (ch : List Change) (cur : ℕ)
    → AllBefore d cur
    → get code d ≡ some ch
    → Before 0 ch cur
unfolding get
AllBefore-get code [] ch cur h e = cc
AllBefore-get code ((k, w) ∷ d) ch cur h e = elim (Bool-cases (text_eq k code)) [
  | inl s ↦ subst (λ x. Before 0 x cur) (unwrap w ch (rw s at e)) h.0
  | inr s ↦ AllBefore-get code d ch cur h.1 (rw s at e)
]
  where
    unwrap : (x y : List Change) → some x ≡ some y → x ≡ y
    unwrap x y q = ap (λ o. elim o [ none ↦ x | some z ↦ z ]) q

pub AllBefore-put :
    (code : Text) (d : Dict (List Change)) (ch : List Change) (cur : ℕ)
    → AllBefore d cur
    → Before 0 ch cur
    → AllBefore (put code ch d) cur
unfolding put
AllBefore-put code [] ch cur h b = (b, tt)
AllBefore-put code ((k, w) ∷ d) ch cur h b = elim (Bool-cases (text_eq k code)) [
  | inl s ↦ rw s (b, h.1)
  | inr s ↦ rw s (h.0, AllBefore-put code d ch cur h.1 b)
]

unfoldable pub Good : Body → Type 0
Good (cur, vcd) = AllBefore vcd.changes cur

append_changes :
    (code : Text) (change : Change) (vcd : VcdData) (o : Option (List Change))
    → get code vcd.changes ≡ o
    → (append code change vcd).changes
      ≡ elim o [ none ↦ vcd.changes | some ch ↦ put code (ch ++ change ∷ []) vcd.changes ]
unfolding append
append_changes code change vcd none e = rw (e, append) refl
append_changes code change vcd (some ch) e = rw (e, append) refl

append-Good :
    (code : Text) (cur : ℕ) (v : Text) (vcd : VcdData)
    → AllBefore vcd.changes cur
    → AllBefore (append code (cur, v) vcd).changes cur
append-Good code cur v vcd h = elim (Option-cases (get code vcd.changes)) [
  | inl e ↦ subst (λ d. AllBefore d cur) (sym (append_changes code (cur, v) vcd none e)) h
  | inr (ch, e) ↦
      subst (λ d. AllBefore d cur) (sym (append_changes code (cur, v) vcd (some ch) e))
        (AllBefore-put code vcd.changes (ch ++ (cur, v) ∷ []) cur h
          (Before-append 0 ch cur v (AllBefore-get code vcd.changes ch cur h e)))
]

append_stamp :
    (code : Text) (cur : ℕ) (v : Text) (vcd : VcdData)
    → Good (cur, vcd)
    → Good (cur, append code (cur, v) vcd)
unfolding Good
append_stamp code cur v vcd h = append-Good code cur v vcd h

-- the body after a line that is no stamp
AtTime : ℕ → Body → Type 0
AtTime cur body = Good body × (body.0 ≡ cur)

vector-AtTime :
    (form : Text → Text) (cur : ℕ) (vcd : VcdData) (o : Option (Text × Text))
    → Good (cur, vcd)
    → AtTime cur (vector form (cur, vcd) o)
unfolding vector AtTime
vector-AtTime form cur vcd none h = (h, refl)
vector-AtTime form cur vcd (some (value, code)) h = (append_stamp code cur (form value) vcd h, refl)

scalar-AtTime :
    (code : Text) (cur : ℕ) (v : Text) (vcd : VcdData)
    → Good (cur, vcd)
    → AtTime cur (cur, append code (cur, v) vcd)
unfolding AtTime
scalar-AtTime code cur v vcd h = (append_stamp code cur v vcd h, refl)

pick :
    (cur : ℕ) (b : Bool) (x y : Body)
    → AtTime cur x
    → AtTime cur y
    → AtTime cur (if b then x else y)
pick cur true x y p q = p
pick cur false x y p q = q

-- a line's stamp, if it has one
abbrev stamp_of : Text → Option ℕ
stamp_of [] = none
stamp_of (c ∷ s) = let n = int s in if c == b'#' then n else none

abbrev next_time : ℕ → Option ℕ → ℕ
next_time cur none = cur
next_time cur (some n) = n

-- The stamps among the lines do not go back.
abbrev pub Forward : ℕ → List Text → Type 0
Forward cur [] = Unit
Forward cur (l ∷ ls) =
    (cur ≤ next_time cur (stamp_of (strip l))) × Forward (next_time cur (stamp_of (strip l))) ls

stamp-Good :
    (cur : ℕ) (vcd : VcdData) (o : Option ℕ)
    → cur ≤ next_time cur o
    → Good (cur, vcd)
    → AtTime (next_time cur o) (stamp (cur, vcd) o)
unfolding Good stamp AtTime
stamp-Good cur vcd none le h = (h, refl)
stamp-Good cur vcd (some n) le h = (all_later vcd.changes cur n le h, refl)

read_line-Good :
    (cur : ℕ) (vcd : VcdData) (l : Text)
    → cur ≤ next_time cur (stamp_of l)
    → Good (cur, vcd)
    → AtTime (next_time cur (stamp_of l)) (read_line (cur, vcd) l)
unfolding read_line
read_line-Good cur vcd [] le h = unfold AtTime in (h, refl)
read_line-Good cur vcd (c ∷ s) le h = elim (Bool-cases (c == b'#')) [
  | inl e ↦ rw (dollar c e, e) (stamp-Good cur vcd (int s) (rw e at le) h)
  | inr e ↦ rw e (
      let same : AtTime cur (cur, vcd) = unfold AtTime in (h, refl) in
      pick cur (c == b'$') _ _ same (
        pick cur _ _ _ (scalar-AtTime s cur (lower (c ∷ [])) vcd h) (
          pick cur _ _ _ (vector-AtTime (λ v. canon_vec (lower v)) cur vcd (two_words s) h)
            (pick cur _ _ _ (vector-AtTime (λ v. v) cur vcd (two_words s) h) same))))
]
  where
    dollar : (d : ℕ) → (d == b'#') ≡ true → (d == b'$') ≡ false
    dollar d e = ground arith

at_time : (cur : ℕ) (body : Body) → AtTime cur body → Good body × (body.0 ≡ cur)
unfolding AtTime
at_time cur body h = h

pub read_lines-Good :
    (body : Body) (ls : List Text) → Forward body.0 ls → Good body → Good (read_lines body ls)
unfolding read_lines
read_lines-Good body [] f h = h
read_lines-Good body (l ∷ ls) f h =
    let (good, e) = at_time _ _ (read_line-Good body.0 body.1 (strip l) f.0 h) in
    read_lines-Good (read_line body (strip l)) ls (subst (λ t. Forward t ls) (sym e) f.1) good
