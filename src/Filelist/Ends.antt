-- ===== src/Filelist/Ends.antt =====
-- chipchamp/filelist.py: `parse_filelist` ends, also where files include one another.
use chipchamp.Prelude.{
  ℕ, zero, suc, ◌≤◌, ◌<◌, ◌≡◌, refl, sym, subst, ap, ◌∙◌, inl, inr, Bool, true, false, ◌||◌, Option,
  none, some, List, [], ◌∷◌, length, arith, Bool-cases, if◌then◌else◌,
}
use chipchamp.Text.{Text, text_eq, text_eq_refl, text_eq_sound}
use chipchamp.Filelist.{
  FileSet, mem, Pending, nothing, include, incdir, skipped, Parsed, merge, abspath, turn, walk,
  bind, named, parse, parse_file, parse_filelist, tokens, dirname, resolve,
}

-- Nothing that was seen is forgotten.
abbrev pub Grows : List Text → List Text → Type 0
Grows seen later = (t : Text) → mem t seen ≡ true → mem t later ≡ true

-- the entries of a list that were not seen
unfoldable pub absent : List Text → List Text → ℕ
absent seen [] = 0
absent seen (u ∷ us) = if mem u seen then absent seen us else suc (absent seen us)

absent-Grows : (us seen later : List Text) → Grows seen later → absent later us ≤ absent seen us
unfolding absent
absent-Grows [] seen later g = omega arith
absent-Grows (u ∷ us) seen later g =
    let rest = absent-Grows us seen later g in let same = g u in ground (arith, rest, same)

or_right : (a b : Bool) → b ≡ true → a || b ≡ true
or_right true b h = refl
or_right false b h = h

pub cons-Grows : (t : Text) (seen : List Text) → Grows seen (t ∷ seen)
unfolding mem
cons-Grows t seen v h = or_right (text_eq v t) (mem v seen) h

absent_seen :
    (us seen : List Text) (t : Text)
    → mem t us ≡ true
    → mem t seen ≡ false
    → absent (t ∷ seen) us < absent seen us
unfolding absent mem
absent_seen [] seen t h n = cc
absent_seen (u ∷ us) seen t h n = elim (Bool-cases (text_eq t u)) [
  | inl e ↦
      let same = text_eq_sound t u e in
      let fewer = absent-Grows us seen (t ∷ seen) (cons-Grows t seen) in
      let now = subst (λ v. text_eq v t ≡ true) same (text_eq_refl t) in
      let new = subst (λ v. mem v seen ≡ false) same n in ground (arith, fewer, now, new)
  | inr e ↦
      let rest = absent_seen us seen t (subst (λ b. b || mem t us ≡ true) e h) n in
      ground (arith, rest)
]

-- With the fuel for what was not seen, the answer is there, for each fuel that is more.
absent-le : (us seen : List Text) → absent seen us ≤ length us
unfolding absent
absent-le [] seen = omega arith
absent-le (u ∷ us) seen = let rest = absent-le us seen in ground (arith, rest)

-- Two runs answer the same, and forget nothing that was seen.
abbrev Both : List Text → Option Parsed → Option Parsed → Type 0
Both seen o o' = (r : Parsed) × (o ≡ some r) × (o' ≡ some r) × Grows seen r.1

later-Both :
    (seen later : List Text) (o o' : Option Parsed)
    → Grows seen later
    → Both later o o'
    → Both seen o o'
later-Both seen later o o' g (r, e, e', h) = (r, e, e', λ t k. h t (g t k))

if-Both :
    (seen : List Text) (b : Bool) (x x' y y' : Option Parsed)
    → (b ≡ true → Both seen x x')
    → (b ≡ false → Both seen y y')
    → Both seen (if b then x else y) (if b then x' else y')
if-Both seen true x x' y y' f g = f refl
if-Both seen false x x' y y' f g = g refl

module _ (cwd : Text) (read : Text → Option Text) (expand : Text → Text)
    (glob : Text → List Text) where
  module _ (child child' : List Text → Text → Option Parsed) (base : Text) (first : List Text)
      (children : (seen : List Text) (path : Text)
        → Grows first seen
        → Both seen (child seen path) (child' seen path)) where
    walk-Both :
        (pending : Pending) (fs : FileSet) (seen toks : List Text)
        → Grows first seen
        → Both seen
            (walk cwd read expand glob child base pending fs seen toks)
            (walk cwd read expand glob child' base pending fs seen toks)
    unfolding walk turn
    walk-Both pending fs seen [] g = (_, refl, refl, λ t k. k)
    walk-Both nothing fs seen (tok ∷ toks) g = walk-Both _ _ seen toks g
    walk-Both include fs seen (tok ∷ toks) g =
        let ((f, s), e, e', h) = children seen (resolve base (expand tok)) g in
        let rest = walk-Both nothing (merge fs f) s toks (λ t k. h t (g t k)) in
        rw (e, e') (later-Both seen s _ _ h rest)
    walk-Both incdir fs seen (tok ∷ toks) g = walk-Both nothing _ seen toks g
    walk-Both skipped fs seen (tok ∷ toks) g = walk-Both nothing fs seen toks g

  -- the files that exist are among the entries
  abbrev pub Finite : List Text → Type 0
  Finite universe =
      (path raw : Text)
      → read path ≡ some raw
      → mem (abspath cwd read expand glob path) universe ≡ true

  module _ (universe : List Text) (finite : Finite universe) where
    file-Both :
        (n m : ℕ) (seen : List Text) (path : Text) (file : Option Text)
        → read path ≡ file
        → ((later : List Text) (p : Text)
            → mem (abspath cwd read expand glob path) universe ≡ true
            → Grows (abspath cwd read expand glob path ∷ seen) later
            → Both later
                (parse cwd read expand glob n later p)
                (parse cwd read expand glob m later p))
        → Both seen
            (parse_file cwd read expand glob (parse cwd read expand glob n) seen path file)
            (parse_file cwd read expand glob (parse cwd read expand glob m) seen path file)
    unfolding parse_file
    file-Both n m seen path none e children = (_, refl, refl, λ t k. k)
    file-Both n m seen path (some raw) e children =
        let ap = abspath cwd read expand glob path in
        later-Both seen (ap ∷ seen) _ _ (cons-Grows ap seen) (
          walk-Both (parse cwd read expand glob n) (parse cwd read expand glob m) (dirname path)
            (ap ∷ seen) (λ later p g. children later p (finite path raw e) g) nothing
            (named cwd read expand glob ap) (ap ∷ seen) (tokens raw) (λ t k. k))

    -- what is left to see when a file was read
    left :
        (seen later : List Text) (path : Text) (n : ℕ)
        → mem (abspath cwd read expand glob path) universe ≡ true
        → mem (abspath cwd read expand glob path) seen ≡ false
        → Grows (abspath cwd read expand glob path ∷ seen) later
        → absent seen universe < suc n
        → absent later universe < n
    left seen later path n old new g h =
        let ap = abspath cwd read expand glob path in
        let less = absent_seen universe seen ap old new in
        let fewer = absent-Grows universe (ap ∷ seen) later g in omega arith

    -- With fuel for what was not seen, all runs answer the same.
    parse-Both :
        (n m : ℕ) (seen : List Text) (path : Text)
        → absent seen universe < n
        → absent seen universe < m
        → Both seen
            (parse cwd read expand glob n seen path)
            (parse cwd read expand glob m seen path)
    unfolding parse
    parse-Both zero m seen path h h' = absurd (omega arith)
    parse-Both (suc n) zero seen path h h' = absurd (omega arith)
    parse-Both (suc n) (suc m) seen path h h' =
        let ap = abspath cwd read expand glob path in
        if-Both seen (mem ap seen) _ _ _ _ (λ e. (_, refl, refl, λ t k. k))
          (λ e. file-Both n m seen path (read path) refl (λ later p old g.
            parse-Both n m later p (left seen later path n old e g h)
              (left seen later path m old e g h')))

    -- If only finitely many files exist, there is one file set that the parser answers with for all
    -- fuel above their number, however the files include one another.
    pub parse_filelist-Ends :
        (path : Text)
        → (fs : FileSet) × ((fuel : ℕ)
            → length universe < fuel
            → parse_filelist cwd read expand glob fuel path ≡ some fs)
    unfolding parse_filelist
    parse_filelist-Ends path =
        let some_fuel = absent-le universe [] in
        let r =
          parse-Both (suc (length universe)) (suc (length universe)) [] path (omega arith)
            (omega arith) in
        (
          r.0.0,
          λ fuel h.
              let (q, e, e', g) =
                parse-Both (suc (length universe)) fuel [] path (omega arith) (omega arith) in
              ap (λ o. bind o (λ p. some p.0)) (e' ∙ (sym e ∙ r.1)),
        )
