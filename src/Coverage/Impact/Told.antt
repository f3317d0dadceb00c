-- ===== src/Coverage/Impact/Told.antt =====
-- chipchamp/coverage/impact.py: what `recorded_lines` answers.
use mathlib.Core.List.{Memᴰ}
use chipchamp.Prelude.{
  ℕ, zero, suc, ◌+◌, ◌-◌, ◌≤◌, ◌≡◌, ◌⊎◌, inl, inr, refl, sym, ap, subst, Bool, true, false, Option,
  none, some, List, [], ◌∷◌, length, max, ltb, arith, choose, or-false, Bool-cases, false_is_true,
  ==_iff, ◌==◌, if◌then◌else◌,
}
use chipchamp.Text.{Text, text_eq, text_eq_sound, any}
use chipchamp.Lines.{splitlines}
use chipchamp.Coverage.Impact.{
  Block, Why, nothing, changed, over_limit, Mapping, recorded, range_from, or_skip, found_in,
  is_missing, answer, mapped_lines, recorded_lines,
}
use chipchamp.Coverage.Impact.Located.{AllMatch, Located, Done, map_blocks-Done, recorded-Located}

is_missing-some : (r : Option ℕ) → is_missing r ≡ false → (o : ℕ) × (r ≡ some o)
is_missing-some none h = absurd (false_is_true (sym h))
is_missing-some (some o) h = (o, refl)

found_in-out :
    (m : Mapping) (ns : List ℕ) {n o : ℕ}
    → Memᴰ n ns
    → recorded n m ≡ some o
    → Memᴰ o (found_in m ns)
found_in-out m [] h k = elim h [ ]
found_in-out m (n ∷ ns) {o = o} (Memᴰ.head e) k =
    subst (λ r. Memᴰ o (or_skip r (found_in m ns))) (sym (subst (λ i. recorded i m ≡ some o) e k))
      (Memᴰ.head refl)
found_in-out m (n ∷ ns) (Memᴰ.tail h) k = or_skip-Mem (recorded n m) (found_in-out m ns h k)
  where
    or_skip-Mem : (r : Option ℕ) {o : ℕ} {os : List ℕ} → Memᴰ o os → Memᴰ o (or_skip r os)
    or_skip-Mem none h = h
    or_skip-Mem (some p) h = Memᴰ.tail h

or_skip-in : (r : Option ℕ) (os : List ℕ) {o : ℕ} → Memᴰ o (or_skip r os) → (r ≡ some o) ⊎ Memᴰ o os
or_skip-in none os h = inr h
or_skip-in (some p) os (Memᴰ.head e) = inl (ap some (sym e))
or_skip-in (some p) os (Memᴰ.tail h) = inr h

found_in-in :
    (m : Mapping) (ns : List ℕ) {o : ℕ}
    → Memᴰ o (found_in m ns)
    → (n : ℕ) × Memᴰ n ns × (recorded n m ≡ some o)
found_in-in m [] h = elim h [ ]
found_in-in m (n ∷ ns) h = elim (or_skip-in (recorded n m) (found_in m ns) h) [
  | inl e ↦ (n, Memᴰ.head refl, e)
  | inr k ↦ let (i, at, e) = found_in-in m ns k in (i, Memᴰ.tail at, e)
]

at_or_above : (lo n : ℕ) → lo ≤ n → (n ≡ lo) ⊎ (suc lo ≤ n)
at_or_above lo n h = elim (Bool-cases (n == lo)) [
  | inl e ↦ inl ((==_iff n lo).0 e)
  | inr e ↦ inr (ground arith)
]

range_from-in : (lo k : ℕ) {n : ℕ} → Memᴰ n (range_from lo k) → (lo ≤ n) × (suc n ≤ lo + k)
range_from-in lo zero h = elim h [ ]
range_from-in lo (suc k) (Memᴰ.head e) = (omega (arith, e), omega (arith, e))
range_from-in lo (suc k) (Memᴰ.tail h) =
    let (a, b) = range_from-in (suc lo) k h in (omega arith, omega arith)

range_from-out : (lo k n : ℕ) → lo ≤ n → suc n ≤ lo + k → Memᴰ n (range_from lo k)
range_from-out lo zero n a b = absurd (omega arith)
range_from-out lo (suc k) n a b = elim (at_or_above lo n a) [
  | inl e ↦ Memᴰ.head e
  | inr c ↦ Memᴰ.tail (range_from-out (suc lo) k n c (omega arith))
]

missing-none :
    (m : Mapping) (ns : List ℕ) {n : ℕ}
    → any (λ i. is_missing (recorded i m)) ns ≡ false
    → Memᴰ n ns
    → (o : ℕ) × (recorded n m ≡ some o)
missing-none m [] h k = elim k [ ]
missing-none m (n ∷ ns) h (Memᴰ.head e) = is_missing-some _ (
    subst (λ i. is_missing (recorded i m) ≡ false) (sym e)
      ((or-false (is_missing (recorded n m)) _).0 h).0)
missing-none m (n ∷ ns) h (Memᴰ.tail k) =
    missing-none m ns ((or-false (is_missing (recorded n m)) _).0 h).1 k

limit_is_something : over_limit ≡ nothing → ⊥
limit_is_something e = cc

no_reason : (b : Bool) → (if b then changed else nothing) ≡ nothing → b ≡ false
no_reason true h = absurd (changed_is_something h)
  where
    changed_is_something : changed ≡ nothing → ⊥
    changed_is_something e = cc
no_reason false h = refl

-- Identical texts have the same lines; else the line is one that can be told apart.
abbrev pub Recorded : Text → Text → ℕ → ℕ → Type 0
Recorded snapshot reference n o =
    ((snapshot ≡ reference) × (n ≡ o)) ⊎ Located (splitlines snapshot) (splitlines reference) n o

-- There is an answer. Each line in it is the recorded place of a line of the edit, and without a
-- reason beside it each line of the edit has its recorded place in it.
abbrev pub Tells : Text → Text → ℕ → ℕ → Option (List ℕ × Why) → Type 0
Tells snapshot reference first last none = ⊥
Tells snapshot reference first last (some (found, why)) =
    ((o : ℕ) → Memᴰ o found → (n : ℕ) × (first ≤ n) × (n ≤ last) × Recorded snapshot reference n o)
    × ((n : ℕ)
        → first ≤ n
        → n ≤ last
        → why ≡ nothing
        → (o : ℕ) × Memᴰ o found × Recorded snapshot reference n o)

module _ (snapshot reference : Text) (first last : ℕ) where
  in_range : (n : ℕ) → Memᴰ n (range_from first (suc last - first)) → (first ≤ n) × (n ≤ last)
  in_range n h = let (a, b) = range_from-in first (suc last - first) h in (omega arith, omega arith)

  of_range : (n : ℕ) → first ≤ n → n ≤ last → Memᴰ n (range_from first (suc last - first))
  of_range n a b = range_from-out first (suc last - first) n a (omega arith)

  answer-Tells :
      (r : Option Mapping)
      → Done (splitlines snapshot) (splitlines reference) r
      → Tells snapshot reference first last (answer (range_from first (suc last - first)) r)
  answer-Tells none h = h
  answer-Tells (some m) h = (
    λ o at.
        let (n, k, e) = found_in-in m _ at in
        let (a, b) = in_range n k in (n, a, b, inr (recorded-Located _ _ n o m h e)),
    λ n a b none_given.
        let k = of_range n a b in
        let (o, e) = missing-none m _ (no_reason _ none_given) k in
        (o, found_in-out m _ k e, inr (recorded-Located _ _ n o m h e)),
  )

  mapped_lines-Tells :
      (matching_blocks : List Text → List Text → List Block)
      → AllMatch
          (splitlines snapshot)
          (splitlines reference)
          (matching_blocks (splitlines snapshot) (splitlines reference))
      → Tells snapshot reference first last (
          mapped_lines matching_blocks
            (splitlines snapshot)
            (splitlines reference)
            (range_from first (suc last - first)))
  unfolding mapped_lines
  mapped_lines-Tells matching_blocks h =
      choose {A = Option (List ℕ × Why)} (Tells snapshot reference first last)
        (ltb 20000 (max (length (splitlines snapshot)) (length (splitlines reference))))
        (some ([], over_limit)) _
        (λ _. (λ o at. elim at [ ], λ n a b e. absurd (limit_is_something e)))
        (λ _. answer-Tells _ (map_blocks-Done _ _ _ [] h tt))

  -- Where the blocks are those in which both texts agree, `recorded_lines` raises no IndexError. Each
  -- line that it answers is the recorded place of a line of the edit: the same number if the texts
  -- are identical, or else a line of the same text, which is not blank and stands once in either.
  -- If it gives no reason, each line of the edit has its recorded place among the answers.
  pub recorded_lines-Tells :
      (matching_blocks : List Text → List Text → List Block)
      → AllMatch
          (splitlines snapshot)
          (splitlines reference)
          (matching_blocks (splitlines snapshot) (splitlines reference))
      → Tells snapshot reference first last
          (recorded_lines matching_blocks snapshot reference (some (first, last)))
  unfolding recorded_lines
  recorded_lines-Tells matching_blocks h =
      choose {A = Option (List ℕ × Why)} (Tells snapshot reference first last)
        (text_eq snapshot reference) _ _
        (λ e.
          let same = text_eq_sound snapshot reference e in
          (
            λ o at. let (a, b) = in_range o at in (o, a, b, inl (same, refl)),
            λ n a b _. (n, of_range n a b, inl (same, refl)),
          ))
        (λ _. mapped_lines-Tells matching_blocks h)
