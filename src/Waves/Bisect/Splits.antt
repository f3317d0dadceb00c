-- ===== src/Waves/Bisect/Splits.antt =====
-- The binary search finds the place that splits an ascending list.
use chipchamp.Prelude.{
  ℕ, zero, suc, ◌+◌, ◌/◌, ◌≤◌, ◌<◌, ◌≡◌, refl, subst, Bool, true, false, List, [], ◌∷◌, leb, ltb,
  length, get_or, arith, Bool-cases, inl, inr, ltb→lt,
}
use chipchamp.Waves.Bisect.{search, bisect_right, bisect_left}

-- no element is below one before it
abbrev pub AtLeast : ℕ → List ℕ → Type 0
AtLeast m [] = Unit
AtLeast m (x ∷ xs) = (m ≤ x) × AtLeast x xs

abbrev pub Ascending : List ℕ → Type 0
Ascending a = AtLeast 0 a

-- the elements before the place are before the point, the others are not
abbrev pub Splits : (ℕ → Bool) → List ℕ → ℕ → Type 0
Splits before [] n = n ≡ 0
Splits before (x ∷ xs) zero = (before x ≡ false) × Splits before xs zero
Splits before (x ∷ xs) (suc n) = (before x ≡ true) × Splits before xs n

AtLeast-get : (m : ℕ) (a : List ℕ) (i : ℕ) → AtLeast m a → i < length a → m ≤ get_or a i 0
AtLeast-get m [] i h l = absurd (omega arith)
AtLeast-get m (x ∷ xs) zero h l = h.0
AtLeast-get m (x ∷ xs) (suc i) h l = ground (arith, h.0, AtLeast-get x xs i h.1 (omega arith))

get_mono :
    (m : ℕ) (a : List ℕ) (i j : ℕ)
    → AtLeast m a
    → i ≤ j
    → j < length a
    → get_or a i 0 ≤ get_or a j 0
get_mono m [] i j h le l = absurd (omega arith)
get_mono m (x ∷ xs) zero zero h le l = omega arith
get_mono m (x ∷ xs) zero (suc j) h le l = AtLeast-get x xs j h.1 (omega arith)
get_mono m (x ∷ xs) (suc i) zero h le l = absurd (omega arith)
get_mono m (x ∷ xs) (suc i) (suc j) h le l = get_mono x xs i j h.1 (omega arith) (omega arith)

-- What the loop keeps true of `lo` and `hi`.
record Inv (before : ℕ → Bool) (a : List ℕ) (lo hi : ℕ) : Type 0 where
  ordered : lo ≤ hi
  bounded : hi ≤ length a
  below : (i : ℕ) → i < lo → before (get_or a i 0) ≡ true
  above : (i : ℕ) → hi ≤ i → i < length a → before (get_or a i 0) ≡ false

abbrev Downward : (ℕ → Bool) → Type 0
Downward before = (x y : ℕ) → x ≤ y → before y ≡ true → before x ≡ true

shift :
    (before : ℕ → Bool) (x : ℕ) (xs : List ℕ) (n : ℕ)
    → Inv before (x ∷ xs) (suc n) (suc n)
    → Inv before xs n n
shift before x xs n v = record {
  ordered = omega arith;
  bounded = ground (arith, v.bounded);
  below = λ i l. v.below (suc i) (omega arith);
  above = λ i l u. v.above (suc i) (omega arith) (omega arith);
}

shift_zero : (before : ℕ → Bool) (x : ℕ) (xs : List ℕ) → Inv before (x ∷ xs) 0 0 → Inv before xs 0 0
shift_zero before x xs v = record {
  ordered = omega arith;
  bounded = omega arith;
  below = λ i l. absurd (omega arith);
  above = λ i l u. v.above (suc i) (omega arith) (omega arith);
}

Inv-Splits : (before : ℕ → Bool) (a : List ℕ) (n : ℕ) → Inv before a n n → Splits before a n
Inv-Splits before [] n v = ground (arith, v.bounded)
Inv-Splits before (x ∷ xs) zero v =
    (v.above 0 (omega arith) (omega arith), Inv-Splits before xs 0 (shift_zero before x xs v))
Inv-Splits before (x ∷ xs) (suc n) v =
    (v.below 0 (omega arith), Inv-Splits before xs n (shift before x xs n v))

module _ (before : ℕ → Bool) (down : Downward before) (a : List ℕ) (sorted : Ascending a) where
  go_right :
      (lo hi mid : ℕ)
      → Inv before a lo hi
      → lo ≤ mid
      → mid < hi
      → before (get_or a mid 0) ≡ true
      → Inv before a (suc mid) hi
  go_right lo hi mid v l u h = record {
    ordered = u;
    bounded = v.bounded;
    below = λ i k.
        down (get_or a i 0) (get_or a mid 0)
          (get_mono 0 a i mid sorted (omega arith) (omega (arith, v.bounded))) h;
    above = v.above;
  }

  refute : (b : Bool) → (b ≡ true → ⊥) → b ≡ false
  refute true h = absurd (h refl)
  refute false h = refl

  go_left :
      (lo hi mid : ℕ)
      → Inv before a lo hi
      → lo ≤ mid
      → mid < hi
      → before (get_or a mid 0) ≡ false
      → Inv before a lo mid
  go_left lo hi mid v l u h = record {
    ordered = l;
    bounded = omega (arith, v.bounded);
    below = v.below;
    above = λ i k e. refute (before (get_or a i 0)) (λ t.
        no (before (get_or a mid 0))
          (down (get_or a mid 0) (get_or a i 0) (get_mono 0 a mid i sorted k e) t) h);
  }
    where
      no : (b : Bool) → b ≡ true → b ≡ false → ⊥
      no b t f = cc

  halves : (lo hi : ℕ) → lo < hi → (lo ≤ (lo + hi) / 2) × ((lo + hi) / 2 < hi)
  halves lo hi h = (omega arith, omega arith)

  done : (lo hi : ℕ) → Inv before a lo hi → hi ≡ lo → Splits before a lo
  done lo hi v e = Inv-Splits before a lo (subst (λ h. Inv before a lo h) e v)

  search-Splits :
      (f lo hi : ℕ) → Inv before a lo hi → hi ≤ lo + f → Splits before a (search before a f lo hi)
  unfolding search
  search-Splits zero lo hi v l = done lo hi v (omega (arith, v.ordered))
  search-Splits (suc f) lo hi v l = elim (Bool-cases (ltb lo hi)) [
    | inr e ↦ rw e (done lo hi v (ground (arith, v.ordered)))
    | inl e ↦ rw e (elim (Bool-cases (before (get_or a ((lo + hi) / 2) 0))) [
      | inl b ↦ rw b (
          let u = halves lo hi (ltb→lt lo hi e) in
          search-Splits f (suc ((lo + hi) / 2)) hi (go_right lo hi ((lo + hi) / 2) v u.0 u.1 b)
            (omega (arith, u.0)))
      | inr b ↦ rw b (
          let u = halves lo hi (ltb→lt lo hi e) in
          search-Splits f lo ((lo + hi) / 2) (go_left lo hi ((lo + hi) / 2) v u.0 u.1 b)
            (omega (arith, u.1)))
    ])
  ]

  whole : Inv before a 0 (length a)
  whole = record {
    ordered = omega arith;
    bounded = omega arith;
    below = λ i l. absurd (omega arith);
    above = λ i l u. absurd (omega arith);
  }

-- In an ascending list `bisect_right` finds the place behind all elements up to the point, and
-- `bisect_left` the place before all elements from the point on.
pub bisect_right-Splits :
    (a : List ℕ) (x : ℕ) → Ascending a → Splits (λ y. leb y x) a (bisect_right a x)
unfolding bisect_right
bisect_right-Splits a x s =
    search-Splits (λ y. leb y x) (λ y z l h. ground arith) a s (length a) 0 (length a)
      (whole (λ y. leb y x) (λ y z l h. ground arith) a s) (omega arith)

pub bisect_left-Splits :
    (a : List ℕ) (x : ℕ) → Ascending a → Splits (λ y. ltb y x) a (bisect_left a x)
unfolding bisect_left
bisect_left-Splits a x s =
    search-Splits (λ y. ltb y x) (λ y z l h. ground arith) a s (length a) 0 (length a)
      (whole (λ y. ltb y x) (λ y z l h. ground arith) a s) (omega arith)
