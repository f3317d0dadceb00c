-- ===== src/Regmap/Fields.antt =====
-- chipchamp/regmap/compiler.py: the fields of a register that `validate` accepts.
use chipchamp.Prelude.{
  not-false, or-false, or-true, ℕ, zero, suc, ◌≤◌, ◌<◌, ◌^◌, ◌≡◌, refl, sym, subst, ◌↔◌, ◌⊎◌, inl,
  inr, Bool, true, false, not, ◌&&◌, ◌||◌, List, [], ◌∷◌, ◌++◌, leb, ltb, ◌==◌, ==_iff, arith,
  Bool-cases, if◌then◌else◌,
}
use chipchamp.Prelude.Int.{ℤ, pos, negsuc, pos_part, neg_part}
use chipchamp.Text.{Text, codes, text_eq, text_eq_iff, lower, any}
use chipchamp.Regmap.{Field, Error, width, check, is_access, in_range, mask, meets, validate_fields}

abbrev pub Each {ℓ} : {A : Type ℓ} → (A → Type 0) → List A → Type 0
Each P [] = Unit
Each P (x ∷ xs) = P x × Each P xs

abbrev pub Known : Text → Type 0
Known a = ((a ≡ codes "RW") ⊎ (a ≡ codes "RO")) ⊎ (a ≡ codes "W1C")

-- the bits of a field lie in the register, in order
pub record InRange (f : Field) : Type 0 where
  pub lsb_nonneg : neg_part f.lsb ≡ 0
  pub msb_nonneg : neg_part f.msb ≡ 0
  pub ordered : pos_part f.lsb ≤ pos_part f.msb
  pub inside : pos_part f.msb < 32

abbrev pub Disjoint : Field → Field → Type 0
Disjoint f g = (pos_part f.msb < pos_part g.lsb) ⊎ (pos_part g.msb < pos_part f.lsb)

-- a field behind those of its register that stand before it
pub record IsField (earlier : List Field) (f : Field) : Type 0 where
  pub fresh : Each (λ g. text_eq (lower f.name) (lower g.name) ≡ false) earlier
  pub known : Known f.access
  pub ranged : InRange f
  pub disjoint : Each (λ g. Disjoint f g) earlier
  pub reset_nonneg : neg_part f.reset ≡ 0
  pub reset_fits : pos_part f.reset < 2 ^ pos_part (width f)

abbrev pub AreFields : List Field → List Field → Type 0
AreFields earlier [] = Unit
AreFields earlier (f ∷ fs) = IsField earlier f × AreFields (f ∷ earlier) fs

pub check-nil :
    (b : Bool) (e : Error) (more : List Error) → (check b e more ≡ []) ↔ ((b ≡ false) × (more ≡ []))
check-nil true e more = (λ h. cc, λ h. cc)
check-nil false e more = (λ h. (refl, h), λ h. h.1)

if-nil :
    (b : Bool) (xs : List Error) (e : Error) (ys : List Error)
    → ((if b then xs else e ∷ ys) ≡ []) ↔ ((b ≡ true) × (xs ≡ []))
if-nil true xs e ys = (λ h. (refl, h), λ h. h.1)
if-nil false xs e ys = (λ h. cc, λ h. cc)

pub append-nil : (xs ys : List Error) → (xs ++ ys ≡ []) ↔ ((xs ≡ []) × (ys ≡ []))
append-nil [] ys = (λ h. (refl, h), λ h. h.1)
append-nil (x ∷ xs) ys = (λ h. cc, λ h. cc)

abbrev pub names_of : List Field → List Text
names_of [] = []
names_of (f ∷ fs) = lower f.name ∷ names_of fs

abbrev pub bits_of : List Field → ℕ → Bool
bits_of [] i = false
bits_of (f ∷ fs) i = mask f i || bits_of fs i

any-names :
    (n : Text) (earlier : List Field)
    → (any (λ m. text_eq n m) (names_of earlier) ≡ false)
      ↔ Each (λ g. text_eq n (lower g.name) ≡ false) earlier
any-names n [] = (λ h. tt, λ h. refl)
any-names n (g ∷ gs) = (
  λ h. let (p, q) = (or-false (text_eq n (lower g.name)) _).0 h in (p, (any-names n gs).0 q),
  λ h. (or-false (text_eq n (lower g.name)) _).1 (h.0, (any-names n gs).1 h.1),
)

meets_iff :
    (n : ℕ) (u m : ℕ → Bool) → (meets n u m ≡ false) ↔ ((i : ℕ) → i < n → u i && m i ≡ false)
unfolding meets
meets_iff zero u m = (λ h i lt. absurd (omega arith), λ h. refl)
meets_iff (suc n) u m = (
  λ h i lt.
      let (p, q) = (or-false (u n && m n) _).0 h in
      elim (Bool-cases (i == n)) [
        | inl e ↦ subst (λ j. u j && m j ≡ false) (sym ((==_iff _ _).0 e)) p
        | inr e ↦ (meets_iff n u m).0 q i (ground arith)
      ],
  λ h.
      (or-false (u n && m n) _).1
        (h n (omega arith), (meets_iff n u m).1 (λ i lt. h i (omega arith))),
)

one_part : (z : ℤ) → (pos_part z ≡ 0) ⊎ (neg_part z ≡ 0)
one_part (pos n) = inr refl
one_part (negsuc n) = inl refl

in_range_iff : (f : Field) → (in_range f ≡ true) ↔ InRange f
unfolding in_range
in_range_iff f = (λ h. ground (arith, one_part f.msb, one_part f.lsb), λ h. ground (arith, h))

is_access_iff : (a : Text) → (not (is_access a) ≡ false) ↔ Known a
unfolding is_access
is_access_iff a = not-false _ _ (
    or-true _ _ _ _ (or-true _ _ _ _ (text_eq_iff a (codes "RW")) (text_eq_iff a (codes "RO")))
      (text_eq_iff a (codes "W1C")))

distrib : (a b m : Bool) → ((a || b) && m ≡ false) ↔ ((a && m ≡ false) × (b && m ≡ false))
distrib a b m = (λ h. ground arith, λ h. ground arith)

one-Disjoint :
    (f g : Field)
    → InRange f
    → InRange g
    → ((i : ℕ) → i < 32 → mask g i && mask f i ≡ false) ↔ Disjoint f g
unfolding mask
one-Disjoint f g r q = (
  λ h. elim (Bool-cases (ltb (pos_part f.msb) (pos_part g.lsb))) [
    | inl e ↦ inl (ground arith)
    | inr e ↦ elim (Bool-cases (ltb (pos_part g.msb) (pos_part f.lsb))) [
      | inl d ↦ inr (ground arith)
      | inr d ↦ elim (Bool-cases (leb (pos_part f.lsb) (pos_part g.lsb))) [
        | inl k ↦ absurd (
            ground (
              arith,
              r.ordered,
              q.ordered,
              q.inside,
              h (pos_part g.lsb) (omega (arith, q.ordered, q.inside)),
            ))
        | inr k ↦ absurd (
            ground (
              arith,
              r.ordered,
              q.ordered,
              r.inside,
              h (pos_part f.lsb) (omega (arith, r.ordered, r.inside)),
            ))
      ]
    ]
  ],
  λ h i lt. elim h [ inl p ↦ ground arith | inr p ↦ ground arith ],
)

bits-Disjoint :
    (f : Field) (earlier : List Field)
    → InRange f
    → Each InRange earlier
    → ((i : ℕ) → i < 32 → bits_of earlier i && mask f i ≡ false) ↔ Each (λ g. Disjoint f g) earlier
bits-Disjoint f [] r q = (λ h. tt, λ h i lt. refl)
bits-Disjoint f (g ∷ gs) r q = (
  λ h. (
    (one-Disjoint f g r q.0).0
        (λ i lt. ((distrib (mask g i) (bits_of gs i) (mask f i)).0 (h i lt)).0),
    (bits-Disjoint f gs r q.1).0
        (λ i lt. ((distrib (mask g i) (bits_of gs i) (mask f i)).0 (h i lt)).1),
  ),
  λ h i lt.
      (distrib (mask g i) (bits_of gs i) (mask f i)).1
        ((one-Disjoint f g r q.0).1 h.0 i lt, (bits-Disjoint f gs r q.1).1 h.1 i lt),
)

meets-Disjoint :
    (f : Field) (earlier : List Field)
    → InRange f
    → Each InRange earlier
    → (meets 32 (bits_of earlier) (mask f) ≡ false) ↔ Each (λ g. Disjoint f g) earlier
meets-Disjoint f earlier r q = (
  λ h. (bits-Disjoint f earlier r q).0 ((meets_iff 32 (bits_of earlier) (mask f)).0 h),
  λ h. (meets_iff 32 (bits_of earlier) (mask f)).1 ((bits-Disjoint f earlier r q).1 h),
)

fits : (p q n : ℕ) → ((if p == 0 then leb n q else true) ≡ false) ↔ ((p ≡ 0) × (q < n))
fits p q n = (λ h. ground arith, λ h. ground arith)

-- The errors of the fields, behind fields in range, are none exactly if all are fields.
pub validate_fields-AreFields :
    (reg : Text) (earlier fs : List Field)
    → Each InRange earlier
    → (validate_fields reg (names_of earlier) (bits_of earlier) fs ≡ []) ↔ AreFields earlier fs
unfolding validate_fields
validate_fields-AreFields reg earlier [] q = (λ h. tt, λ h. refl)
validate_fields-AreFields reg earlier (f ∷ fs) q = (
  λ h.
      let (fresh, h1) = (check-nil _ _ _).0 h in
      let (known, h2) = (check-nil _ _ _).0 h1 in
      let (ranged, h3) = (if-nil (in_range f) _ _ _).0 h2 in
      let (apart, h4) = (check-nil _ _ _).0 h3 in
      let (small, h5) = (check-nil _ _ _).0 h4 in
      let r = (in_range_iff f).0 ranged in
      let fit = (fits (neg_part f.reset) (pos_part f.reset) (2 ^ pos_part (width f))).0 small in
      (
        record {
          fresh = (any-names (lower f.name) earlier).0 fresh;
          known = (is_access_iff f.access).0 known;
          ranged = r;
          disjoint = (meets-Disjoint f earlier r q).0 apart;
          reset_nonneg = fit.0;
          reset_fits = fit.1;
        },
        (validate_fields-AreFields reg (f ∷ earlier) fs (r, q)).0 h5,
      ),
  λ (g, more). (check-nil _ _ _).1 (
    (any-names (lower f.name) earlier).1 g.fresh,
    (check-nil _ _ _).1 (
      (is_access_iff f.access).1 g.known,
      (if-nil (in_range f) _ _ _).1 (
        (in_range_iff f).1 g.ranged,
        (check-nil _ _ _).1 (
          (meets-Disjoint f earlier g.ranged q).1 g.disjoint,
          (check-nil _ _ _).1 (
            (fits _ _ _).1 (g.reset_nonneg, g.reset_fits),
            (validate_fields-AreFields reg (f ∷ earlier) fs (g.ranged, q)).1 more,
          ),
        ),
      ),
    ),
  ),
)
