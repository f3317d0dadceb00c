-- ===== src/Text/Quantifiers.antt =====
-- Python's `any` and `all`, told by the elements.
use mathlib.Core.List.{Memᴰ}
use chipchamp.Prelude.{
  ◌≡◌, refl, sym, subst, Bool, true, false, List, [], ◌∷◌, or-false, and_parts, false_is_true,
  Bool-cases, inl, inr,
}
use chipchamp.Text.{any, all}

pub any-false {ℓ} :
    {A : Type ℓ} (p : A → Bool) (xs : List A) {x : A} → any p xs ≡ false → Memᴰ x xs → p x ≡ false
any-false p [] h k = elim k [ ]
any-false p (x ∷ xs) h (Memᴰ.head e) =
    subst (λ y. p y ≡ false) (sym e) ((or-false (p x) (any p xs)).0 h).0
any-false p (x ∷ xs) h (Memᴰ.tail k) = any-false p xs ((or-false (p x) (any p xs)).0 h).1 k

pub any-true {ℓ} :
    {A : Type ℓ} (p : A → Bool) (xs : List A) → any p xs ≡ true → (x : A) × Memᴰ x xs × (p x ≡ true)
any-true p [] h = absurd (false_is_true h)
any-true p (x ∷ xs) h = elim (Bool-cases (p x)) [
  | inl e ↦ (x, Memᴰ.head refl, e)
  | inr e ↦ let (y, k, t) = any-true p xs (rw e at h) in (y, Memᴰ.tail k, t)
]

pub all-Mem {ℓ} :
    {A : Type ℓ} (p : A → Bool) (xs : List A) {x : A} → all p xs ≡ true → Memᴰ x xs → p x ≡ true
all-Mem p [] h k = elim k [ ]
all-Mem p (x ∷ xs) h (Memᴰ.head e) =
    subst (λ y. p y ≡ true) (sym e) (and_parts (p x) (all p xs) h).0
all-Mem p (x ∷ xs) h (Memᴰ.tail k) = all-Mem p xs (and_parts (p x) (all p xs) h).1 k

pub Mem-all {ℓ} :
    {A : Type ℓ} (p : A → Bool) (xs : List A) → ((x : A) → Memᴰ x xs → p x ≡ true) → all p xs ≡ true
Mem-all p [] h = refl
Mem-all p (x ∷ xs) h = rw (h x (Memᴰ.head refl)) (Mem-all p xs (λ y k. h y (Memᴰ.tail k)))

pub Mem-any {ℓ} :
    {A : Type ℓ} (p : A → Bool) (xs : List A) {x : A} → Memᴰ x xs → p x ≡ true → any p xs ≡ true
Mem-any p [] k h = elim k [ ]
Mem-any p (x ∷ xs) (Memᴰ.head e) h = rw (subst (λ y. p y ≡ true) e h) refl
Mem-any p (x ∷ xs) (Memᴰ.tail k) h = elim (Bool-cases (p x)) [
  | inl e ↦ rw e refl
  | inr e ↦ rw e (Mem-any p xs k h)
]
