-- ===== src/Gather.antt =====
-- Python's `[y for x in xs for y in f(x)]`.
use mathlib.Core.List.{Memᴰ}
use mathlib.Core.List.Memᴰ
use chipchamp.Prelude.{refl, subst, inl, inr, List, [], ◌∷◌, ◌++◌}

abbrev pub gather {ℓ κ} : {A : Type ℓ} {B : Type κ} → (A → List B) → List A → List B
gather f [] = []
gather f (x ∷ xs) = f x ++ gather f xs

module _ {ℓ κ} {A : Type ℓ} {B : Type κ} where
  pub gather-in :
      (f : A → List B) (xs : List A) {y : B}
      → Memᴰ y (gather f xs)
      → (x : A) × Memᴰ x xs × Memᴰ y (f x)
  gather-in f [] h = absurd (Memᴰ.not-nil h)
  gather-in f (x ∷ xs) h = elim (Memᴰ.append_cases (f x) h) [
    | inl k ↦ (x, Memᴰ.head refl, k)
    | inr k ↦ let (z, at, l) = gather-in f xs k in (z, Memᴰ.tail at, l)
  ]

  pub gather-out :
      (f : A → List B) (xs : List A) {x : A} {y : B}
      → Memᴰ x xs
      → Memᴰ y (f x)
      → Memᴰ y (gather f xs)
  gather-out f [] h k = elim h [ ]
  gather-out f (x ∷ xs) {y = y} (Memᴰ.head e) k =
      Memᴰ.append_left (gather f xs) (subst (λ z. Memᴰ y (f z)) e k)
  gather-out f (x ∷ xs) (Memᴰ.tail h) k = Memᴰ.append_right (f x) (gather-out f xs h k)
