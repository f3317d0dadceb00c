-- ===== src/Dict/Laws.antt =====
-- What a dictionary answers after it was changed.
use chipchamp.Prelude.{
  ◌≡◌, refl, ◌∙◌, sym, subst, Bool, true, false, Option, none, some, [], ◌∷◌, Bool-cases, inl, inr,
  if◌then◌else◌,
}
use chipchamp.Text.{Text, text_eq, text_eq_sound, text_eq_refl, text_eq_sym}
use chipchamp.Dict.{Dict, get, put, update}

module _ {ℓ} {V : Type ℓ} where
  pub get-put :
      (i j : Text) (b : V) (d : Dict V)
      → get i (put j b d) ≡ (if text_eq j i then some b else get i d)
  unfolding get put
  get-put i j b [] = refl
  get-put i j b ((k, c) ∷ d) = elim (Bool-cases (text_eq k j)) [
    | inl e ↦ rw (text_eq_sound k j e) (rw (text_eq_refl j) (twice (text_eq j i) _ _ _))
    | inr e ↦ rw e (elim (Bool-cases (text_eq k i)) [
      | inl s ↦ rw s (rw (other k j i e s) refl)
      | inr s ↦ rw s (get-put i j b d)
    ])
  ]
    where
      twice :
          (t : Bool) (x y z : Option V)
          → (if t then x else z) ≡ (if t then x else (if t then y else z))
      twice true x y z = refl
      twice false x y z = refl

      other : (x y z : Text) → text_eq x y ≡ false → text_eq x z ≡ true → text_eq y z ≡ false
      other x y z h s = text_eq_sym y z ∙ rw (sym (text_eq_sound x z s)) h

module _ {V : Type 0} where
  -- no key comes twice
  abbrev pub Keyed : Dict V → Type 0
  Keyed [] = Unit
  Keyed ((k, v) ∷ d) = (get k d ≡ none) × Keyed d

  -- the first answer, or else the second
  abbrev pub or_else : Option V → Option V → Option V
  or_else none b = b
  or_else (some a) b = some a

  pub get-update :
      (k : Text) (d e : Dict V) → Keyed e → get k (update d e) ≡ or_else (get k e) (get k d)
  unfolding get update
  get-update k d [] h = refl
  get-update k d ((j, v) ∷ e) (n, h) =
      get-update k (put j v d) e h
      ∙ rw (get-put k j v d) (elim (Bool-cases (text_eq j k)) [
        | inl s ↦ rw (s, subst (λ i. get i e ≡ none) (text_eq_sound j k s) n)
        | inr s ↦ rw s
      ])
