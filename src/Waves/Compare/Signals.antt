-- ===== src/Waves/Compare/Signals.antt =====
-- chipchamp/waves/store.py: what `compare` sees of the signals at one time.
use chipchamp.Prelude.{
  ℕ, suc, ◌≡◌, refl, ap, ◌∙◌, Bool, true, false, ◌||◌, List, [], ◌∷◌, leb, ◌==◌, Option, none, some,
  if◌then◌else◌, arith, Bool-cases, inl, inr, subst,
}
use chipchamp.Text.{Text, text_eq, text_eq_sound, text_eq_refl, any}
use chipchamp.Waves.Vcd.{Change, id_for}
use chipchamp.Waves.Bisect.Splits.{Ascending}
use chipchamp.Waves.Store.{value_in, WaveStore, changes_of, times, value}
use chipchamp.Waves.Store.Held.{held, value_in-held}
use chipchamp.Waves.Compare.{Divergence, signal_changes, same_value, differs_at}
use chipchamp.Waves.Compare.Times.{among}

-- each signal's changes stand in ascending order of time
abbrev pub Sorted : WaveStore → Type 0
Sorted store = (code : Text) → Ascending (times (changes_of store code))

held_of :
    (store : WaveStore) (t : ℕ) (o : Option Text)
    → Sorted store
    → elim o [ none ↦ none | some code ↦ value_in (changes_of store code) t ]
      ≡ held (λ s. leb s t) none (elim o [ none ↦ [] | some code ↦ changes_of store code ])
held_of store t none h = unfold held in refl
held_of store t (some code) h = value_in-held (changes_of store code) t (h code)

pub value-held :
    (store : WaveStore) (p : Text) (t : ℕ)
    → Sorted store
    → value store p t ≡ held (λ s. leb s t) none (signal_changes store p)
unfolding value
value-held store p t h = held_of store t (id_for store.vcd p) h

pub apart : (x y : Bool) → x || y ≡ false → (x ≡ false) × (y ≡ false)
apart x y h = ground arith

same_side : (u s : ℕ) → (suc u == s) ≡ false → leb s (suc u) ≡ leb s u
same_side u s h = ground arith

above_zero : (s : ℕ) → (0 == s) ≡ false → leb s 0 ≡ false
above_zero s h = ground arith

pub held-step :
    (u : ℕ) (best : Option Text) (ch : List Change)
    → among (suc u) (times ch) ≡ false
    → held (λ s. leb s (suc u)) best ch ≡ held (λ s. leb s u) best ch
unfolding held
held-step u best [] h = refl
held-step u best ((s, v) ∷ ch) h =
    ap (λ c. held (λ z. leb z (suc u)) (if c then some v else best) ch)
      (same_side u s (apart _ _ h).0)
    ∙ held-step u (if leb s u then some v else best) ch (apart _ _ h).1

pub held-zero : (ch : List Change) → among 0 (times ch) ≡ false → held (λ s. leb s 0) none ch ≡ none
unfolding held
held-zero [] h = refl
held-zero ((s, v) ∷ ch) h =
    ap (λ c. held (λ z. leb z 0) (if c then some v else none) ch) (above_zero s (apart _ _ h).0)
    ∙ held-zero ch (apart _ _ h).1

same_value_sound : (v w : Option Text) → same_value v w ≡ true → v ≡ w
unfolding same_value
same_value_sound none none h = refl
same_value_sound none (some w) h = cc
same_value_sound (some v) none h = cc
same_value_sound (some v) (some w) h = ap some (text_eq_sound v w h)

pub no_divergence : (d : Divergence) → some d ≡ none → ⊥
no_divergence d h = cc

pub unwrap : (d e : Divergence) → some d ≡ some e → d ≡ e
unwrap d e h = ap (λ o. elim o [ none ↦ d | some x ↦ x ]) h

module _ (a b : WaveStore) where
  pub differs_at-none :
      (t : ℕ) (p : Text) (common : List Text)
      → differs_at a b t common ≡ none
      → any (λ q. text_eq p q) common ≡ true
      → value a p t ≡ value b p t
  unfolding differs_at
  differs_at-none t p [] h m = cc
  differs_at-none t p (q ∷ qs) h m = elim (Bool-cases (same_value (value a q t) (value b q t))) [
    | inr e ↦ absurd (no_divergence _ (rw e at h))
    | inl e ↦ elim (Bool-cases (text_eq p q)) [
      | inl s ↦ rw (text_eq_sound p q s) (same_value_sound _ _ e)
      | inr s ↦ differs_at-none t p qs (rw e at h) (rw s at m)
    ]
  ]

  -- the divergence is one at its time
  pub record Differs (common : List Text) (d : Divergence) : Type 0 where
    pub compared : any (λ q. text_eq d.signal q) common ≡ true
    pub left : d.value_a ≡ value a d.signal d.time
    pub right : d.value_b ≡ value b d.signal d.time
    pub unequal : same_value d.value_a d.value_b ≡ false

  widen : (p : Text) (ps : List Text) (d : Divergence) → Differs ps d → Differs (p ∷ ps) d
  widen p ps d h = record {
    compared = ground (arith, h.compared);
    left = h.left;
    right = h.right;
    unequal = h.unequal;
  }

  pub differs_at-some :
      (t : ℕ) (common : List Text) (d : Divergence)
      → differs_at a b t common ≡ some d
      → Differs common d × (d.time ≡ t)
  unfolding differs_at
  differs_at-some t [] d h = cc
  differs_at-some t (q ∷ qs) d h = elim (Bool-cases (same_value (value a q t) (value b q t))) [
    | inr e ↦
        subst (λ x. Differs (q ∷ qs) x × (x.time ≡ t)) (unwrap _ d (rw e at h))
          (
            record { compared = rw (text_eq_refl q) refl; left = refl; right = refl; unequal = e },
            refl,
          )
    | inl e ↦ let (r, s) = differs_at-some t qs d (rw e at h) in (widen q qs d r, s)
  ]
