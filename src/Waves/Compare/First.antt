-- ===== src/Waves/Compare/First.antt =====
-- chipchamp/waves/store.py: `compare` finds the first divergence, not just some.
use chipchamp.Prelude.{
  ℕ, zero, suc, ◌≤◌, ◌≡◌, refl, ap, ap₂, ◌∙◌, sym, Bool, true, false, ◌&&◌, ◌||◌, List, [], ◌∷◌,
  ◌++◌, leb, ltb, ◌==◌, ==_iff, Option, none, some, arith, Bool-cases, Option-cases, inl, inr,
  subst,
}
use chipchamp.Text.{Text, text_eq, text_eq_sound, any}
use chipchamp.Waves.Store.{WaveStore, value}
use chipchamp.Waves.Compare.{
  Divergence, signal_changes, changes_at, times_within, candidates, sorted_times, differs_at,
  first_of, first_divergence,
}
use chipchamp.Waves.Compare.Times.{
  among, among-append, among-times_within, among-sorted_times, Above, among-Above,
  sorted_times-Above,
}
use chipchamp.Waves.Compare.Signals.{
  Sorted, value-held, apart, held-step, held-zero, differs_at-none, differs_at-some, Differs,
  unwrap,
}

stays : (u : ℕ) → u ≤ u
stays u = omega arith

here : (u : ℕ) (us : List ℕ) → (u == u || among u us) ≡ true
here u us = ground arith

passed : {d u t : ℕ} → d ≡ u → u ≤ t → ltb t d ≡ true → ⊥
passed {d = d} {u = u} {t = t} e le h = ground arith

among-parts :
    (t t1 : ℕ) (xs ys zs : List ℕ)
    → leb t t1 ≡ true
    → among t (times_within 0 t1 xs ++ (times_within 0 t1 ys ++ zs))
      ≡ (among t xs || (among t ys || among t zs))
among-parts t t1 xs ys zs le =
    among-append t (times_within 0 t1 xs) _
    ∙ ap₂ (λ x y. x || y) (in_window xs)
        (among-append t (times_within 0 t1 ys) zs ∙ ap (λ x. x || among t zs) (in_window ys))
  where
    in_window : (ts : List ℕ) → among t (times_within 0 t1 ts) ≡ among t ts
    in_window ts = among-times_within t 0 t1 ts ∙ ground arith

module _ (a b : WaveStore) where
  -- What the outer loop has looked at when it stops: every time, or those before the divergence.
  abbrev pub settled : Option Divergence → ℕ → Bool
  settled none t = true
  settled (some d) t = ltb t d.time

  first_of-agree :
      (common : List Text) (m : ℕ) (ts : List ℕ) (t : ℕ) (p : Text)
      → Above m ts
      → settled (first_of a b common ts) t ≡ true
      → among t ts ≡ true
      → any (λ q. text_eq p q) common ≡ true
      → value a p t ≡ value b p t
  unfolding first_of
  first_of-agree common m [] t p h s k c = cc
  first_of-agree common m (u ∷ us) t p h s k c = elim (Option-cases (differs_at a b u common)) [
    | inr (d, e) ↦ absurd (
        passed (differs_at-some a b u common d e).1 (among-Above u t (u ∷ us) (stays u, h.1) k)
          (rw (e, settled, first_of) at s))
    | inl e ↦ elim (Bool-cases (t == u)) [
      | inl same ↦
          subst (λ x. value a p x ≡ value b p x) (sym ((==_iff t u).0 same))
            (differs_at-none a b u p common e c)
      | inr other ↦
          first_of-agree common (suc u) us t p h.1 (rw (e, settled, first_of) at s) (rw other at k)
            c
    ]
  ]

  first_of-some :
      (common : List Text) (ts : List ℕ) (d : Divergence)
      → first_of a b common ts ≡ some d
      → Differs a b common d × (among d.time ts ≡ true)
  unfolding first_of
  first_of-some common [] d h = cc
  first_of-some common (u ∷ us) d h = elim (Option-cases (differs_at a b u common)) [
    | inr (x, e) ↦
        let (r, s) = differs_at-some a b u common x e in
        subst (λ y. Differs a b common y × (among y.time (u ∷ us) ≡ true))
          (unwrap x d (rw (e, first_of) at h))
          (r, subst (λ z. among z (u ∷ us) ≡ true) (sym s) (here u us))
    | inl e ↦ let (r, s) = first_of-some common us d (rw (e, first_of) at h) in (r, ground arith)
  ]

  among-candidates :
      (t1 t : ℕ) (p : Text) (ps : List Text)
      → leb t t1 ≡ true
      → any (λ q. text_eq p q) ps ≡ true
      → (among t (changes_at a p) || among t (changes_at b p)) ≡ true
      → among t (candidates a b 0 t1 ps) ≡ true
  unfolding candidates
  among-candidates t1 t p [] le m h = cc
  among-candidates t1 t p (q ∷ qs) le m h =
      among-parts t t1 (changes_at a q) (changes_at b q) (candidates a b 0 t1 qs) le
      ∙ elim (Bool-cases (text_eq p q)) [
        | inl e ↦ near (among t (changes_at a q)) (among t (changes_at b q)) _ (
            subst (λ x. (among t (changes_at a x) || among t (changes_at b x)) ≡ true)
              (text_eq_sound p q e) h)
        | inr e ↦
            far (among t (changes_at a q)) (among t (changes_at b q)) _
              (among-candidates t1 t p qs le (rw e at m) h)
      ]
    where
      near : (x y z : Bool) → (x || y) ≡ true → (x || (y || z)) ≡ true
      near x y z k = ground arith

      far : (x y z : Bool) → z ≡ true → (x || (y || z)) ≡ true
      far x y z k = ground arith

  earlier : (r : Option Divergence) (t : ℕ) → settled r (suc t) ≡ true → settled r t ≡ true
  earlier none t h = refl
  earlier (some d) t h = ground arith

  among-window :
      (t0 t1 t : ℕ) (ps : List Text)
      → among t (candidates a b t0 t1 ps) ≡ true
      → leb t0 t && leb t t1 ≡ true
  unfolding candidates
  among-window t0 t1 t [] h = cc
  among-window t0 t1 t (p ∷ ps) h =
      one_of_three (among t (changes_at a p)) (among t (changes_at b p)) _ _
        (sym (
            among-append t (times_within t0 t1 (changes_at a p)) _
            ∙ ap₂ (λ x y. x || y) (among-times_within t t0 t1 (changes_at a p))
                (among-append t (times_within t0 t1 (changes_at b p)) (candidates a b t0 t1 ps)
                  ∙ ap (λ x. x || among t (candidates a b t0 t1 ps))
                      (among-times_within t t0 t1 (changes_at b p))))
          ∙ h)
        (among-window t0 t1 t ps)
    where
      one_of_three :
          (x y z w : Bool) → ((x && w) || ((y && w) || z)) ≡ true → (z ≡ true → w ≡ true) → w ≡ true
      one_of_three x y true w h f = f refl
      one_of_three x y false w h f = ground arith

  -- At a time when one of the two changes, the loop has compared the values.
  compared_at :
      (common : List Text) (t1 : ℕ) (p : Text) (t : ℕ)
      → any (λ q. text_eq p q) common ≡ true
      → leb t t1 ≡ true
      → settled (first_divergence a b common 0 t1) t ≡ true
      → (among t (changes_at a p) || among t (changes_at b p)) ≡ true
      → value a p t ≡ value b p t
  unfolding first_divergence
  compared_at common t1 p t c le s k =
      let cand = candidates a b 0 t1 common in
      first_of-agree common 0 (sorted_times cand) t p (sorted_times-Above cand) s
        (among-sorted_times t cand ∙ among-candidates t1 t p common le c k) c

  -- Compared over a window that begins at 0, two runs whose changes stand in ascending order agree
  -- on each compared signal at every time of the window before the divergence that is answered,
  -- and at every time of it if none is.
  pub first_divergence-agree :
      (common : List Text) (t1 : ℕ) (p : Text)
      → Sorted a
      → Sorted b
      → any (λ q. text_eq p q) common ≡ true
      → (t : ℕ) → leb t t1 ≡ true
      → settled (first_divergence a b common 0 t1) t ≡ true
      → value a p t ≡ value b p t
  first_divergence-agree common t1 p sa sb c zero le s =
      elim (Bool-cases (among 0 (changes_at a p) || among 0 (changes_at b p))) [
        | inl k ↦ compared_at common t1 p 0 c le s k
        | inr k ↦
            let (na, nb) = apart _ _ k in
            value-held a p 0 sa
            ∙ held-zero (signal_changes a p) na
            ∙ sym (value-held b p 0 sb ∙ held-zero (signal_changes b p) nb)
      ]
  first_divergence-agree common t1 p sa sb c (suc t) le s =
      let before = first_divergence-agree common t1 p sa sb c t (ground arith) (earlier _ t s) in
      elim (Bool-cases (among (suc t) (changes_at a p) || among (suc t) (changes_at b p))) [
        | inl k ↦ compared_at common t1 p (suc t) c le s k
        | inr k ↦
            let (na, nb) = apart _ _ k in
            value-held a p (suc t) sa
            ∙ held-step t none (signal_changes a p) na
            ∙ sym (value-held a p t sa)
            ∙ before
            ∙ (value-held b p t sb
                ∙ sym (value-held b p (suc t) sb ∙ held-step t none (signal_changes b p) nb))
      ]

  -- The answered divergence is one: its signal is among those compared, its time is in the window,
  -- and the two values are those of the runs at that time and are not the same.
  pub first_divergence-Differs :
      (common : List Text) (t0 t1 : ℕ) (d : Divergence)
      → first_divergence a b common t0 t1 ≡ some d
      → Differs a b common d × (leb t0 d.time && leb d.time t1 ≡ true)
  unfolding first_divergence
  first_divergence-Differs common t0 t1 d h =
      let (r, k) = first_of-some common (sorted_times (candidates a b t0 t1 common)) d h in
      (
        r,
        among-window t0 t1 d.time common
            (sym (among-sorted_times d.time (candidates a b t0 t1 common)) ∙ k),
      )
