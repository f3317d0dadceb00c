-- ===== src/Waves/Compare/Times.antt =====
-- The times that `compare` looks at: all times of changes within the window, in strict order.
use chipchamp.Prelude.{
  ℕ, suc, ◌≤◌, ◌≡◌, refl, ap, ◌∙◌, Bool, true, false, ◌&&◌, ◌||◌, List, [], ◌∷◌, ◌++◌, leb, ltb,
  ◌==◌, arith, Bool-cases, inl, inr,
}
use chipchamp.Waves.Compare.{times_within, insert_time, sorted_times}

abbrev pub among : ℕ → List ℕ → Bool
among t [] = false
among t (u ∷ us) = t == u || among t us

pub among-append : (t : ℕ) (xs ys : List ℕ) → among t (xs ++ ys) ≡ (among t xs || among t ys)
among-append t [] ys = refl
among-append t (x ∷ xs) ys = ground (arith, among-append t xs ys)

pub among-times_within :
    (t t0 t1 : ℕ) (ts : List ℕ)
    → among t (times_within t0 t1 ts) ≡ (among t ts && (leb t0 t && leb t t1))
unfolding times_within
among-times_within t t0 t1 [] = refl
among-times_within t t0 t1 (u ∷ us) = ground (arith, among-times_within t t0 t1 us)

among-insert_time : (t u : ℕ) (us : List ℕ) → among t (insert_time u us) ≡ (t == u || among t us)
unfolding insert_time
among-insert_time t u [] = refl
among-insert_time t u (v ∷ us) = ground (arith, among-insert_time t u us)

pub among-sorted_times : (t : ℕ) (ts : List ℕ) → among t (sorted_times ts) ≡ among t ts
unfolding sorted_times
among-sorted_times t [] = refl
among-sorted_times t (u ∷ us) =
    among-insert_time t u (sorted_times us) ∙ ap (λ b. t == u || b) (among-sorted_times t us)

-- every element is above the bound and above those before it
abbrev pub Above : ℕ → List ℕ → Type 0
Above m [] = Unit
Above m (u ∷ us) = (m ≤ u) × Above (suc u) us

pub among-Above : (m t : ℕ) (us : List ℕ) → Above m us → among t us ≡ true → m ≤ t
among-Above m t [] a h = cc
among-Above m t (u ∷ us) a h = ground (arith, a.0, among-Above (suc u) t us a.1)

insert_time-Above : (m t : ℕ) (us : List ℕ) → m ≤ t → Above m us → Above m (insert_time t us)
unfolding insert_time
insert_time-Above m t [] le a = (le, tt)
insert_time-Above m t (u ∷ us) le a = elim (Bool-cases (ltb t u)) [
  | inl e ↦ rw e (le, (ground (arith, e), a.1))
  | inr e ↦ rw e (elim (Bool-cases (t == u)) [
    | inl s ↦ rw s a
    | inr s ↦ rw s (a.0, insert_time-Above (suc u) t us (ground (arith, e, s)) a.1)
  ])
]

pub sorted_times-Above : (ts : List ℕ) → Above 0 (sorted_times ts)
unfolding sorted_times
sorted_times-Above [] = tt
sorted_times-Above (t ∷ ts) =
    insert_time-Above 0 t (sorted_times ts) (omega arith) (sorted_times-Above ts)
