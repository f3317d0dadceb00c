-- ===== src/Policy/Gates/Latest.antt =====
-- `_latest_sims`: the latest simulation of each identity, in submission order.
use chipchamp.Prelude.{
  ℕ, ◌≡◌, refl, ap, ◌∙◌, ◌↔◌, sym, subst, inl, inr, Bool, true, ◌&&◌, Option, none, some, List, [],
  ◌∷◌, map, arith, if◌then◌else◌, Bool-cases, and_parts,
}
use chipchamp.Text.{Text, codes, text_eq_refl, text_eq_sound, all}
use chipchamp.Jobs.Record.{JobRecord, is_passed}
use chipchamp.Policy.Gates.Data.{Evidence, jobs_of, last_job}
use chipchamp.Policy.Gates.Sims.{
  Identity, named, by_path, seed_eq, identity_eq, sim_identity, record_sim, record_sims,
  latest_sims,
}

seed_eq_sound : (a b : Option ℕ) → seed_eq a b ≡ true → a ≡ b
seed_eq_sound none none h = refl
seed_eq_sound (some a) (some b) h = ground arith
seed_eq_sound none (some b) h = cc
seed_eq_sound (some a) none h = cc

seed_eq_refl : (a : Option ℕ) → seed_eq a a ≡ true
seed_eq_refl none = refl
seed_eq_refl (some a) = ground arith

pub identity_eq_sound : (a b : Identity) → identity_eq a b ≡ true → a ≡ b
unfolding identity_eq
identity_eq_sound (named t n s c) (named t' n' s' c') h =
    ground (arith, text_eq_sound t t', text_eq_sound n n', seed_eq_sound s s', text_eq_sound c c')
identity_eq_sound (by_path p s) (by_path p' s') h =
    ground (arith, text_eq_sound p p', seed_eq_sound s s')
identity_eq_sound (named t n s c) (by_path p' s') h = cc
identity_eq_sound (by_path p s) (named t n s' c) h = cc

pub identity_eq_refl : (a : Identity) → identity_eq a a ≡ true
unfolding identity_eq
identity_eq_refl (named t n s c) =
    ground (arith, text_eq_refl t, text_eq_refl n, seed_eq_refl s, text_eq_refl c)
identity_eq_refl (by_path p s) = ground (arith, text_eq_refl p, seed_eq_refl s)

pub lookup_sim : Identity → List (Identity × JobRecord) → Option JobRecord
lookup_sim k [] = none
lookup_sim k ((i, j) ∷ by) = if identity_eq i k then some j else lookup_sim k by

abbrev or_else : Option JobRecord → Option JobRecord → Option JobRecord
or_else none o = o
or_else (some j) o = some j

last_of-cons :
    (j : JobRecord) (js : List JobRecord) (o : Option JobRecord)
    → or_else (last_job js) (some j) ≡ or_else (last_job (j ∷ js)) o
last_of-cons j [] o = refl
last_of-cons j (k ∷ []) o = refl
last_of-cons j (k ∷ l ∷ js) o = last_of-cons j (l ∷ js) o

or_else-none : (o : Option JobRecord) → or_else o none ≡ o
or_else-none none = refl
or_else-none (some j) = refl

and_true : {a b : Bool} → a ≡ true → b ≡ true → a && b ≡ true
and_true p q = ground arith

module _ (realpath : Text → Text) where
  -- the simulations of one identity
  pub with_identity : Identity → List JobRecord → List JobRecord
  with_identity k [] = []
  with_identity k (j ∷ js) =
      let rest = with_identity k js in
      if identity_eq (sim_identity realpath j) k then j ∷ rest else rest

  lookup-record_sim :
      (k : Identity) (j : JobRecord) (by : List (Identity × JobRecord))
      → lookup_sim k (record_sim realpath j by)
        ≡ (if identity_eq (sim_identity realpath j) k then some j else lookup_sim k by)
  unfolding lookup_sim record_sim
  lookup-record_sim k j [] = refl
  lookup-record_sim k j ((i, old) ∷ by) =
      elim (Bool-cases (identity_eq i (sim_identity realpath j))) [
        | inl e ↦ rw e (ground (arith, identity_eq_sound i (sim_identity realpath j)))
        | inr e ↦ rw e (
            rw (lookup-record_sim k j by) (
              ground (
                arith,
                identity_eq_sound i k,
                identity_eq_sound (sim_identity realpath j) k,
                identity_eq_refl k,
              )))
      ]

  last-cons :
      (k : Identity) (j : JobRecord) (js : List JobRecord) (o : Option JobRecord)
      → or_else
          (last_job (with_identity k js))
          (if identity_eq (sim_identity realpath j) k then some j else o)
        ≡ or_else (last_job (with_identity k (j ∷ js))) o
  unfolding with_identity
  last-cons k j js o = elim (Bool-cases (identity_eq (sim_identity realpath j) k)) [
    | inl e ↦ rw e (last_of-cons j (with_identity k js) o)
    | inr e ↦ rw e refl
  ]

  lookup-record_sims :
      (k : Identity) (by : List (Identity × JobRecord)) (js : List JobRecord)
      → lookup_sim k (record_sims realpath by js)
        ≡ or_else (last_job (with_identity k js)) (lookup_sim k by)
  unfolding record_sims with_identity
  lookup-record_sims k by [] = refl
  lookup-record_sims k by (j ∷ js) =
      lookup-record_sims k (record_sim realpath j by) js
      ∙ (ap (or_else (last_job (with_identity k js))) (lookup-record_sim k j by)
          ∙ last-cons k j js (lookup_sim k by))

  -- No identity has two entries.
  abbrev pub Distinct : List (Identity × JobRecord) → Type 0
  Distinct [] = Unit
  Distinct ((i, j) ∷ by) = (lookup_sim i by ≡ none) × Distinct by

  record_sim-Distinct :
      (j : JobRecord) (by : List (Identity × JobRecord))
      → Distinct by
      → Distinct (record_sim realpath j by)
  unfolding record_sim lookup_sim
  record_sim-Distinct j [] d = (refl, tt)
  record_sim-Distinct j ((i, old) ∷ by) d =
      elim (Bool-cases (identity_eq i (sim_identity realpath j))) [
        | inl e ↦ rw e d
        | inr e ↦ rw e (
          lookup-record_sim i j by
              ∙ ground
                  (arith, identity_eq_sound (sim_identity realpath j) i, identity_eq_refl i, d.0),
          record_sim-Distinct j by d.1,
        )
      ]

  record_sims-Distinct :
      (by : List (Identity × JobRecord)) (js : List JobRecord)
      → Distinct by
      → Distinct (record_sims realpath by js)
  unfolding record_sims
  record_sims-Distinct by [] d = d
  record_sims-Distinct by (j ∷ js) d =
      record_sims-Distinct (record_sim realpath j by) js (record_sim-Distinct j by d)

  abbrev pub Passes : Option JobRecord → Type 0
  Passes none = Unit
  Passes (some j) = is_passed j.status ≡ true

  -- Where no identity has two entries, all entries pass as soon as every lookup does.
  all-lookup :
      (by : List (Identity × JobRecord))
      → Distinct by
      → ((k : Identity) → Passes (lookup_sim k by))
      → all (λ j. is_passed j.status) (map (λ e. e.1) by) ≡ true
  unfolding lookup_sim
  all-lookup [] d h = refl
  all-lookup ((i, j) ∷ by) d h =
      and_true
        (subst (λ b. Passes (if b then some j else lookup_sim i by)) (identity_eq_refl i) (h i))
        (all-lookup by d.1 (λ k. elim (Bool-cases (identity_eq i k)) [
          | inl e ↦ subst Passes (ap (λ x. lookup_sim x by) (identity_eq_sound i k e)) (rw d.0 tt)
          | inr e ↦ rw e at (h k)
        ]))

  lookup-all :
      (by : List (Identity × JobRecord))
      → all (λ j. is_passed j.status) (map (λ e. e.1) by) ≡ true
      → (k : Identity) → Passes (lookup_sim k by)
  unfolding lookup_sim
  lookup-all [] h k = tt
  lookup-all ((i, j) ∷ by) h k = elim (Bool-cases (identity_eq i k)) [
    | inl e ↦ rw e (and_parts (is_passed j.status) _ h).0
    | inr e ↦ rw e (lookup-all by (and_parts (is_passed j.status) _ h).1 k)
  ]

  abbrev pub sims : Evidence → List JobRecord
  sims ev = jobs_of (codes "sim") ev

  abbrev pub last_run : Evidence → Identity → Option JobRecord
  last_run ev k = last_job (with_identity k (sims ev))

  lookup-last_run :
      (ev : Evidence) (k : Identity)
      → lookup_sim k (record_sims realpath [] (sims ev)) ≡ last_run ev k
  unfolding lookup_sim
  lookup-last_run ev k = lookup-record_sims k [] (sims ev) ∙ or_else-none (last_run ev k)

  -- The simulations that the gates judge all passed exactly if, for each testbench identity, the
  -- last simulation submitted under it passed: a failure is forgotten when a later run of the same
  -- test passes, and a pass is withdrawn when a later run fails, whatever the time stamps.
  pub latest_sims-passed :
      (ev : Evidence)
      → (all (λ j. is_passed j.status) (latest_sims realpath ev) ≡ true)
        ↔ ((k : Identity) → Passes (last_run ev k))
  unfolding latest_sims
  latest_sims-passed ev = (
    λ h k. subst Passes (lookup-last_run ev k) (lookup-all (record_sims realpath [] (sims ev)) h k),
    λ h.
        all-lookup (record_sims realpath [] (sims ev)) (record_sims-Distinct [] (sims ev) tt)
          (λ k. subst Passes (sym (lookup-last_run ev k)) (h k)),
  )
