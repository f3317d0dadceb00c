-- ===== src/Design/Slice/Rounds.antt =====
-- chipchamp/design/cone.py: what was seen after a round of the walk, and how the walk goes on.
use mathlib.Core.List.{Memᴰ}
use mathlib.Core.List.Memᴰ
use chipchamp.Prelude.{
  ◌≡◌, refl, sym, subst, ◌∙◌, ℕ, zero, suc, inl, inr, ◌⊎◌, Bool, true, false, ◌||◌, Option, List,
  [], ◌∷◌, Bool-cases, false_is_true, if◌then◌else◌,
}
use chipchamp.Text.{Text, is_empty}
use chipchamp.Gather.{gather-out}
use chipchamp.Design.Cone.{Driver, mem}
use chipchamp.Design.Slice.{State, minus, visit, fresh_round, rounds}
use chipchamp.Design.Slice.Visits.{news, next, Visited, visit-Visited, mem-in, seen_or_new}

pub minus-of : (ts seen : List Text) {t : Text} → Memᴰ t (minus ts seen) → Memᴰ t ts
minus-of [] seen m = elim m [ ]
minus-of (s ∷ ss) seen m = elim (Bool-cases (mem s seen)) [
  | inl e ↦ Memᴰ.tail (minus-of ss seen (rw e at m))
  | inr e ↦ elim (Memᴰ.cases_cons (rw e at m)) [
    | inl h ↦ Memᴰ.head h
    | inr h ↦ Memᴰ.tail (minus-of ss seen h)
  ]
]

seen_or_left : (ts seen : List Text) {t : Text} → Memᴰ t ts → Memᴰ t seen ⊎ Memᴰ t (minus ts seen)
seen_or_left [] seen m = elim m [ ]
seen_or_left (s ∷ ss) seen (Memᴰ.head e) = elim (Bool-cases (mem s seen)) [
  | inl h ↦ inl (Memᴰ.cast e (mem-in s seen h))
  | inr h ↦ inr (rw h (Memᴰ.head e))
]
seen_or_left (s ∷ ss) seen (Memᴰ.tail m) = elim (seen_or_left ss seen m) [
  | inl k ↦ inl k
  | inr k ↦ elim (Bool-cases (mem s seen)) [
    | inl h ↦ inr (rw h k)
    | inr h ↦ inr (rw h (Memᴰ.tail k))
  ]
]

pub nothing_left : (ts : List Text) {t : Text} → is_empty ts ≡ true → Memᴰ t ts → ⊥
unfolding is_empty
nothing_left [] h m = Memᴰ.not-nil m
nothing_left (t ∷ ts) h m = false_is_true h

-- how a round ends
ends :
    (t e : Bool) (x y : State)
    → x.truncated ≡ t
    → (if t || e then x else y).truncated ≡ false
    → (x.truncated ≡ false)
      × (((e ≡ true) × ((if t || e then x else y) ≡ x)) ⊎ ((if t || e then x else y) ≡ y))
ends true e x y q h = absurd (false_is_true (sym h ∙ q))
ends false true x y q h = (q, inl (refl, refl))
ends false false x y q h = (q, inr refl)

pub goes_on : {r s : State} → r ≡ s → r.truncated ≡ false → s.truncated ≡ false
goes_on e h = subst (λ (x : State). x.truncated ≡ false) e h

module _ (step : Text → List Driver) (domain_of : Text → Option Text) (max_stmts : ℕ) where
  abbrev pub behind_of : Text → List Text
  behind_of s = next step s

  abbrev pub after : List Text → State → State
  after frontier st =
      visit step domain_of max_stmts frontier (fresh_round step domain_of max_stmts st)

  abbrev pub left : List Text → State → List Text
  left frontier st = minus (after frontier st).nxt (after frontier st).seen

  -- how the walk goes on after a round
  abbrev pub Ended : ℕ → List Text → State → Type 0
  Ended n frontier st =
      ((is_empty (left frontier st) ≡ true)
        × (rounds step domain_of max_stmts (suc n) frontier st ≡ after frontier st))
      ⊎ (rounds step domain_of max_stmts (suc n) frontier st
          ≡ rounds step domain_of max_stmts n (left frontier st) (after frontier st))

  pub round_ends :
      (n : ℕ) (frontier : List Text) (st : State)
      → (rounds step domain_of max_stmts (suc n) frontier st).truncated ≡ false
      → Visited step domain_of max_stmts frontier
          (fresh_round step domain_of max_stmts st)
          (after frontier st)
        × Ended n frontier st
  unfolding rounds
  round_ends n frontier st h =
      let (q, e) =
        ends (after frontier st).truncated (is_empty (left frontier st)) (after frontier st)
          (rounds step domain_of max_stmts n (left frontier st) (after frontier st)) refl h in
      (
        visit-Visited step domain_of max_stmts frontier (fresh_round step domain_of max_stmts st) q,
        e,
      )

  -- what was seen stays seen
  pub stays :
      (n : ℕ) (frontier : List Text) (st : State) {t : Text}
      → (rounds step domain_of max_stmts n frontier st).truncated ≡ false
      → Memᴰ t st.seen
      → Memᴰ t (rounds step domain_of max_stmts n frontier st).seen
  unfolding rounds
  stays zero frontier st h m = m
  stays (suc n) frontier st {t} h m =
      let (v, e) = round_ends n frontier st h in
      let now = subst (λ l. Memᴰ t l) (sym v.seen) (Memᴰ.append_left (news frontier st.seen) m) in
      elim e [
        | inl (none_left, same) ↦ subst (λ (r : State). Memᴰ t r.seen) (sym same) now
        | inr on ↦
            subst (λ (r : State). Memᴰ t r.seen) (sym on)
              (stays n (left frontier st) (after frontier st) (goes_on on h) now)
      ]

  -- what stands behind a signal that was seen was seen, or is on the frontier
  abbrev pub Closed : List Text → State → Type 0
  Closed frontier st =
      (s t : Text) → Memᴰ s st.seen → Memᴰ t (behind_of s) → Memᴰ t st.seen ⊎ Memᴰ t frontier

  -- after a round what was seen or on the frontier was seen
  pub now_seen :
      (frontier : List Text) (st : State) (t : Text)
      → Visited step domain_of max_stmts frontier
          (fresh_round step domain_of max_stmts st)
          (after frontier st)
      → Memᴰ t st.seen ⊎ Memᴰ t frontier
      → Memᴰ t (after frontier st).seen
  now_seen frontier st t v (inl m) =
      subst (λ l. Memᴰ t l) (sym v.seen) (Memᴰ.append_left (news frontier st.seen) m)
  now_seen frontier st t v (inr m) =
      subst (λ l. Memᴰ t l) (sym v.seen) (seen_or_new frontier st.seen m)

  -- and who was seen after a round was seen before or stood on the frontier
  pub was_seen :
      (frontier : List Text) (st : State) (t : Text)
      → Visited step domain_of max_stmts frontier
          (fresh_round step domain_of max_stmts st)
          (after frontier st)
      → Memᴰ t (after frontier st).seen
      → Memᴰ t st.seen ⊎ Memᴰ t (news frontier st.seen)
  was_seen frontier st t v m = Memᴰ.append_cases st.seen (subst (λ l. Memᴰ t l) v.seen m)

  pub next-Closed :
      (frontier : List Text) (st : State)
      → Visited step domain_of max_stmts frontier
          (fresh_round step domain_of max_stmts st)
          (after frontier st)
      → Closed frontier st
      → Closed (left frontier st) (after frontier st)
  next-Closed frontier st v closed s t m b = elim (was_seen frontier st s v m) [
    | inl old ↦ inl (now_seen frontier st t v (closed s t old b))
    | inr new ↦
        seen_or_left (after frontier st).nxt (after frontier st).seen
          (subst (λ l. Memᴰ t l) (sym v.nxt) (gather-out behind_of (news frontier st.seen) new b))
  ]

  pub kept_on :
      (n : ℕ) (frontier : List Text) (st : State) {t : Text}
      → (rounds step domain_of max_stmts (suc n) frontier st).truncated ≡ false
      → Memᴰ t (after frontier st).seen
      → Memᴰ t (rounds step domain_of max_stmts (suc n) frontier st).seen
  kept_on n frontier st {t} h m =
      let (v, e) = round_ends n frontier st h in
      elim e [
        | inl (none_left, same) ↦ subst (λ (r : State). Memᴰ t r.seen) (sym same) m
        | inr on ↦
            subst (λ (r : State). Memᴰ t r.seen) (sym on)
              (stays n (left frontier st) (after frontier st) (goes_on on h) m)
      ]
