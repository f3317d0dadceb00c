-- ===== src/Design/Slice/Reached.antt =====
-- chipchamp/design/cone.py: the signals of a slice are those that the walk can reach.
use mathlib.Core.List.{Memᴰ}
use mathlib.Core.List.Memᴰ
use chipchamp.Prelude.{
  ◌≡◌, refl, sym, ap, subst, ◌∙◌, ℕ, zero, suc, ◌<◌, arith, inl, inr, ◌⊎◌, ◌↔◌, true, false, Option,
  List, [], ◌∷◌, ◌++◌,
}
use chipchamp.Text.{Text, is_empty}
use chipchamp.Gather.{gather-in}
use chipchamp.Design.{Module}
use chipchamp.Design.Cone.{Driver, Direction, statements_of}
use chipchamp.Design.Slice.{State, fresh_round, rounds, start, origin, extract_cone}
use chipchamp.Design.Slice.Visits.{names, news, next, Visited, news-of}
use chipchamp.Design.Slice.Rounds.{
  nothing_left, minus-of, goes_on, after, left, round_ends, Closed, now_seen, was_seen, next-Closed,
  kept_on,
}

-- a number of steps along the statements
abbrev pub Steps : (Text → List Driver) → ℕ → Text → Text → Type 0
Steps step zero a b = a ≡ b
Steps step (suc k) a b = (c : Text) × Memᴰ c (next step a) × Steps step k c b

module _ (step : Text → List Driver) (domain_of : Text → Option Text) (max_stmts : ℕ) where
  -- along any steps in a closed set without a frontier
  inside :
      (st : State) (frontier : List Text) (k : ℕ) (a b : Text)
      → is_empty frontier ≡ true
      → Closed step domain_of max_stmts frontier st
      → Memᴰ a st.seen
      → Steps step k a b
      → Memᴰ b st.seen
  inside st frontier zero a b h closed m e = Memᴰ.cast (sym e) m
  inside st frontier (suc k) a b h closed m (c, at, steps) = elim (closed a c m at) [
    | inl i ↦ inside st frontier k c b h closed i steps
    | inr i ↦ absurd (nothing_left frontier h i)
  ]

  complete :
      (n : ℕ) (frontier : List Text) (st : State) (k : ℕ) (a b : Text)
      → (rounds step domain_of max_stmts n frontier st).truncated ≡ false
      → Closed step domain_of max_stmts frontier st
      → Memᴰ a st.seen ⊎ Memᴰ a frontier
      → k < n
      → Steps step k a b
      → Memᴰ b (rounds step domain_of max_stmts n frontier st).seen
  complete zero frontier st k a b h closed at less steps = absurd (omega arith)
  complete (suc n) frontier st zero a b h closed at less steps =
      let (v, e) = round_ends step domain_of max_stmts n frontier st h in
      Memᴰ.cast (sym steps) (
        kept_on step domain_of max_stmts n frontier st h
          (now_seen step domain_of max_stmts frontier st a v at))
  complete (suc n) frontier st (suc k) a b h closed at less (c, on_way, steps) =
      let (v, e) = round_ends step domain_of max_stmts n frontier st h in
      let here = now_seen step domain_of max_stmts frontier st a v at in
      let closed_now = next-Closed step domain_of max_stmts frontier st v closed in
      elim e [
        | inl (none_left, same) ↦
            subst (λ (r : State). Memᴰ b r.seen) (sym same)
              (inside (after step domain_of max_stmts frontier st)
                (left step domain_of max_stmts frontier st) (suc k) a b none_left closed_now here
                (c, on_way, steps))
        | inr on ↦
            subst (λ (r : State). Memᴰ b r.seen) (sym on)
              (complete n (left step domain_of max_stmts frontier st)
                (after step domain_of max_stmts frontier st) k c b (goes_on on h) closed_now
                (closed_now a c here on_way) (omega arith) steps)
      ]

  -- some steps from the frontier
  abbrev From : ℕ → List Text → Text → Type 0
  From n frontier b = (a : Text) × Memᴰ a frontier × (k : ℕ) × (k < n) × Steps step k a b

  first_seen :
      (n : ℕ) (frontier : List Text) (st : State) (b : Text)
      → Visited step domain_of max_stmts frontier
          (fresh_round step domain_of max_stmts st)
          (after step domain_of max_stmts frontier st)
      → Memᴰ b (after step domain_of max_stmts frontier st).seen
      → Memᴰ b st.seen ⊎ From (suc n) frontier b
  first_seen n frontier st b v m = elim (was_seen step domain_of max_stmts frontier st b v m) [
    | inl old ↦ inl old
    | inr new ↦ inr (b, news-of frontier st.seen new, 0, omega arith, refl)
  ]

  further :
      (n : ℕ) (frontier : List Text) (st : State) (b : Text)
      → Visited step domain_of max_stmts frontier
          (fresh_round step domain_of max_stmts st)
          (after step domain_of max_stmts frontier st)
      → From n (left step domain_of max_stmts frontier st) b
      → From (suc n) frontier b
  further n frontier st b v (a, at, k, less, steps) =
      let next_at =
        subst (λ l. Memᴰ a l) v.nxt
          (minus-of (after step domain_of max_stmts frontier st).nxt
            (after step domain_of max_stmts frontier st).seen at) in
      let (s, m, l) = gather-in (next step) (news frontier st.seen) next_at in
      (s, news-of frontier st.seen m, suc k, omega (arith, less), (a, l, steps))

  sound :
      (n : ℕ) (frontier : List Text) (st : State) (b : Text)
      → (rounds step domain_of max_stmts n frontier st).truncated ≡ false
      → Memᴰ b (rounds step domain_of max_stmts n frontier st).seen
      → Memᴰ b st.seen ⊎ From n frontier b
  unfolding rounds
  sound zero frontier st b h m = inl m
  sound (suc n) frontier st b h m =
      let (v, e) = round_ends step domain_of max_stmts n frontier st h in
      elim e [
        | inl (none_left, same) ↦
            first_seen n frontier st b v (subst (λ (r : State). Memᴰ b r.seen) same m)
        | inr on ↦
            elim (sound n (left step domain_of max_stmts frontier st)
              (after step domain_of max_stmts frontier st) b (goes_on on h)
              (subst (λ (r : State). Memᴰ b r.seen) on m)) [
                | inl i ↦ first_seen n frontier st b v i
                | inr f ↦ inr (further n frontier st b v f)
              ]
      ]

  names_seen :
      (n : ℕ) (frontier : List Text) (st : State)
      → (rounds step domain_of max_stmts n frontier st).truncated ≡ false
      → names st.signals ≡ st.seen
      → names (rounds step domain_of max_stmts n frontier st).signals
        ≡ (rounds step domain_of max_stmts n frontier st).seen
  unfolding rounds
  names_seen zero frontier st h e = e
  names_seen (suc n) frontier st h same =
      let (v, e) = round_ends step domain_of max_stmts n frontier st h in
      let now = v.listed ∙ (ap (λ l. l ++ news frontier st.seen) same ∙ sym v.seen) in
      elim e [
        | inl (none_left, at_end) ↦ subst (λ (r : State). names r.signals ≡ r.seen) (sym at_end) now
        | inr on ↦
            subst (λ (r : State). names r.signals ≡ r.seen) (sym on)
              (names_seen n (left step domain_of max_stmts frontier st)
                (after step domain_of max_stmts frontier st) (goes_on on h) now)
      ]

-- If the slice is not cut short, its signals are those that a number of steps below the depth reaches
-- from the signal asked about, along the statements that drive a signal, or that read it.
pub extract_cone-Steps :
    (port_dir : Text → Text → Option Text) (domain_of : Text → Option Text) (m : Module)
    (sig : Text) (dir : Direction) (depth max_stmts : ℕ) (t : Text)
    → (extract_cone port_dir domain_of m sig dir depth max_stmts).truncated ≡ false
    → Memᴰ t (names (extract_cone port_dir domain_of m sig dir depth max_stmts).signals)
      ↔ ((k : ℕ) × (k < depth) × Steps (λ s. statements_of port_dir dir m s) k (origin sig) t)
unfolding extract_cone
extract_cone-Steps port_dir domain_of m sig dir depth max_stmts t h =
    let step = λ (s : Text). statements_of port_dir dir m s in
    let same = names_seen step domain_of max_stmts depth (origin sig ∷ []) start h refl in
    (
      λ i.
          elim (sound step domain_of max_stmts depth (origin sig ∷ []) start t h
            (subst (λ l. Memᴰ t l) same i)) [
              | inl none_yet ↦ absurd (Memᴰ.not-nil none_yet)
              | inr (a, at, k, less, steps) ↦
                  (k, less, subst (λ z. Steps step k z t) (Memᴰ.eq_of_singleton at) steps)
            ],
      λ (k, less, steps).
          subst (λ l. Memᴰ t l) (sym same)
            (complete step domain_of max_stmts depth (origin sig ∷ []) start k (origin sig) t h
              (λ a b at. absurd (Memᴰ.not-nil at)) (inr (Memᴰ.head refl)) less steps),
    )
