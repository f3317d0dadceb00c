-- ===== src/Physical/Sweep/Frontier.antt =====
-- chipchamp/physical/sweep.py: what `pareto` marks, and that the marked points beat all others.
use mathlib.Core.List.{Memᴰ}
use chipchamp.Prelude.{
  ℕ, some, get_elem?, zero, suc, ◌+◌, ◌≤◌, ◌<◌, ◌≡◌, refl, sym, ap, subst, ◌∙◌, inl, inr, ◌↔◌, Bool,
  true, false, not, ◌&&◌, List, [], ◌∷◌, ◌==◌, ==_iff, arith, Bool-cases, and_parts, false_is_true,
  if◌then◌else◌,
}
use chipchamp.Text.{Text}
use chipchamp.Physical.Sweep.Beats.{Beats, beats-Beats}
use chipchamp.Physical.Sweep.{Goal, Point, beats, dominated, mark, pareto}
use chipchamp.Physical.Sweep.Order.{beats_trans, beats_irrefl, or_cases, or_right}

counted :
    (a b : Bool) (m n : ℕ)
    → (a ≡ true → b ≡ true)
    → m ≤ n
    → (if a then suc m else m) ≤ (if b then suc n else n)
counted true true m n f h = omega arith
counted true false m n f h = cc (f refl)
counted false true m n f h = omega arith
counted false false m n f h = h

counted_more :
    (a b : Bool) (m n : ℕ)
    → (a ≡ true → b ≡ true)
    → m < n
    → (if a then suc m else m) < (if b then suc n else n)
counted_more true true m n f h = omega arith
counted_more true false m n f h = cc (f refl)
counted_more false true m n f h = omega arith
counted_more false false m n f h = h

module _ (axes : List (Text × Goal)) where
  -- how many points beat one
  unfoldable pub beaters : Point → List Point → ℕ
  beaters p [] = 0
  beaters p (q ∷ qs) = if beats axes q p then suc (beaters p qs) else beaters p qs

  fewer : (p q : Point) (qs : List Point) → beats axes q p ≡ true → beaters q qs ≤ beaters p qs
  unfolding beaters
  fewer p q [] h = omega arith
  fewer p q (r ∷ rs) h =
      let rest = fewer p q rs h in
      let through = λ (e : beats axes r q ≡ true). beats_trans axes r q p e h in
      counted (beats axes r q) (beats axes r p) _ _ through rest

  less :
      (p q : Point) (qs : List Point)
      → beats axes q p ≡ true
      → Memᴰ q qs
      → beaters q qs < beaters p qs
  unfolding beaters
  less p q [] h m = elim m [ ]
  less p q (r ∷ rs) h (Memᴰ.head e) =
      let rest = fewer p q rs h in
      let self = subst (λ x. beats axes x q ≡ false) e (beats_irrefl axes q) in
      let other = subst (λ x. beats axes x p ≡ true) e h in rw (self, other) (omega arith)
  less p q (r ∷ rs) h (Memᴰ.tail m) =
      let rest = less p q rs h m in
      counted_more (beats axes r q) (beats axes r p) _ _ (λ e. beats_trans axes r q p e h) rest

  -- `dominated` finds a point that beats, and misses none, if the point at place `i` is the one asked
  -- about
  dominated-beats :
      (i : ℕ) (p : Point) (j : ℕ) (qs : List Point)
      → dominated axes i p j qs ≡ true
      → (q : Point) × Memᴰ q qs × (beats axes q p ≡ true)
  unfolding dominated
  dominated-beats i p j [] h = cc
  dominated-beats i p j (q ∷ qs) h = elim (or_cases (not (j == i) && beats axes q p) _ h) [
    | inl e ↦ (q, Memᴰ.head refl, (and_parts (not (j == i)) _ e).1)
    | inr e ↦ let (r, m, k) = dominated-beats i p (j + 1) qs e in (r, Memᴰ.tail m, k)
  ]

  beats-dominated :
      (i : ℕ) (p : Point) (j : ℕ) (qs : List Point) (q : Point)
      → ((k : ℕ) (r : Point) → get_elem? qs k ≡ some r → j + k ≡ i → r ≡ p)
      → Memᴰ q qs
      → beats axes q p ≡ true
      → dominated axes i p j qs ≡ true
  unfolding dominated
  beats-dominated i p j [] q own m h = elim m [ ]
  beats-dominated i p j (r ∷ rs) q own (Memᴰ.head e) h = elim (Bool-cases (j == i)) [
    | inl same ↦
        let is = own 0 r refl (omega (arith, (==_iff j i).0 same)) in
        absurd (
          false_is_true (sym (beats_irrefl axes p) ∙ subst (λ x. beats axes x p ≡ true) (e ∙ is) h))
    | inr other ↦ rw (other, subst (λ x. beats axes x p ≡ true) e h)
  ]
  beats-dominated i p j (r ∷ rs) q own (Memᴰ.tail m) h =
      or_right (not (j == i) && beats axes r p) _
        (beats-dominated i p (j + 1) rs q (λ k s e f. own (suc k) s e (omega (arith, f))) m h)

  -- no point of a list beats one
  abbrev Unbeaten : List Point → Point → Type 0
  Unbeaten points p = (q : Point) → Memᴰ q points → beats axes q p ≡ false

  -- what a mark says
  abbrev Says : List Point → Point → Bool → Type 0
  Says points p true = Unbeaten points p
  Says points p false = (q : Point) × Memᴰ q points × (beats axes q p ≡ true)

  said :
      (points : List Point) (p : Point) (b : Bool)
      → (b ≡ true → (q : Point) × Memᴰ q points × (beats axes q p ≡ true))
      → ((q : Point) → Memᴰ q points → beats axes q p ≡ true → b ≡ true)
      → Says points p (not b)
  said points p true f g = f refl
  said points p false f g = λ q m. elim (Bool-cases (beats axes q p)) [
    | inl e ↦ absurd (false_is_true (g q m e))
    | inr e ↦ e
  ]

  module _ (points : List Point) where
    -- the rest of the points stands at place `i`
    abbrev At : ℕ → List Point → Type 0
    At i ps = (k : ℕ) (r : Point) → get_elem? ps k ≡ some r → get_elem? points (i + k) ≡ some r

    own_place :
        (i k : ℕ) (q r : Point)
        → get_elem? points (i + 0) ≡ some q
        → get_elem? points k ≡ some r
        → 0 + k ≡ i
        → r ≡ q
    own_place i k q r a s f =
        let here : k ≡ i + 0 = omega (arith, f) in
        let there = subst (λ n. get_elem? points n ≡ some r) here s in cc there

    mark-Says :
        (i : ℕ) (ps : List Point) {p : Point} {b : Bool}
        → At i ps
        → Memᴰ (p, b) (mark axes points i ps)
        → Says points p b
    unfolding mark
    mark-Says i [] at m = elim m [ ]
    mark-Says i (q ∷ qs) {p} {b} at (Memᴰ.head e) =
        subst (λ x. Says points x.0 x.1) (sym e)
          (said points q (dominated axes i q 0 points) (dominated-beats i q 0 points) (λ r m.
            beats-dominated i q 0 points r (λ k s g f. own_place i k q s (at 0 q refl) g f) m))
    mark-Says i (q ∷ qs) at (Memᴰ.tail m) =
        mark-Says (i + 1) qs
          (λ k r s. subst (λ n. get_elem? points n ≡ some r) (omega arith) (at (suc k) r s)) m

    whole : At 0 points
    whole k r s =
        let same : k ≡ 0 + k = omega arith in subst (λ n. get_elem? points n ≡ some r) same s

    marked :
        (i : ℕ) (ps : List Point) {q : Point}
        → Memᴰ q ps
        → (b : Bool) × Memᴰ (q, b) (mark axes points i ps)
    unfolding mark
    marked i [] m = elim m [ ]
    marked i (p ∷ ps) (Memᴰ.head e) =
        (_, Memᴰ.head (ap (λ x. (x, not (dominated axes i p 0 points))) e))
    marked i (p ∷ ps) (Memᴰ.tail m) = let (b, at) = marked (i + 1) ps m in (b, Memᴰ.tail at)

    -- a marked point beats one
    abbrev Topped : Point → Type 0
    Topped p = (s : Point) × Memᴰ (s, true) (mark axes points 0 points) × (beats axes s p ≡ true)

    over :
        (p q : Point) (b : Bool)
        → beats axes q p ≡ true
        → Memᴰ (q, b) (mark axes points 0 points)
        → ((r : Point) → Memᴰ r points → beats axes r q ≡ true → Topped q)
        → Topped p
    over p q true e at higher = (q, at, e)
    over p q false e at higher =
        let (r, there, f) = mark-Says 0 points whole at in
        let (s, on, g) = higher r there f in (s, on, beats_trans axes s q p g e)

    climb :
        (n : ℕ) (p q : Point)
        → beaters p points < n
        → Memᴰ q points
        → beats axes q p ≡ true
        → Topped p
    climb zero p q h m e = absurd (omega arith)
    climb (suc n) p q h m e =
        let (b, at) = marked 0 points m in
        let fewer_left = less p q points e m in
        over p q b e at (λ r there f. climb n q r (omega arith) there f)

  meaning :
      (points : List Point) (p : Point) (b : Bool)
      → Says points p b
      → ((b ≡ true) ↔ Unbeaten points p) × (b ≡ false → Says points p false)
  meaning points p true u = ((λ e. u, λ v. refl), λ e. absurd (false_is_true (sym e)))
  meaning points p false (q, m, e) = (
    (λ f. absurd (false_is_true f), λ v. absurd (false_is_true (sym (v q m) ∙ e))),
    λ f. (q, m, e),
  )

-- A point is marked exactly if no point beats it, and each point that is not marked is beaten by one
-- that is. To beat is to be as good on all axes and better on one: not above the other value where
-- the goal is to minimize, not below it where it is to maximize; a missing value is the worst.
pub pareto-Says :
    (points : List Point) (axes : List (Text × Goal)) (p : Point) (b : Bool)
    → Memᴰ (p, b) (pareto points axes)
    → ((b ≡ true) ↔ ((q : Point) → Memᴰ q points → Beats axes q p → ⊥))
      × (b ≡ false → (q : Point) × Memᴰ (q, true) (pareto points axes) × Beats axes q p)
unfolding pareto
pareto-Says points axes p b m =
    let (iff, beaten) =
      meaning axes points p b (mark-Says axes points 0 points (whole axes points) m) in
    (
      (
        λ e q at k. false_is_true (sym (iff.0 e q at) ∙ (beats-Beats axes q p).1 k),
        λ n. iff.1 (λ q at. unbeaten (beats axes q p) (λ e. n q at ((beats-Beats axes q p).0 e))),
      ),
      λ e.
          let (q, at, f) = beaten e in
          let (s, on, g) = climb axes points (suc (beaters axes p points)) p q (omega arith) at f in
          (s, on, (beats-Beats axes s p).0 g),
    )
  where
    unbeaten : (c : Bool) → (c ≡ true → ⊥) → c ≡ false
    unbeaten true n = absurd (n refl)
    unbeaten false n = refl
