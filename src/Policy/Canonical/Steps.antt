-- ===== src/Policy/Canonical/Steps.antt =====
-- The walk from the workspace's root along the components of a path, and the loop of
-- `os.path.normpath` beside it.
use chipchamp.Prelude.{
  ◌≡◌, refl, ◌⊎◌, Option-cases, false, Option, none, some, List, [], ◌∷◌, arith, if◌then◌else◌,
  Bool-cases, inl, inr,
}
use chipchamp.Text.{Text, text_eq, text_eq_sound, slash}
use chipchamp.Text.Pieces.{IsFree, AllFree}
use chipchamp.Policy.Canonical.{skipped, dotdot, push, push_all}

-- A component that names an entry of its directory.
pub record IsName (t : Text) : Type 0 where
  pub kept : skipped t ≡ false
  pub down : text_eq t dotdot ≡ false
  pub one : IsFree slash t

abbrev pub AllNames : List Text → Type 0
AllNames [] = Unit
AllNames (t ∷ ts) = IsName t × AllNames ts

-- One component of the walk from the directory `at`, innermost name first; `none` leaves the root.
abbrev parent : List Text → Option (List Text)
parent [] = none
parent (t ∷ ts) = some ts

unfoldable pub go : List Text → Text → Option (List Text)
go at c = if skipped c then some at else if text_eq c dotdot then parent at else some (c ∷ at)

abbrev pub Names : Option (List Text) → Type 0
Names none = Unit
Names (some to) = AllNames to

parent-AllNames : (at : List Text) → AllNames at → Names (parent at)
parent-AllNames [] p = tt
parent-AllNames (t ∷ ts) p = p.1

unfoldable pub walk : List Text → List Text → Option (List Text)
walk at [] = some at
walk at (c ∷ cs) = elim (go at c) [ none ↦ none | some to ↦ walk to cs ]

-- the first component of the result is `..`
abbrev pub Escaped : List Text → Type 0
Escaped [] = ⊥
Escaped (t ∷ []) = t ≡ dotdot
Escaped (t ∷ u ∷ ts) = Escaped (u ∷ ts)

push-go :
    (at : List Text) (c : Text) (to : List Text)
    → AllNames at
    → go at c ≡ some to
    → push false at c ≡ to
unfolding push go
push-go [] c to p h = ground arith
push-go (t ∷ ts) c to p h = ground (arith, p.0.down)

-- The walk goes to names, if no component holds a slash.
go-AllNames : (at : List Text) (c : Text) → AllNames at → IsFree slash c → Names (go at c)
unfolding go
go-AllNames at c p f = elim (Bool-cases (skipped c)) [
  | inl e ↦ rw e p
  | inr e ↦ rw e (elim (Bool-cases (text_eq c dotdot)) [
    | inl u ↦ rw u (parent-AllNames at p)
    | inr u ↦ rw u (record { kept = e; down = u; one = f }, p)
  ])
]

push-go-none :
    (at : List Text) (c : Text) → AllNames at → go at c ≡ none → push false at c ≡ dotdot ∷ []
unfolding push go
push-go-none [] c p h = ground (arith, text_eq_sound c dotdot)
push-go-none (t ∷ ts) c p h = ground (arith, p.0.down)

-- On a stack that has escaped a component is skipped, pushed or popped.
push-shape :
    (t u : Text) (ts : List Text) (c : Text)
    → (push false (t ∷ u ∷ ts) c ≡ t ∷ u ∷ ts)
      ⊎ (push false (t ∷ u ∷ ts) c ≡ c ∷ t ∷ u ∷ ts)
      ⊎ (push false (t ∷ u ∷ ts) c ≡ u ∷ ts)
unfolding push
push-shape t u ts c = ground arith

push-dotdot :
    (c : Text)
    → (push false (dotdot ∷ []) c ≡ dotdot ∷ []) ⊎ (push false (dotdot ∷ []) c ≡ c ∷ dotdot ∷ [])
unfolding push
push-dotdot c = ground arith

push-Escaped : (comps : List Text) (c : Text) → Escaped comps → Escaped (push false comps c)
push-Escaped [] c h = absurd h
push-Escaped (t ∷ []) c h = rw h (elim (push-dotdot c) [ inl e ↦ rw e refl | inr e ↦ rw e refl ])
push-Escaped (t ∷ u ∷ ts) c h = elim (push-shape t u ts c) [
  | inl e ↦ rw e h
  | inr (inl e) ↦ rw e h
  | inr (inr e) ↦ rw e h
]

push_all-Escaped : (comps cs : List Text) → Escaped comps → Escaped (push_all false comps cs)
unfolding push_all
push_all-Escaped comps [] h = h
push_all-Escaped comps (c ∷ cs) h =
    push_all-Escaped (push false comps c) cs (push-Escaped comps c h)

-- What the loop of `normpath` leaves, by how the walk ends.
abbrev pub Ends : List Text → Option (List Text) → Type 0
Ends comps none = Escaped comps
Ends comps (some to) = (comps ≡ to) × AllNames to

pub push_all-Ends :
    (at cs : List Text) → AllNames at → AllFree slash cs → Ends (push_all false at cs) (walk at cs)
unfolding push_all walk
push_all-Ends at [] p f = (refl, p)
push_all-Ends at (c ∷ cs) p f = elim (Option-cases (go at c)) [
  | inl e ↦ rw (e, walk) (rw (push-go-none at c p e) (push_all-Escaped (dotdot ∷ []) cs refl))
  | inr (to, e) ↦
      rw (e, walk)
        (rw (push-go at c to p e) (push_all-Ends to cs (rw e at (go-AllNames at c p f.0)) f.1))
]
