-- ===== src/Policy/Canonical/Walk.antt =====
-- A relative path is a walk from the workspace's root. `canonical` names the place where it ends,
-- and shows by a leading `..` a walk that leaves the workspace.
use mathlib.Core.List.{reverse, reverse-cons, append_assoc, append-nil}
use chipchamp.Prelude.{
  not, ◌&&◌, ◌≡◌, refl, sym, subst, ap, ◌∙◌, true, false, Option, none, some, List, [], ◌∷◌, ◌++◌,
  arith, if◌then◌else◌, Bool-cases, inl, inr,
}
use chipchamp.Text.{Text, codes, text_eq, starts_with, split, join, slash, forward, is_empty}
use chipchamp.Text.Pieces.{split-AllFree}
use chipchamp.Policy.Canonical.{
  isabs, root_of, or_dot, skipped, dot, dotdot, push_all, normpath, canonical_of, canonical,
  outside,
}
use chipchamp.Policy.Canonical.Steps.{IsName, AllNames, walk, go, Escaped, Ends, push_all-Ends}

split_last :
    (comps : List Text) → Escaped comps → (rest : List Text) × (reverse comps ≡ dotdot ∷ rest)
split_last [] h = absurd h
split_last (t ∷ []) h = ([], ap (λ x. x ∷ []) h)
split_last (t ∷ u ∷ ts) h =
    let (rest, e) = split_last (u ∷ ts) h in
    (rest ++ t ∷ [], reverse-cons t (u ∷ ts) ∙ ap (λ x. x ++ t ∷ []) e)

outside-join : (rest : List Text) → outside (join slash (dotdot ∷ rest)) ≡ true
unfolding outside join
outside-join [] = refl
outside-join (w ∷ ws) = refl

-- A first name with no slash, not `..`, does not make a text that begins with `../`.
inside-join : (w : Text) (ws : List Text) → IsName w → outside (join slash (w ∷ ws)) ≡ false
unfolding outside join
inside-join [] [] n = refl
inside-join [] (v ∷ ws) n = refl
inside-join (a ∷ []) [] n = ground arith
inside-join (a ∷ []) (v ∷ ws) n = ground arith
inside-join (a ∷ b ∷ []) [] n = ground (arith, n.down)
inside-join (a ∷ b ∷ []) (v ∷ ws) n = ground (arith, n.down)
inside-join (a ∷ b ∷ c ∷ w) [] n = ground (arith, n.one)
inside-join (a ∷ b ∷ c ∷ w) (v ∷ ws) n = ground (arith, n.one)

-- The join of names is neither empty nor `.`.
join-names : (w : Text) (ws : List Text) → IsName w → skipped (join slash (w ∷ ws)) ≡ false
unfolding join is_empty text_eq
join-names w [] n = n.kept
join-names [] (v ∷ ws) n = absurd (ground (arith, n.kept))
join-names (a ∷ []) (v ∷ ws) n = ground arith
join-names (a ∷ b ∷ w) (v ∷ ws) n = ground arith

AllNames-reverse : (ts rs : List Text) → AllNames ts → AllNames rs → AllNames (reverse ts ++ rs)
AllNames-reverse [] rs p q = q
AllNames-reverse (t ∷ ts) rs p q =
    subst (λ x. AllNames (x ++ rs)) (sym (reverse-cons t ts))
      (subst AllNames (sym (append_assoc (reverse ts) (t ∷ []) rs))
        (AllNames-reverse ts (t ∷ rs) p.1 (p.0, q)))

reverse-AllNames : (ts : List Text) → AllNames ts → AllNames (reverse ts)
reverse-AllNames ts p = subst AllNames (append-nil (reverse ts)) (AllNames-reverse ts [] p tt)

no_root : (p : Text) → isabs p ≡ false → starts_with p (codes "//") ≡ false
unfolding isabs
no_root [] h = refl
no_root (c ∷ p) h = ground arith

-- `canonical`, where the path is relative: what is left once the root is known to be empty.
abbrev relative : Text → Text
relative q = let r = (if is_empty q then dot else q) in if text_eq r dot then [] else r

abbrev stack_of : Text → List Text
stack_of p = push_all false [] (split slash p)

canonical-relative :
    (p : Text)
    → is_empty p ≡ false
    → isabs p ≡ false
    → canonical_of p ≡ relative (join slash (reverse (stack_of p)))
unfolding canonical_of normpath
canonical-relative p e h = simp (e, h, no_root p h)

-- What `canonical` answers, by how the walk along the path ends.
abbrev pub Denotes : Option (List Text) → Text → Type 0
Denotes none p = outside p ≡ true
Denotes (some to) p = (outside p ≡ false) × (p ≡ join slash (reverse to)) × AllNames (reverse to)

relative_kept : (q : Text) → skipped q ≡ false → relative q ≡ q
unfolding is_empty text_eq
relative_kept q h = ground arith

skipped-escaped : (rest : List Text) → skipped (join slash (dotdot ∷ rest)) ≡ false
unfolding join is_empty text_eq
skipped-escaped [] = refl
skipped-escaped (w ∷ ws) = refl

relative-escaped : (rest : List Text) → outside (relative (join slash (dotdot ∷ rest))) ≡ true
relative-escaped rest =
    ap outside (relative_kept (join slash (dotdot ∷ rest)) (skipped-escaped rest))
    ∙ outside-join rest

-- the second and third part of `Denotes`, for a place in path order
relative-names :
    (place : List Text)
    → AllNames place
    → (outside (relative (join slash place)) ≡ false)
      × (relative (join slash place) ≡ join slash place)
relative-names [] p = unfold join is_empty text_eq outside in (refl, refl)
relative-names (w ∷ ws) p =
    let e = relative_kept (join slash (w ∷ ws)) (join-names w ws p.0) in
    (ap outside e ∙ inside-join w ws p.0, e)

Denotes-relative :
    (comps : List Text) (end : Option (List Text))
    → Ends comps end
    → Denotes end (relative (join slash (reverse comps)))
Denotes-relative comps none h =
    let (rest, e) = split_last comps h in
    ap (λ r. outside (relative (join slash r))) e ∙ relative-escaped rest
Denotes-relative comps (some to) h =
    let names = reverse-AllNames to h.1 in
    let (inside, same) = relative-names (reverse to) names in
    subst (λ x. Denotes (some to) (relative (join slash (reverse x)))) (sym h.0)
      (inside, same, names)

canonical_of-Denotes :
    (p : Text) → isabs p ≡ false → Denotes (walk [] (split slash p)) (canonical_of p)
unfolding is_empty
canonical_of-Denotes [] h =
    unfold canonical_of is_empty split join walk go outside in (refl, refl, tt)
canonical_of-Denotes (c ∷ p) h = rw (canonical-relative (c ∷ p) refl h) (
    Denotes-relative (stack_of (c ∷ p)) (walk [] (split slash (c ∷ p)))
      (push_all-Ends [] (split slash (c ∷ p)) tt (split-AllFree slash (c ∷ p))))

-- A relative path (with forward or backward slashes) is walked component by component from the
-- workspace's root, `..` going up. If the walk leaves the root, its canonical form is seen to be
-- outside; if not, the canonical form is inside, it is the path of the directory where the walk
-- ends, and it has no empty component, no `.` and no `..`.
pub canonical-Denotes :
    (raw : Text)
    → isabs (forward raw) ≡ false
    → Denotes (walk [] (split slash (forward raw))) (canonical raw)
unfolding canonical
canonical-Denotes raw h = canonical_of-Denotes (forward raw) h

rooted : (p r : Text) → isabs p ≡ true → (rest : Text) × (or_dot (root_of p ++ r) ≡ slash ∷ rest)
rooted p r h = elim (Bool-cases (starts_with p (codes "//") && not (starts_with p (codes "///")))) [
  | inl e ↦ rw e (slash ∷ r, unfold is_empty in refl)
  | inr e ↦ rw (e, h) (r, unfold is_empty in refl)
]

normpath-rooted : (p : Text) → isabs p ≡ true → (rest : Text) × (normpath p ≡ slash ∷ rest)
unfolding normpath
normpath-rooted p h = rooted p (join slash (reverse (push_all (isabs p) [] (split slash p)))) h

-- An absolute path stays absolute, and no `..` leads out of its root.
canonical_of-isabs :
    (p : Text)
    → isabs p ≡ true
    → (isabs (canonical_of p) ≡ true) × (outside (canonical_of p) ≡ false)
unfolding canonical_of is_empty
canonical_of-isabs [] h = unfold isabs starts_with in cc
canonical_of-isabs (c ∷ p) h =
    let (rest, e) = normpath-rooted (c ∷ p) h in
    rw h (rw e (unfold isabs starts_with outside text_eq in (refl, refl)))

pub canonical-isabs :
    (raw : Text)
    → isabs (forward raw) ≡ true
    → (isabs (canonical raw) ≡ true) × (outside (canonical raw) ≡ false)
unfolding canonical
canonical-isabs raw h = canonical_of-isabs (forward raw) h
