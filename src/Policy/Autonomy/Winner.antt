-- ===== src/Policy/Autonomy/Winner.antt =====
-- Which rule gives a path its level.
use chipchamp.Prelude.{
  ℕ, ◌≤◌, ◌<◌, suc, ◌≡◌, ◌≢◌, refl, sym, ap, subst, Bool, true, false, ◌&&◌, String, Option, none,
  some, [], ◌∷◌, length, arith, ◌⊎◌, inl, inr, Bool-cases,
}
use chipchamp.Text.{Text}
use chipchamp.Fnmatch.{fnmatch}
use chipchamp.Policy.Autonomy.{Spec, Rules, Best, longer, cap_of, resolve_from, resolve_level}

-- The rule stands in the list.
abbrev pub InRules : Text → Spec → Rules → Type 0
InRules g s [] = ⊥
InRules g s ((h, t) ∷ rules) = ((g ≡ h) × (s ≡ t)) ⊎ InRules g s rules

-- Every glob of the list that matches the path is shorter than `n`.
abbrev pub Below : Text → ℕ → Rules → Type 0
Below path n [] = Unit
Below path n ((g, s) ∷ rules) = (fnmatch path g ≡ true → length g < n) × Below path n rules

abbrev reach : Option Text → ℕ
reach none = 0
reach (some g) = suc (length g)

abbrev Chosen : Text → String → Rules → Best → Type 0
Chosen path default rules best =
    (g : Text) × (s : Spec) × InRules g s rules
    × (fnmatch path g ≡ true)
    × (best ≡ (some g, cap_of default s))

-- The loop from `best` ends with `best` or a rule, at least as long as all that match.
record Loop (path : Text) (default : String) (rules : Rules) (best out : Best) : Type 0 where
  grows : reach best.0 ≤ reach out.0
  covers : Below path (reach out.0) rules
  from : (out ≡ best) ⊎ Chosen path default rules out

Below-mono :
    (path : Text) (n m : ℕ) (rules : Rules) → n ≤ m → Below path n rules → Below path m rules
Below-mono path n m [] h b = tt
Below-mono path n m ((g, s) ∷ rules) h b =
    (λ e. omega (arith, b.0 e), Below-mono path n m rules h b.1)

Chosen-cons :
    (path : Text) (default : String) (h : Text) (t : Spec) (rules : Rules) (out : Best)
    → Chosen path default rules out
    → Chosen path default ((h, t) ∷ rules) out
Chosen-cons path default h t rules out (g, s, i, m, e) = (g, s, inr i, m, e)

longer-true :
    (g : Text) (o : Option Text) (b : Bool) (n : ℕ)
    → b && longer g o ≡ true
    → suc (length g) ≤ n
    → reach o ≤ n
longer-true g none b n t h = omega arith
longer-true g (some k) b n t h = ground arith

longer-false :
    (g : Text) (o : Option Text) (b : Bool) (n : ℕ)
    → b && longer g o ≡ false
    → b ≡ true
    → reach o ≤ n
    → length g < n
longer-false g none b n t e h = absurd (ground arith)
longer-false g (some k) b n t e h = ground arith

none_ne_some : (g : Text) → ◌≢◌ {A = Option Text} none (some g)
none_ne_some g e = cc

Loop-taken :
    (path : Text) (default : String) (g : Text) (s : Spec) (rules : Rules) (best out : Best)
    → fnmatch path g && longer g best.0 ≡ true
    → Loop path default rules (some g, cap_of default s) out
    → Loop path default ((g, s) ∷ rules) best out
Loop-taken path default g s rules best out taken l = record {
  grows = longer-true g best.0 (fnmatch path g) (reach out.0) taken l.grows;
  covers = (λ e. l.grows, l.covers);
  from = elim l.from [
    | inl e ↦ inr (g, s, inl (refl, refl), ground arith, e)
    | inr c ↦ inr (Chosen-cons path default g s rules out c)
  ];
}

Loop-left :
    (path : Text) (default : String) (g : Text) (s : Spec) (rules : Rules) (best out : Best)
    → fnmatch path g && longer g best.0 ≡ false
    → Loop path default rules best out
    → Loop path default ((g, s) ∷ rules) best out
Loop-left path default g s rules best out left l = record {
  grows = l.grows;
  covers = (λ e. longer-false g best.0 (fnmatch path g) (reach out.0) left e l.grows, l.covers);
  from = elim l.from [ inl e ↦ inl e | inr c ↦ inr (Chosen-cons path default g s rules out c) ];
}

abbrev pub NoMatch : Text → Rules → Type 0
NoMatch path [] = Unit
NoMatch path ((g, s) ∷ rules) = (fnmatch path g ≡ false) × NoMatch path rules

Below-zero : (path : Text) (rules : Rules) → Below path 0 rules → NoMatch path rules
Below-zero path [] b = tt
Below-zero path ((g, s) ∷ rules) b = (
  elim (Bool-cases (fnmatch path g)) [ inl e ↦ absurd (omega (arith, b.0 e)) | inr e ↦ e ],
  Below-zero path rules b.1,
)

-- The level that the rules give to the path.
abbrev pub Answer : Text → String → Rules → String → Type 0
Answer path default rules level =
    (NoMatch path rules × (level ≡ default))
    ⊎ ((g : Text) × (s : Spec) × InRules g s rules
        × (fnmatch path g ≡ true)
        × Below path (suc (length g)) rules
        × (level ≡ cap_of default s))

resolve_from-Loop :
    (path : Text) (default : String) (rules : Rules) (best : Best)
    → Loop path default rules best (resolve_from path default rules best)
unfolding resolve_from
resolve_from-Loop path default [] best = record {
  grows = omega arith;
  covers = tt;
  from = inl refl;
}
resolve_from-Loop path default ((g, s) ∷ rules) best =
    elim (Bool-cases (fnmatch path g && longer g best.0)) [
      | inl taken ↦ rw taken (
          Loop-taken path default g s rules best _ taken
            (resolve_from-Loop path default rules (some g, cap_of default s)))
      | inr left ↦
          rw left (
            Loop-left path default g s rules best _ left
              (resolve_from-Loop path default rules best))
    ]

Answer-of :
    (path : Text) (default : String) (rules : Rules) (out : Best)
    → Loop path default rules (none, default) out
    → Answer path default rules out.1
Answer-of path default rules (none, level) l = elim l.from [
  | inl e ↦ inl (Below-zero path rules l.covers, ap (λ b. b.1) e)
  | inr c ↦ absurd (none_ne_some c.0 (ap (λ b. b.0) c.4))
]
Answer-of path default rules (some g, level) l = elim l.from [
  | inl e ↦ absurd (none_ne_some g (sym (ap (λ b. b.0) e)))
  | inr (h, s, i, m, e) ↦ inr (
    h,
    s,
    i,
    m,
    subst (λ o. Below path (reach o) rules) (ap (λ b. b.0) e) l.covers,
    ap (λ b. b.1) e,
  )
]

-- A path's level is the default if no rule's glob matches it. If one does, it is the level of a
-- rule that matches it and whose glob is at least as long as every glob that matches.
pub resolve_level-Answer :
    (path : Text) (rules : Rules) (default : String)
    → Answer path default rules (resolve_level path rules default)
unfolding resolve_level
resolve_level-Answer path rules default =
    Answer-of path default rules (resolve_from path default rules (none, default))
      (resolve_from-Loop path default rules (none, default))
