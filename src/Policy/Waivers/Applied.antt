-- ===== src/Policy/Waivers/Applied.antt =====
-- chipchamp/policy/waivers.py: a diagnostic is waived only by record.
use chipchamp.Prelude.{
  ℕ, ◌+◌, ◌∙◌, false_is_true, ◌≡◌, ◌≢◌, ◌↔◌, refl, Bool, true, Option, none, some, List, [], ◌∷◌,
  Bool-cases, inl, inr, ◌⊎◌, ap, sym, subst, false, ◌&&◌, ◌||◌, arith, and_parts,
}
use chipchamp.Fnmatch.{fnmatch}
use chipchamp.Text.{Text, codes, forward, slash, split, ends_with, is_empty, text_eq_iff}
use chipchamp.Policy.Waivers.{
  Waiver, Finding, id, matches, is_active, active, waiver_for, mark, path_of, apply_active, counted,
  last_part, is_approved, in_force, apply_waivers,
}

-- the waiver is one of those given
abbrev pub In : Waiver → List Waiver → Type 0
In w [] = ⊥
In w (v ∷ vs) = (w ≡ v) ⊎ In w vs

-- Someone approved the waiver, it is active, and it has no expiry or one that has not passed.
pub record InForce (expired : Text → Option Bool) (w : Waiver) : Type 0 where
  pub approver : Text
  pub by : w.approver ≡ some approver
  pub named : approver ≢ []
  pub status : w.status ≡ codes "active"
  pub not_expired : (w.expires ≡ []) ⊎ (expired w.expires ≡ some false)

-- The rule's pattern matches the code, and the scope is a pattern of the path or of its last part,
-- or an end of the path.
pub record Fits (w : Waiver) (code path : Text) : Type 0 where
  pub rule : fnmatch code w.rule ≡ true
  pub scope :
      (fnmatch (forward path) w.scope ≡ true)
      ⊎ (fnmatch (last_part (split slash (forward path))) w.scope ≡ true)
      ⊎ (ends_with (forward path) w.scope ≡ true)

unwrap {ℓ} : {A : Type ℓ} (v w : A) → some v ≡ some w → w ≡ v
unwrap v w h = sym (ap (λ o. elim o [ none ↦ v | some x ↦ x ]) h)

and_both : {a b : Bool} → a ≡ true → b ≡ true → a && b ≡ true
and_both h k = rw (h, k) refl

fits_iff :
    (a b c d : Bool)
    → (a && (b || c || d) ≡ true) ↔ ((a ≡ true) × ((b ≡ true) ⊎ (c ≡ true) ⊎ (d ≡ true)))
fits_iff a b c d = ground arith

approved_iff : (o : Option Text) → (is_approved o ≡ true) ↔ ((a : Text) × (o ≡ some a) × (a ≢ []))
unfolding is_empty
approved_iff none = (λ h. cc, λ (a, e, n). cc)
approved_iff (some []) = (λ h. cc, λ h. absurd (h.2 (unwrap [] h.0 h.1)))
approved_iff (some (c ∷ a)) = (λ h. (c ∷ a, refl, λ e. cc), λ h. refl)

unexpired_iff :
    (t : Text) (o : Option Bool) → (is_empty t || in_force o ≡ true) ↔ ((t ≡ []) ⊎ (o ≡ some false))
unfolding is_empty
unexpired_iff [] o = (λ h. inl refl, λ h. refl)
unexpired_iff (c ∷ t) none = (λ h. cc, λ h. elim h [ inl e ↦ cc | inr e ↦ cc ])
unexpired_iff (c ∷ t) (some true) = (λ h. cc, λ h. elim h [ inl e ↦ cc | inr e ↦ cc ])
unexpired_iff (c ∷ t) (some false) = (λ h. inr refl, λ h. refl)

matches_iff : (w : Waiver) (code path : Text) → (matches w code path ≡ true) ↔ Fits w code path
unfolding matches
matches_iff w code path =
    let both = fits_iff (fnmatch code w.rule) (fnmatch (forward path) w.scope) _ _ in
    (λ h. let (r, p) = both.0 h in record { rule = r; scope = p }, λ h. both.1 (h.rule, h.scope))

is_active_iff :
    (expired : Text → Option Bool) (w : Waiver) → (is_active expired w ≡ true) ↔ InForce expired w
unfolding is_active
is_active_iff expired w = (
  λ h.
      let (front, e) = and_parts _ _ h in
      let (st, o) = and_parts _ _ front in
      let (a, b, n) = (approved_iff w.approver).0 o in
      record {
        approver = a;
        by = b;
        named = n;
        status = (text_eq_iff w.status (codes "active")).0 st;
        not_expired = (unexpired_iff w.expires (expired w.expires)).0 e;
      },
  λ h.
      and_both
        (and_both ((text_eq_iff w.status (codes "active")).1 h.status)
          ((approved_iff w.approver).1 (h.approver, h.by, h.named)))
        ((unexpired_iff w.expires (expired w.expires)).1 h.not_expired),
)

waiver_for-some :
    (ws : List Waiver) (code path : Text) (w : Waiver)
    → waiver_for ws code path ≡ some w
    → In w ws × (matches w code path ≡ true)
unfolding waiver_for
waiver_for-some [] code path w h = cc
waiver_for-some (v ∷ vs) code path w h = elim (Bool-cases (matches v code path)) [
  | inl e ↦
      let same = unwrap v w (rw e at h) in
      (inl same, subst (λ x. matches x code path ≡ true) (sym same) e)
  | inr e ↦ let (i, m) = waiver_for-some vs code path w (rw e at h) in (inr i, m)
]

active-In :
    (expired : Text → Option Bool) (ws : List Waiver) (w : Waiver)
    → In w (active expired ws)
    → In w ws × (is_active expired w ≡ true)
unfolding active
active-In expired [] w h = absurd h
active-In expired (v ∷ vs) w h = elim (Bool-cases (is_active expired v)) [
  | inl e ↦ elim (rw (e, In) at h) [
    | inl same ↦ (inl same, subst (λ x. is_active expired x ≡ true) (sym same) e)
    | inr i ↦ let (j, a) = active-In expired vs w i in (inr j, a)
  ]
  | inr e ↦ let (j, a) = active-In expired vs w (rw (e, In) at h) in (inr j, a)
]

waiver_for-none :
    (ws : List Waiver) (code path : Text) (w : Waiver)
    → waiver_for ws code path ≡ none
    → In w ws
    → matches w code path ≡ true
    → ⊥
unfolding waiver_for
waiver_for-none [] code path w h i m = absurd i
waiver_for-none (v ∷ vs) code path w h i m = elim (Bool-cases (matches v code path)) [
  | inl e ↦ some_is_none v (rw e at h)
  | inr e ↦ elim i [
    | inl same ↦ false_is_true (sym e ∙ subst (λ x. matches x code path ≡ true) same m)
    | inr j ↦ waiver_for-none vs code path w (rw e at h) j m
  ]
]
  where
    some_is_none : (x : Waiver) → some x ≡ none → ⊥
    some_is_none x q = cc

In-active :
    (expired : Text → Option Bool) (ws : List Waiver) (w : Waiver)
    → In w ws
    → is_active expired w ≡ true
    → In w (active expired ws)
unfolding active
In-active expired [] w i a = absurd i
In-active expired (v ∷ vs) w i a = elim (Bool-cases (is_active expired v)) [
  | inl e ↦ rw (e, In) (elim i [ inl same ↦ inl same | inr j ↦ inr (In-active expired vs w j a) ])
  | inr e ↦
      rw (e, In)
        (elim i [
          | inl same ↦
              absurd (false_is_true (sym e ∙ subst (λ x. is_active expired x ≡ true) same a))
          | inr j ↦ In-active expired vs w j a
        ])
]

module _ (relative : Text → Text → Text) (expired : Text → Option Bool) (ws : List Waiver)
    (root : Text) where
  -- A waiver of the workspace that is in force and fits the diagnostic.
  pub record Waives (d : Finding) (w : Waiver) : Type 0 where
    pub given : In w ws
    pub in_force : InForce expired w
    pub fits : Fits w d.code (path_of relative root d.file)

  -- What a diagnostic is afterwards, and whether it is counted: as it was if no waiver waives it, or
  -- else marked with one that does.
  pub data Outcome (before after : Finding) : ℕ → Type 0 where
    untouched : after ≡ before → ((w : Waiver) → Waives before w → ⊥) → Outcome before after 0
    waived :
        (w : Waiver)
        → Waives before w
        → after ≡ record before { waiver = id w }
        → Outcome before after 1

  pub data Outcomes : List Finding → List Finding → ℕ → Type 0 where
    nothing : Outcomes [] [] 0
    one :
        (b a : Finding) (bs as' : List Finding) (m n : ℕ)
        → Outcome b a m
        → Outcomes bs as' n
        → Outcomes (b ∷ bs) (a ∷ as') (m + n)

  mark-Outcome :
      (d : Finding) (o : Option Waiver)
      → waiver_for (active expired ws) d.code (path_of relative root d.file) ≡ o
      → Outcome d (mark d o) (counted o)
  unfolding mark
  mark-Outcome d none e = untouched refl (λ w h.
      waiver_for-none (active expired ws) d.code (path_of relative root d.file) w e
        (In-active expired ws w h.given ((is_active_iff expired w).1 h.in_force))
        ((matches_iff w d.code (path_of relative root d.file)).1 h.fits))
  mark-Outcome d (some w) e =
      let (i, m) = waiver_for-some (active expired ws) d.code (path_of relative root d.file) w e in
      let (given, a) = active-In expired ws w i in
      waived w
        (record {
          given = given;
          in_force = (is_active_iff expired w).0 a;
          fits = (matches_iff w d.code (path_of relative root d.file)).0 m;
        })
        refl

  apply_active-Outcomes :
      (ds : List Finding)
      → let r = apply_active relative (active expired ws) root ds in Outcomes ds r.0 r.1
  unfolding apply_active
  apply_active-Outcomes [] = nothing
  apply_active-Outcomes (d ∷ ds) =
      one d _ ds _ _ _ (mark-Outcome d _ refl) (apply_active-Outcomes ds)

  -- A diagnostic is left as it was if no waiver waives it, and else marked with one that does; the
  -- number answered counts those that were marked. To waive, a waiver of the workspace must be
  -- active, approved by someone and not expired, and its rule must match the diagnostic's code and
  -- its scope the path.
  pub apply_waivers-Outcomes :
      (ds : List Finding) → let r = apply_waivers relative expired ws root ds in Outcomes ds r.0 r.1
  unfolding apply_waivers
  apply_waivers-Outcomes ds = apply_active-Outcomes ds
