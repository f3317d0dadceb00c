-- ===== src/Policy/Autonomy/Caps.antt =====
-- The longest matching rule caps each path, and the lowest cap the whole change.
use chipchamp.Prelude.{
  ℕ, ◌≤◌, ◌≡◌, ◌↔◌, true, ◌&&◌, String, List, [], ◌∷◌, map, str_eq, leb, ltb, arith, eq_iff, inl,
  inr, Bool-cases, and_parts,
}
use chipchamp.Text.{Text}
use chipchamp.Policy.Autonomy.{rank, Rules, resolve_level, min_by_rank, decide, level_of}

-- `P` holds of the level of every path.
abbrev pub AtEach : (String → Type 0) → List String → Type 0
AtEach P [] = Unit
AtEach P (c ∷ cs) = P c × AtEach P cs

-- the levels that count: those of the touched paths, or the default if there is none
abbrev pub levels : List Text → Rules → String → List String
levels [] rules default = default ∷ []
levels (p ∷ ps) rules default = map (λ q. resolve_level q rules default) (p ∷ ps)

le-min_by_rank :
    (k : ℕ) (best : String) (cs : List String)
    → (k ≤ rank (min_by_rank best cs)) ↔ ((k ≤ rank best) × AtEach (λ c. k ≤ rank c) cs)
unfolding min_by_rank
le-min_by_rank k best [] = (λ h. (h, tt), λ h. h.0)
le-min_by_rank k best (c ∷ cs) = elim (Bool-cases (ltb (rank c) (rank best))) [
  | inl e ↦ rw e (
    λ h. let (low, rest) = (le-min_by_rank k c cs).0 h in (ground arith, (low, rest)),
    λ h. (le-min_by_rank k c cs).1 (h.1.0, h.1.1),
  )
  | inr e ↦ rw e (
    λ h. let (low, rest) = (le-min_by_rank k best cs).0 h in (low, (ground arith, rest)),
    λ h. (le-min_by_rank k best cs).1 (h.0, h.1.1),
  )
]

-- A change gets a right from rank `k` up exactly when every level that counts has that rank.
le-level_of :
    (k : ℕ) (ps : List Text) (rules : Rules) (default : String)
    → (k ≤ rank (level_of ps rules default)) ↔ AtEach (λ c. k ≤ rank c) (levels ps rules default)
unfolding level_of
le-level_of k [] rules default = (λ h. (h, tt), λ h. h.0)
le-level_of k (p ∷ ps) rules default =
    le-min_by_rank k (resolve_level p rules default) (map (λ q. resolve_level q rules default) ps)

leb_iff : (a b : ℕ) → (leb a b ≡ true) ↔ (a ≤ b)
leb_iff a b = ground arith

trans_iff {ℓ κ μ} : {A : Type ℓ} {B : Type κ} {C : Type μ} → A ↔ B → B ↔ C → A ↔ C
trans_iff f g = (λ a. g.0 (f.0 a), λ c. f.1 (g.1 c))

and_iff {ℓ κ μ} : {A : Type ℓ} {B : Type κ} {C : Type μ} → B ↔ C → (A × B) ↔ (A × C)
and_iff f = (λ h. (h.0, f.0 h.1), λ h. (h.0, f.1 h.1))

rank_l3 : (level : String) → level ≡ "L3" → 3 ≤ rank level
unfolding rank
rank_l3 level e = rw e (omega arith)

automerge_iff :
    (level cls : String)
    → (str_eq level "L3" && str_eq cls "docs" ≡ true) ↔ ((cls ≡ "docs") × (3 ≤ rank level))
unfolding rank
automerge_iff level cls = (
  λ h.
      let (l3, docs) = and_parts (str_eq level "L3") (str_eq cls "docs") h in
      ((eq_iff cls "docs").0 docs, rank_l3 level ((eq_iff level "L3").0 l3)),
  λ h. ground (arith, eq_iff level "L3", eq_iff cls "docs"),
)

-- A change may be edited, and jobs launched, exactly when the level of every touched path is L1 or
-- higher, and a merge request opened exactly when every one is L2 or higher; it is merged
-- automatically exactly if its class is "docs" and every path is at L3. For a change that touches
-- no path, the default level counts in place of the paths'.
pub decide-levels :
    (task_class : String) (ps : List Text) (rules : Rules) (default : String)
    → let d = decide task_class ps rules default in
      let at = λ (k : ℕ). AtEach (λ c. k ≤ rank c) (levels ps rules default) in
      ((d.may_edit ≡ true) ↔ at 1)
      × ((d.may_launch_jobs ≡ true) ↔ at 1)
      × ((d.may_open_mr ≡ true) ↔ at 2)
      × ((d.may_automerge ≡ true) ↔ ((task_class ≡ "docs") × at 3))
unfolding decide
decide-levels task_class ps rules default = (
  trans_iff (leb_iff 1 _) (le-level_of 1 ps rules default),
  trans_iff (leb_iff 1 _) (le-level_of 1 ps rules default),
  trans_iff (leb_iff 2 _) (le-level_of 2 ps rules default),
  trans_iff (automerge_iff (level_of ps rules default) task_class)
      (and_iff (le-level_of 3 ps rules default)),
)
