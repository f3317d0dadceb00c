-- ===== src/Policy/Antigaming/Clean.antt =====
-- chipchamp/policy/antigaming.py: the changes in which `scan` finds nothing.
use chipchamp.Prelude.{
  ℕ, ◌/◌, ◌==◌, ◌⊎◌, ◌≤◌, ◌≡◌, refl, ◌↔◌, inl, inr, Bool, true, false, not, ◌&&◌, ◌||◌, List, [],
  ◌∷◌, ◌++◌, arith, ltb, Bool-cases, subst, if◌then◌else◌,
}
use chipchamp.Text.{Text, codes, text_eq, text_eq_sound, text_eq_refl}
use chipchamp.Policy.Diff.{FileChange, Diff}
use chipchamp.Policy.Gates.Data.{Finding}
use chipchamp.Policy.Antigaming.{
  asserts, checks, rands, max_timeout, pins_seed, covers, is_deleted, is_test, cut, add, removed,
  weakened, edited, scan,
}

-- Where there is a timeout before and after, half of the longest one is left, rounded down.
abbrev pub Lasts : ℕ → ℕ → Type 0
Lasts old new = (old ≡ 0) ⊎ (new ≡ 0) ⊎ (old / 2 ≤ new)

-- A file that the change keeps: no count drops, no timeout is cut to less than half of it, no seed
-- is pinned, and a text with coverage definitions, before or after, is the same.
pub record Intact (f : FileChange) : Type 0 where
  pub kept_asserts : asserts f.old_text ≤ asserts f.new_text
  pub kept_checks : checks f.old_text ≤ checks f.new_text
  pub kept_rands : rands f.old_text ≤ rands f.new_text
  pub not_cut : Lasts (max_timeout f.old_text) (max_timeout f.new_text)
  pub not_pinned : pins_seed f.new_text ≡ true → pins_seed f.old_text ≡ true
  pub same_coverage : (covers f.old_text || covers f.new_text) ≡ true → f.old_text ≡ f.new_text

-- A file that the change deletes is no test.
pub data Harmless (f : FileChange) : Type 0 where
  gone : is_deleted f ≡ true → is_test f ≡ false → Harmless f
  stays : is_deleted f ≡ false → Intact f → Harmless f

pub data AllHarmless : List FileChange → Type 0 where
  nothing : AllHarmless []
  one : (f : FileChange) (fs : List FileChange) → Harmless f → AllHarmless fs → AllHarmless (f ∷ fs)

nil_parts : (xs ys : List Finding) → xs ++ ys ≡ [] → (xs ≡ []) × (ys ≡ [])
nil_parts [] ys h = (refl, h)
nil_parts (x ∷ xs) ys h = cc

add-false : (b : Bool) (kind : Text) (f : FileChange) → add b kind f ≡ [] → b ≡ false
unfolding add
add-false true kind f h = cc
add-false false kind f h = refl

not_dropped : (m n : ℕ) → ltb m n ≡ false → n ≤ m
not_dropped m n h = ground arith

kept_true : (a b : Bool) → a && not b ≡ false → a ≡ true → b ≡ true
kept_true a b h e = ground arith

not_cut_iff :
    (old new half : ℕ)
    → (not (old == 0) && not (new == 0) && ltb new half ≡ false)
      ↔ ((old ≡ 0) ⊎ (new ≡ 0) ⊎ (half ≤ new))
not_cut_iff old new half = ground arith

cut-Lasts : (old new : ℕ) → (cut old new ≡ false) ↔ Lasts old new
unfolding cut
cut-Lasts old new = not_cut_iff old new (old / 2)

weakened-Intact : (f : FileChange) → weakened f ≡ [] → Intact f
unfolding weakened
weakened-Intact f h =
    let (h5, e6) = nil_parts _ _ h in
    let (h4, e5) = nil_parts _ _ h5 in
    let (h3, e4) = nil_parts _ _ h4 in
    let (h2, e3) = nil_parts _ _ h3 in
    let (e1, e2) = nil_parts _ _ h2 in
    record {
      kept_asserts = not_dropped (asserts f.new_text) (asserts f.old_text) (add-false _ _ f e1);
      kept_checks = not_dropped (checks f.new_text) (checks f.old_text) (add-false _ _ f e2);
      not_cut = (cut-Lasts _ _).0 (add-false _ _ f e3);
      kept_rands = not_dropped (rands f.new_text) (rands f.old_text) (add-false _ _ f e4);
      not_pinned = kept_true _ _ (add-false _ _ f e5);
      same_coverage = λ t.
          text_eq_sound f.old_text f.new_text
            (kept_true (covers f.old_text || covers f.new_text) _ (add-false _ _ f e6) t);
    }

below : (m n : ℕ) → n ≤ m → ltb m n ≡ false
below m n h = ground arith

implied : (a b : Bool) → (a ≡ true → b ≡ true) → a && not b ≡ false
implied true b g = rw (g refl) refl
implied false b g = refl

Intact-weakened : (f : FileChange) → Intact f → weakened f ≡ []
unfolding weakened add
Intact-weakened f i =
    rw
      (
        below (asserts f.new_text) (asserts f.old_text) i.kept_asserts,
        below (checks f.new_text) (checks f.old_text) i.kept_checks,
        below (rands f.new_text) (rands f.old_text) i.kept_rands,
        (cut-Lasts (max_timeout f.old_text) (max_timeout f.new_text)).1 i.not_cut,
        implied (pins_seed f.new_text) (pins_seed f.old_text) i.not_pinned,
        implied (covers f.old_text || covers f.new_text) (text_eq f.old_text f.new_text) (λ t.
            subst (λ s. text_eq f.old_text s ≡ true) (i.same_coverage t) (text_eq_refl f.old_text)),
      )
      refl

not_test : (d t : Bool) → d && t ≡ false → d ≡ true → t ≡ false
not_test d t h e = ground arith

-- one file's findings of both passes
file-Harmless :
    (f : FileChange)
    → add (is_deleted f && is_test f) (codes "removed_test_file") f ≡ []
    → (if is_deleted f then [] else weakened f) ≡ []
    → Harmless f
file-Harmless f r e = elim (Bool-cases (is_deleted f)) [
  | inl d ↦ gone d (not_test (is_deleted f) (is_test f) (add-false _ _ f r) d)
  | inr d ↦ stays d (weakened-Intact f (rw d at e))
]

Harmless-file :
    (f : FileChange)
    → Harmless f
    → (add (is_deleted f && is_test f) (codes "removed_test_file") f ≡ [])
      × ((if is_deleted f then [] else weakened f) ≡ [])
unfolding add
Harmless-file f (gone d t) = rw (d, t) (refl, refl)
Harmless-file f (stays d i) = rw d (refl, Intact-weakened f i)

scan-parts : (fs : List FileChange) → removed fs ≡ [] → edited fs ≡ [] → AllHarmless fs
unfolding removed edited
scan-parts [] r e = nothing
scan-parts (f ∷ fs) r e =
    let (r1, r2) = nil_parts _ _ r in
    let (e1, e2) = nil_parts _ _ e in one f fs (file-Harmless f r1 e1) (scan-parts fs r2 e2)

parts-scan : (fs : List FileChange) → AllHarmless fs → (removed fs ≡ []) × (edited fs ≡ [])
unfolding removed edited
parts-scan [] a = (refl, refl)
parts-scan (f ∷ fs) (one _ _ h a) =
    let (r1, e1) = Harmless-file f h in
    let (r2, e2) = parts-scan fs a in (rw (r1, r2) refl, rw (e1, e2) refl)

-- `scan` finds nothing exactly in the changes of which every file is harmless: a deleted file is no
-- test, and in any other file no count of assertions, of self-checks or of random fields drops, the
-- longest timeout is not cut below half, no seed is pinned that was not, and the text is the same
-- if it defines coverage.
pub scan-AllHarmless : (d : Diff) → (scan d ≡ []) ↔ AllHarmless d.files
unfolding scan
scan-AllHarmless d = (
  λ h. let (r, e) = nil_parts _ _ h in scan-parts d.files r e,
  λ a. let (r, e) = parts-scan d.files a in rw (r, e) refl,
)
