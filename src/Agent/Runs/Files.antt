-- ===== src/Agent/Runs/Files.antt =====
-- chipchamp/agent/runstate.py: the workspace ledger of a run, and its turn in the transcript.
use chipchamp.Prelude.{
  ◌≡◌, refl, sym, ap, ◌∙◌, Bool, true, false, not, ◌&&◌, ◌||◌, List, [], ◌∷◌, ◌++◌, arith,
  Bool-cases, inl, inr, if◌then◌else◌,
}
use chipchamp.Text.{text_eq_sym, Text, text_eq, text_eq_sound, text_eq_refl, starts_with, codes}
use chipchamp.Agent.Runs.{
  WorkspaceLedger, new_ledger, member, add, discard, wrote, removed, bump, Message, ledger_tag,
  is_ledger, strip, render, refresh,
}

pub data Edit : Type 0 where
  write delete : Text → Edit
  change : Edit

apply : WorkspaceLedger → Edit → WorkspaceLedger
apply l (write p) = wrote l p
apply l (delete p) = removed l p
apply l change = bump l

pub apply_all : WorkspaceLedger → List Edit → WorkspaceLedger
apply_all l [] = l
apply_all l (e ∷ es) = apply_all (apply l e) es

-- what the last edit of a path made of it
pub data Fate : Type 0 where
  untouched exists gone : Fate

abbrev pub fate_of : Text → Fate → List Edit → Fate
fate_of p f [] = f
fate_of p f (write q ∷ es) = fate_of p (if text_eq p q then exists else f) es
fate_of p f (delete q ∷ es) = fate_of p (if text_eq p q then gone else f) es
fate_of p f (change ∷ es) = fate_of p f es

abbrev pub is_there : Fate → Bool
is_there exists = true
is_there _ = false

abbrev pub is_gone : Fate → Bool
is_gone gone = true
is_gone _ = false

gone_now : (a : Bool) → a && not true ≡ false
gone_now a = ground arith

still : (a : Bool) → a && not false ≡ a
still a = ground arith

member-discard :
    (p q : Text) (ps : List Text) → member p (discard q ps) ≡ (member p ps && not (text_eq p q))
member-discard p q [] = refl
member-discard p q (r ∷ rs) = elim (Bool-cases (text_eq q r)) [
  | inl e ↦ rw e (member-discard p q rs ∙ rw (sym (text_eq_sound q r e)) (absorb _ _))
  | inr e ↦ rw e (ap (λ b. text_eq p r || b) (member-discard p q rs) ∙ keep _ _ _ (other p q r e))
]
  where
    absorb : (a b : Bool) → b && not a ≡ (a || b) && not a
    absorb a b = ground arith

    keep : (a b c : Bool) → (a ≡ true → c ≡ false) → a || b && not c ≡ (a || b) && not c
    keep true b c h = rw (h refl) refl
    keep false b c h = refl

    other : (x y z : Text) → text_eq y z ≡ false → text_eq x z ≡ true → text_eq x y ≡ false
    other x y z h e = rw (text_eq_sound x z e) (text_eq_sym z y ∙ h)

member-add : (p q : Text) (ps : List Text) → member p (add q ps) ≡ (text_eq p q || member p ps)
member-add p q ps = elim (Bool-cases (member q ps)) [
  | inl e ↦ rw e (known (text_eq p q) _ (λ s. rw (text_eq_sound p q s) e))
  | inr e ↦ rw e refl
]
  where
    known : (a b : Bool) → (a ≡ true → b ≡ true) → b ≡ (a || b)
    known true b h = h refl
    known false b h = refl

-- The two sets agree with what became of a path.
abbrev pub Agrees : Text → WorkspaceLedger → Fate → Type 0
Agrees p l f = (member p l.authored ≡ is_there f) × (member p l.deleted ≡ is_gone f)

wrote-Agrees :
    (p q : Text) (l : WorkspaceLedger) (f : Fate)
    → text_eq p [] ≡ false
    → Agrees p l f
    → Agrees p (wrote l q) (if text_eq p q then exists else f)
unfolding wrote
wrote-Agrees p [] l f n h = rw n h
wrote-Agrees p (c ∷ s) l f n h = elim (Bool-cases (text_eq p (c ∷ s))) [
  | inl e ↦ rw e (
    member-add p (c ∷ s) l.authored ∙ rw e refl,
    member-discard p (c ∷ s) l.deleted ∙ rw e (gone_now _),
  )
  | inr e ↦ rw e (
    member-add p (c ∷ s) l.authored ∙ rw e h.0,
    member-discard p (c ∷ s) l.deleted ∙ rw e (still _ ∙ h.1),
  )
]

removed-Agrees :
    (p q : Text) (l : WorkspaceLedger) (f : Fate)
    → text_eq p [] ≡ false
    → Agrees p l f
    → Agrees p (removed l q) (if text_eq p q then gone else f)
unfolding removed
removed-Agrees p [] l f n h = rw n h
removed-Agrees p (c ∷ s) l f n h = elim (Bool-cases (text_eq p (c ∷ s))) [
  | inl e ↦ rw e (
    member-discard p (c ∷ s) l.authored ∙ rw e (gone_now _),
    member-add p (c ∷ s) l.deleted ∙ rw e refl,
  )
  | inr e ↦ rw e (
    member-discard p (c ∷ s) l.authored ∙ rw e (still _ ∙ h.0),
    member-add p (c ∷ s) l.deleted ∙ rw e h.1,
  )
]

apply_all-Agrees :
    (p : Text) (l : WorkspaceLedger) (f : Fate) (es : List Edit)
    → text_eq p [] ≡ false
    → Agrees p l f
    → Agrees p (apply_all l es) (fate_of p f es)
unfolding apply_all apply bump
apply_all-Agrees p l f [] n h = h
apply_all-Agrees p l f (write q ∷ es) n h =
    apply_all-Agrees p (wrote l q) (if text_eq p q then exists else f) es n
      (wrote-Agrees p q l f n h)
apply_all-Agrees p l f (delete q ∷ es) n h =
    apply_all-Agrees p (removed l q) (if text_eq p q then gone else f) es n
      (removed-Agrees p q l f n h)
apply_all-Agrees p l f (change ∷ es) n h = apply_all-Agrees p (bump l) f es n h

-- After any edits of a run, a path that is not empty is listed as authored exactly if its last edit
-- wrote it, and as deleted exactly if its last edit deleted it; so it is never in both lists.
pub apply_all-fate_of :
    (p : Text) (es : List Edit)
    → text_eq p [] ≡ false
    → Agrees p (apply_all new_ledger es) (fate_of p untouched es)
apply_all-fate_of p es n = apply_all-Agrees p new_ledger untouched es n (refl, refl)

strip-strip : (ms : List Message) → strip (strip ms) ≡ strip ms
unfolding strip
strip-strip [] = refl
strip-strip (m ∷ ms) = elim (Bool-cases (is_ledger m)) [
  | inl e ↦ rw e (strip-strip ms)
  | inr e ↦ rw e (rw e (ap (λ r. m ∷ r) (strip-strip ms)))
]

starts_tag : (s t : Text) → starts_with (s ++ t) s ≡ true
unfolding starts_with
starts_tag [] t = refl
starts_tag (c ∷ s) t = ground (arith, starts_tag s t)

render-is_ledger : (rest : Text) → is_ledger (render rest) ≡ true
unfolding is_ledger render
render-is_ledger rest = rw (text_eq_refl (codes "user")) (starts_tag ledger_tag rest)

strip-last : (ms : List Message) (rest : Text) → strip (ms ++ render rest ∷ []) ≡ strip ms
unfolding strip
strip-last [] rest = rw (render-is_ledger rest) refl
strip-last (m ∷ ms) rest = elim (Bool-cases (is_ledger m)) [
  | inl e ↦ rw e (strip-last ms rest)
  | inr e ↦ rw e (ap (λ r. m ∷ r) (strip-last ms rest))
]

-- A refresh replaces the ledger turn: after another one, the transcript is as if the first had not
-- been, and what `strip` keeps of it is what it kept before.
pub refresh-refresh :
    (ms : List Message) (old new : Text)
    → (refresh (refresh ms old) new ≡ refresh ms new) × (strip (refresh ms old) ≡ strip ms)
unfolding refresh
refresh-refresh ms old new =
    let e = strip-last (strip ms) old ∙ strip-strip ms in (ap (λ r. r ++ render new ∷ []) e, e)
