-- ===== src/Agent/Session/Closed.antt =====
-- chipchamp/agent/session.py: afterwards every call has an answer.
use chipchamp.Prelude.{
  ℕ, ◌≡◌, refl, sym, ap, ◌∙◌, Bool, true, false, not, ◌&&◌, List, [], ◌∷◌, choose, and_parts,
  Bool-cases, inl, inr, false_is_true,
}
use chipchamp.Text.{Text, text_eq}
use chipchamp.Agent.Transcript.{Message}
use chipchamp.Agent.Session.{has_calls, is_answered, answer, close_dangling_tool_calls}

-- Behind each turn with calls stands a tool's turn.
abbrev pub IsLegal : List Message → Type 0
IsLegal [] = Unit
IsLegal (m ∷ ms) = (has_calls m ≡ true → is_answered ms ≡ true) × IsLegal ms

-- The second transcript is the first with answers put in behind turns with calls that had none.
pub data Answers (note : Text) : List Message → List Message → Type 0 where
  none : Answers note [] []
  same : (m : Message) {ms ns : List Message} → Answers note ms ns → Answers note (m ∷ ms) (m ∷ ns)
  put :
      (m : Message) {ms ns : List Message}
      → has_calls m ≡ true
      → is_answered ms ≡ false
      → Answers note ms ns
      → Answers note (m ∷ ms) (m ∷ answer note m.tool_calls ∷ ns)

-- the first message stays the first
answered_still :
    (note : Text) (ms : List Message)
    → is_answered (close_dangling_tool_calls note ms).0 ≡ is_answered ms
unfolding close_dangling_tool_calls
answered_still note [] = refl
answered_still note (m ∷ ms) = elim (Bool-cases (has_calls m && not (is_answered ms))) [
  | inl e ↦ rw e
  | inr e ↦ rw e
]

-- the answers to a turn that has none
tool-IsLegal :
    (note : Text) (m : Message) (ns : List Message)
    → IsLegal ns
    → IsLegal (m ∷ answer note m.tool_calls ∷ ns)
unfolding text_eq
tool-IsLegal note m ns l = (λ h. refl, (λ h. cc, l))

was_answered : (a b : Bool) → a && not b ≡ false → a ≡ true → b ≡ true
was_answered true true e h = refl
was_answered true false e h = sym e
was_answered false b e h = cc

not_yet : (b : Bool) → not b ≡ true → b ≡ false
not_yet true e = sym e
not_yet false e = refl

-- Afterwards a tool's turn stands behind each turn with calls, and nothing else changed: the
-- transcript is the one before with one answer to all its calls put in behind each turn that had
-- calls and no tool's turn behind it.
pub close_dangling_tool_calls-IsLegal :
    (note : Text) (ms : List Message)
    → IsLegal (close_dangling_tool_calls note ms).0
      × Answers note ms (close_dangling_tool_calls note ms).0
unfolding close_dangling_tool_calls
close_dangling_tool_calls-IsLegal note [] = (tt, none)
close_dangling_tool_calls-IsLegal note (m ∷ ms) =
    let (l, r) = close_dangling_tool_calls-IsLegal note ms in
    choose {A = List Message × ℕ} (λ o. IsLegal o.0 × Answers note (m ∷ ms) o.0)
      (has_calls m && not (is_answered ms)) _ _
      (λ e. let (p, q) = and_parts _ _ e in (tool-IsLegal note m _ l, put m p (not_yet _ q) r))
      (λ e. ((λ h. answered_still note ms ∙ was_answered _ _ e h, l), same m r))

-- a second time nothing is put in
pub close_dangling_tool_calls_idem :
    (note : Text) (ms : List Message) → IsLegal ms → close_dangling_tool_calls note ms ≡ (ms, 0)
unfolding close_dangling_tool_calls
close_dangling_tool_calls_idem note [] l = refl
close_dangling_tool_calls_idem note (m ∷ ms) l =
    choose {A = List Message × ℕ} (λ o. o ≡ (m ∷ ms, 0)) (has_calls m && not (is_answered ms)) _ _
      (λ e.
        let (p, q) = and_parts (has_calls m) (not (is_answered ms)) e in
        absurd (false_is_true (sym (not_yet (is_answered ms) q) ∙ l.0 p)))
      (λ e. ap (λ o. (m ∷ o.0, o.1)) (close_dangling_tool_calls_idem note ms l.1))
