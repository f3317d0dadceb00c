-- ===== src/Agent/Session.antt =====
-- chipchamp/agent/session.py: the messages of a session, and `close_dangling_tool_calls`, which
-- answers the calls of a transcript that were interrupted. Files and times are not modelled.
pub mod Closed
use chipchamp.Prelude.{
  ℕ, ◌+◌, Bool, true, false, not, ◌&&◌, List, [], ◌∷◌, ◌++◌, map, if◌then◌else◌,
}
use chipchamp.Text.{Text, codes, text_eq, is_empty}
use chipchamp.Agent.Transcript.{Call, Item, result, Result, Content, items, Message}

pub record Session : Type 0 where
  pub id : Text
  pub target : Text
  pub messages : List Message

pub append : Session → Text → Content → Session
append s role content = record s {
  messages = s.messages ++ record { role = role; content = content; tool_calls = [] } ∷ [];
}

-- an assistant's turn with calls
abbrev pub has_calls : Message → Bool
has_calls m = text_eq m.role (codes "assistant") && not (is_empty m.tool_calls)

-- whether the next message is a tool's
abbrev pub is_answered : List Message → Bool
is_answered [] = false
is_answered (n ∷ ms) = text_eq n.role (codes "tool")

abbrev quote : ℕ
quote = 34

-- `{"error": "... — this call never ran"}`
abbrev never_ran : Text → Text
never_ran note =
    b'{'
    ∷ quote
    ∷ (codes "error"
        ++ (quote
            ∷ (codes ": "
                ++ quote ∷ (note ++ (codes " — this call never ran" ++ (quote ∷ b'}' ∷ []))))))

abbrev pub answer : Text → List Call → Message
answer note calls = record {
  role = codes "tool";
  content =
      items
        (map (λ c. result (record { id = c.id; name = c.name; output = never_ran note })) calls);
  tool_calls = [];
}

-- the loop: the transcript afterwards, and how many turns were put in
unfoldable pub close_dangling_tool_calls : Text → List Message → List Message × ℕ
unfolding text_eq is_empty
close_dangling_tool_calls note [] = ([], 0)
close_dangling_tool_calls note (m ∷ ms) =
    let (rest, n) = close_dangling_tool_calls note ms in
    if has_calls m && not (is_answered ms)
    then (m ∷ answer note m.tool_calls ∷ rest, n + 1)
    else (m ∷ rest, n)
