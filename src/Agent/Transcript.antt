-- ===== src/Agent/Transcript.antt =====
-- chipchamp/agent/loop.py: the messages of a transcript, and `transcript_size`. A call's input and a
-- result's output are their texts.
use chipchamp.Prelude.{ℕ, ◌+◌, List, [], ◌∷◌, length}
use chipchamp.Text.{Text}

pub record Result : Type 0 where
  pub id : Text
  pub name : Text
  pub output : Text

-- an entry of a tool turn: a result, or something else that is not a dictionary
pub data Item : Type 0 where
  result : Result → Item
  other : Text → Item

pub record Call : Type 0 where
  pub id : Text
  pub name : Text
  pub input : Text

pub data Content : Type 0 where
  nothing : Content
  words : Text → Content
  items : List Item → Content

pub record Message : Type 0 where
  pub role : Text
  pub content : Content
  pub tool_calls : List Call

abbrev item_size : Item → ℕ
item_size (result r) = length r.output
item_size (other t) = 0

abbrev items_size : List Item → ℕ
items_size [] = 0
items_size (i ∷ is) = item_size i + items_size is

abbrev content_size : Content → ℕ
content_size nothing = 0
content_size (words t) = length t
content_size (items is) = items_size is

abbrev calls_size : List Call → ℕ
calls_size [] = 0
calls_size (c ∷ cs) = length c.input + calls_size cs

-- `transcript_size(transcript)["chars"]`
unfoldable pub transcript_size : List Message → ℕ
transcript_size [] = 0
transcript_size (m ∷ ms) = content_size m.content + calls_size m.tool_calls + transcript_size ms
