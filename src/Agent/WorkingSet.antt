-- ===== src/Agent/WorkingSet.antt =====
-- chipchamp/agent/working_set.py: `compact`, which takes the bodies of old tool results out of a
-- transcript. JSON is a parameter: `loads` reads an output, and `dumps` prints the kept fields. A
-- transcript is passed as a value and returned changed.
pub mod Kept
pub mod Compacted
use chipchamp.Prelude.{
  ℕ, zero, suc, ◌+◌, ◌-◌, ◌*◌, ◌/◌, max, Bool, true, false, not, ◌&&◌, ◌||◌, Option, none, some,
  List, [], ◌∷◌, ◌++◌, map, leb, ltb, ◌==◌, length, take, if◌then◌else◌,
}
use chipchamp.Text.{
  Text, codes, text_eq, starts_with, split, slash, is_empty, any, sorted_texts, take_while,
}
use chipchamp.Text.Numbers.{decimal}
use chipchamp.Dict.{Dict, get, keys}
use chipchamp.Agent.Digest.{Value, Loaded, digest_output, is_pinned}
use chipchamp.Agent.Transcript.{
  Result, Item, result, other, Content, nothing, words, items, Message, transcript_size,
}

abbrev pub is_tool_turn : Text → Content → Bool
is_tool_turn role nothing = false
is_tool_turn role (words t) = false
is_tool_turn role (items is) = text_eq role (codes "tool")

-- the transcript, the bodies taken out, and whether it fits
abbrev pub Swept : Type 0
Swept = List Message × (ℕ × Bool)

-- the report; an early answer has its first three fields only
pub record Report : Type 0 where
  pub compacted : Bool
  pub before : ℕ
  pub after_ : ℕ
  pub evicted_results : ℕ
  pub under_budget : Bool
  pub freed : ℕ

abbrev pub horizon_of : List Message → ℕ → ℕ
horizon_of transcript keep_recent = length transcript - keep_recent

module _ (loads : Text → Loaded) (dumps : Dict Value → Text) where
  module _ (fetched : List Text) where
    -- an item after its turn, and one if a body was taken out
    abbrev pub turn : Bool → Item → Item × ℕ
    turn skip_pinned (other t) = (other t, 0)
    turn skip_pinned (result r) = if skip_pinned && is_pinned fetched r then (result r, 0) else (
      result (record r { output = (digest_output loads dumps r.name r.output).0 }),
      if (digest_output loads dumps r.name r.output).1 then 1 else 0,
    )

    abbrev pub turns : Bool → List Item → List Item × ℕ
    turns skip_pinned [] = ([], 0)
    turns skip_pinned (i ∷ is) =
        let (j, n) = turn skip_pinned i in let (js, k) = turns skip_pinned is in (j ∷ js, n + k)

    abbrev pub swept_content : Bool → Content → Content
    swept_content skip nothing = nothing
    swept_content skip (words t) = words t
    swept_content skip (items is) = items (turns skip is).0

    abbrev pub taken_out : Bool → Content → ℕ
    taken_out skip nothing = 0
    taken_out skip (words t) = 0
    taken_out skip (items is) = (turns skip is).1

    -- a message after its turn, and how many bodies were taken out of it
    unfoldable pub swept : Bool → Message → Message × ℕ
    swept skip m =
        if is_tool_turn m.role m.content
        then (record m { content = swept_content skip m.content }, taken_out skip m.content)
        else (m, 0)

    -- `_sweep` over the first messages, behind those that it has seen
    unfoldable pub sweep : Bool → ℕ → ℕ → List Message → List Message → ℕ → Swept
    sweep skip budget zero seen rest evicted = (seen ++ rest, (evicted, false))
    sweep skip budget (suc h) seen [] evicted = (seen ++ [], (evicted, false))
    sweep skip budget (suc h) seen (m ∷ ms) evicted =
        let n = (swept skip m).0 in
        let count = evicted + (swept skip m).1 in
        let rest = sweep skip budget h (seen ++ n ∷ []) ms count in
        if is_tool_turn m.role m.content && leb (transcript_size (seen ++ n ∷ ms)) budget
        then (seen ++ n ∷ ms, (count, true))
        else rest

    abbrev pub second : ℕ → ℕ → Swept → Swept
    second budget horizon (out, (evicted, true)) = (out, (evicted, true))
    second budget horizon (out, (evicted, false)) = sweep false budget horizon [] out evicted

    abbrev pub first_sweep : ℕ → ℕ → List Message → Swept
    first_sweep budget keep_recent transcript =
        sweep true budget (horizon_of transcript keep_recent) [] transcript 0

    unfoldable pub compact : ℕ → ℕ → List Message → List Message × Report
    compact budget keep_recent transcript =
        let before = transcript_size transcript in
        let (out, (evicted, fits)) =
          second budget (horizon_of transcript keep_recent)
            (first_sweep budget keep_recent transcript) in
        if leb before budget
        then (
          transcript,
          record {
            compacted = false;
            before = before;
            after_ = before;
            evicted_results = 0;
            under_budget = true;
            freed = 0;
          },
        )
        else (
          out,
          record {
            compacted = ltb 0 evicted;
            before = before;
            after_ = transcript_size out;
            evicted_results = evicted;
            under_budget = leb (transcript_size out) budget;
            freed = before - transcript_size out;
          },
        )

-- `budget_for`, from the numbers that the configuration and the gateway give: `context_chars` if it
-- is a number, and the two `num_ctx`, 0 if they are none. 3.6 * 0.55 is 1.98.
pub budget_for : Option ℕ → ℕ → ℕ → ℕ
budget_for (some zero) a b = 0
budget_for (some (suc n)) a b = max 8000 (suc n)
budget_for none a b = if max a b == 0 then 60000 else max 8000 (max a b * 198 / 100)
