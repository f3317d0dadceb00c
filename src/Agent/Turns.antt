-- ===== src/Agent/Turns.antt =====
-- An assistant's call of a simulation, and the turn that answers it.
use chipchamp.Prelude.{◌≡◌, refl, [], ◌∷◌, replicate}
use chipchamp.Text.{codes}
use chipchamp.Agent.Transcript.{Message, words, items, result, transcript_size}
use chipchamp.Agent.Digest.{no_json, digest_output, is_pinned}
use chipchamp.Agent.WorkingSet.{compact, sweep, swept}
use chipchamp.Agent.WorkingSet.Compacted.{Compacted, compact-Compacted}
use chipchamp.Agent.Session.{close_dangling_tool_calls}
use chipchamp.Agent.Session.Closed.{IsLegal, Answers, close_dangling_tool_calls-IsLegal}

abbrev tool_turn : Message
tool_turn = record {
  role = codes "tool";
  content = items (
      result (record { id = codes "1"; name = codes "sim.run"; output = replicate 500 b'x' }) ∷ []);
  tool_calls = [];
}

abbrev asked : Message
asked = record {
  role = codes "assistant";
  content = words (codes "run it");
  tool_calls = record { id = codes "1"; name = codes "sim.run"; input = codes "{}" } ∷ [];
}

compact-Compacted_example :
    Compacted
      (λ t. no_json)
      (λ d. [])
      []
      400
      1
      (asked ∷ tool_turn ∷ asked ∷ [])
      (compact (λ t. no_json) (λ d. []) [] 400 1 (asked ∷ tool_turn ∷ asked ∷ [])).0
compact-Compacted_example =
    compact-Compacted (λ t. no_json) (λ d. []) [] 400 1 (asked ∷ tool_turn ∷ asked ∷ [])

close_dangling_tool_calls-IsLegal_example :
    IsLegal (close_dangling_tool_calls (codes "stopped") (asked ∷ asked ∷ tool_turn ∷ [])).0
    × Answers
        (codes "stopped")
        (asked ∷ asked ∷ tool_turn ∷ [])
        (close_dangling_tool_calls (codes "stopped") (asked ∷ asked ∷ tool_turn ∷ [])).0
close_dangling_tool_calls-IsLegal_example =
    close_dangling_tool_calls-IsLegal (codes "stopped") (asked ∷ asked ∷ tool_turn ∷ [])

compact_example :
    (transcript_size (compact (λ t. no_json) (λ d. []) [] 400 1 (asked ∷ tool_turn ∷ asked ∷ [])).0
      ≡ 302)
    × ((close_dangling_tool_calls (codes "stopped") (asked ∷ asked ∷ tool_turn ∷ [])).1 ≡ 1)
unfolding compact sweep swept transcript_size digest_output is_pinned close_dangling_tool_calls
compact_example = (refl, refl)
