-- ===== src/Policy/Gates/Diagnosis.antt =====
-- chipchamp/policy/gates.py: the gate on root-cause notes, with its regular expression
-- `J-[0-9a-f]{4,}|J-\d{4}` as a scanner. Over ASCII the second alternative never matches where the
-- first does not.
use chipchamp.Prelude.{
  ℕ, zero, suc, ◌+◌, ◌-◌, Bool, ◌&&◌, ◌||◌, List, [], ◌∷◌, ◌++◌, map, leb, ◌==◌, length, take, drop,
  if◌then◌else◌,
}
use chipchamp.Text.{Text, codes, text_eq, starts_with, take_while, sorted_texts, is_empty, any}
use chipchamp.Jobs.Record.{JobRecord, is_passed}
use chipchamp.Policy.Gates.Data.{Evidence, Note, GateResult, diagnosis_cited, pass, fail, result}

abbrev hex : ℕ → Bool
hex c = leb b'0' c && leb c b'9' || leb b'a' c && leb c b'f'

-- the length of the match that begins here, or 0
reach : Text → ℕ
reach s =
    let digits = length (take_while hex (drop 2 s)) in
    if starts_with s (codes "J-") && leb 4 digits then 2 + digits else 0

find_ids : ℕ → Text → List Text
find_ids skip [] = []
find_ids (suc skip) (c ∷ s) = find_ids skip s
find_ids zero (c ∷ s) =
    let n = reach (c ∷ s) in
    let found = take n (c ∷ s) ∷ find_ids (n - 1) s in
    let none_here = find_ids zero s in if n == 0 then none_here else found

abbrev space : Text
space = codes " "

abbrev note_text : Note → Text
note_text n = n.subject ++ (space ++ (n.detail ++ (space ++ n.evidence)))

unfoldable pub cited : List Note → List Text
unfolding find_ids reach starts_with take_while
cited [] = []
cited (n ∷ ns) = find_ids zero (note_text n) ++ cited ns

-- `ev.diagnosis_jobs or ev.jobs`
abbrev pub history : Evidence → List JobRecord
history ev = if is_empty ev.diagnosis_jobs then ev.jobs else ev.diagnosis_jobs

unfoldable pub failing : List JobRecord → List JobRecord
failing [] = []
failing (j ∷ js) = let rest = failing js in if is_passed j.status then rest else j ∷ rest

-- the failing jobs, or every job where none fails
abbrev pub wanted : Evidence → List JobRecord
wanted ev = if is_empty (failing (history ev)) then history ev else failing (history ev)

unfoldable pub common : List Text → List JobRecord → List Text
unfolding text_eq
common ids [] = []
common ids (j ∷ js) =
    let rest = common ids js in if any (λ i. text_eq i j.id) ids then j.id ∷ rest else rest

abbrev note_ids : List Note → List Text
note_ids [] = codes "root_cause" ∷ []
note_ids (n ∷ ns) = map (λ m. m.id) (n ∷ ns)

unfoldable pub eval_diagnosis_cited : Evidence → GateResult
eval_diagnosis_cited ev =
    let hit = common (cited ev.root_cause_notes) (wanted ev) in
    if is_empty hit
    then result diagnosis_cited fail (note_ids ev.root_cause_notes)
    else result diagnosis_cited pass (take 3 (sorted_texts hit))
