-- ===== src/Agent/Runs.antt =====
-- chipchamp/agent/runstate.py: `WorkspaceLedger`, and the part of `RunState` that watches for a
-- simulation that fails the same way again and again. A set is a list; a message of the transcript
-- keeps its role and its content, and the ledger's text is a parameter.
pub mod Files
use chipchamp.Prelude.{
  ℕ, ◌+◌, Bool, true, false, not, ◌&&◌, ◌||◌, Option, none, some, List, [], ◌∷◌, ◌++◌, leb,
  if◌then◌else◌,
}
use chipchamp.Text.{Text, codes, text_eq, starts_with, is_empty, any}

pub record WorkspaceLedger : Type 0 where
  pub authored : List Text
  pub deleted : List Text
  pub epoch : ℕ
  pub active : Bool

abbrev pub new_ledger : WorkspaceLedger
new_ledger = record { authored = []; deleted = []; epoch = 0; active = false }

abbrev pub member : Text → List Text → Bool
member p ps = any (λ q. text_eq p q) ps

-- `s.add(p)` and `s.discard(p)`
abbrev pub add : Text → List Text → List Text
add p ps = if member p ps then ps else p ∷ ps

abbrev pub discard : Text → List Text → List Text
discard p [] = []
discard p (q ∷ qs) = let rest = discard p qs in if text_eq p q then rest else q ∷ rest

pub wrote : WorkspaceLedger → Text → WorkspaceLedger
wrote l [] = l
wrote l (c ∷ s) = record l {
  authored = add (c ∷ s) l.authored;
  deleted = discard (c ∷ s) l.deleted;
}

pub removed : WorkspaceLedger → Text → WorkspaceLedger
removed l [] = l
removed l (c ∷ s) = record l {
  authored = discard (c ∷ s) l.authored;
  deleted = add (c ∷ s) l.deleted;
}

pub bump : WorkspaceLedger → WorkspaceLedger
bump l = record l { epoch = l.epoch + 1 }

pub dirty : WorkspaceLedger → Bool
dirty l = not (is_empty l.authored) || not (is_empty l.deleted)

pub record Message : Type 0 where
  pub role : Text
  pub content : Text

abbrev pub ledger_tag : Text
ledger_tag = codes "[workspace ledger]"

pub is_ledger : Message → Bool
is_ledger m = text_eq m.role (codes "user") && starts_with m.content ledger_tag

pub strip : List Message → List Message
strip [] = []
strip (m ∷ ms) = let rest = strip ms in if is_ledger m then rest else m ∷ rest

-- `render` puts its text behind the tag.
pub render : Text → Message
render rest = record { role = codes "user"; content = ledger_tag ++ rest }

pub refresh : List Message → Text → List Message
refresh ms rest = strip ms ++ render rest ∷ []

-- `sim_sig`, its count, and the signatures that were taught
abbrev pub Signature : Type 0
Signature = Text × Text

pub record RunState : Type 0 where
  pub sim_sig : Option Signature
  pub sim_sig_count : ℕ
  pub sim_sigs_nudged : List Signature

abbrev pub sig_eq : Signature → Signature → Bool
sig_eq a b = text_eq a.0 b.0 && text_eq a.1 b.1

abbrev pub same_sig : Signature → Option Signature → Bool
same_sig a none = false
same_sig a (some b) = sig_eq a b

pub saw_sim_signature : RunState → Option Signature → Bool → RunState
saw_sim_signature s (some sig) job_passed =
    if same_sig sig s.sim_sig
    then record s { sim_sig_count = s.sim_sig_count + 1 }
    else record s { sim_sig = some sig; sim_sig_count = 1 }
saw_sim_signature s none true = record s { sim_sig = none; sim_sig_count = 0 }
saw_sim_signature s none false = s

abbrev suspect_of : Option Signature → ℕ → List Signature → Bool
suspect_of none count nudged = false
suspect_of (some sig) count nudged = leb 3 count && not (any (λ s. sig_eq sig s) nudged)

pub oracle_suspect : RunState → Bool
oracle_suspect s = suspect_of s.sim_sig s.sim_sig_count s.sim_sigs_nudged
