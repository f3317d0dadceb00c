-- ===== src/Agent/Retry.antt =====
-- chipchamp/agent/retry.py: which failed calls of a model are tried again, and after how long. An
-- exception keeps what the code reads of it: its class, its attributes, its text and its header
-- `Retry-After`. Waiting times count half microseconds; `jitter` is `random.random()` in
-- thousandths, and `base` is in milliseconds.
pub mod Waits
use chipchamp.Prelude.{
  ℕ, ◌+◌, ◌-◌, ◌*◌, Bool, true, false, not, ◌&&◌, ◌||◌, Option, none, some, List, [], ◌∷◌, leb, ltb,
  ◌==◌, min, if◌then◌else◌,
}
use chipchamp.Text.{Text, codes, contains, lower, take_while, any}
use chipchamp.Regex.{is_word, is_space, is_digit}

-- what `float(v)` makes of the header, in milliseconds and not below 0
pub data Header : Type 0 where
  absent unreadable : Header
  milliseconds : ℕ → Header

-- `attributes` are `status_code`, `code` and `status`, `none` if it is missing or no integer.
pub record Fault : Type 0 where
  pub timed_out : Bool
  pub transport : Bool
  pub type_name : Text
  pub attributes : List (Option ℕ)
  pub message : Text
  pub header : Header

pub record Failure : Type 0 where
  pub fault : Fault
  pub cause : Option Fault

pub data Reason : Type 0 where
  timeout glitch deterministic transient : Reason
  connection other : Text → Reason
  http : ℕ → Reason

unfoldable pub retry_codes : List ℕ
retry_codes = 408 ∷ 409 ∷ 425 ∷ 429 ∷ 500 ∷ 502 ∷ 503 ∷ 504 ∷ 529 ∷ []

unfoldable pub never_codes : List ℕ
never_codes = 401 ∷ 403 ∷ 404 ∷ 413 ∷ 422 ∷ []

abbrev transient_words : List Text
transient_words =
    codes "connection reset"
    ∷ codes "connection refused"
    ∷ codes "remote end closed"
    ∷ codes "incomplete read"
    ∷ codes "temporarily unavailable"
    ∷ codes "timed out"
    ∷ codes "overloaded"
    ∷ codes "rate limit"
    ∷ []

-- the rest of a text behind a beginning
unfoldable pub after : Text → Text → Option Text
after [] s = some s
after (c ∷ p) [] = none
after (c ∷ p) (d ∷ s) = let rest = after p s in if c == d then rest else none

unfoldable pub skip_spaces : Text → Text
skip_spaces [] = []
skip_spaces (c ∷ s) = let rest = skip_spaces s in if is_space c then rest else c ∷ s

abbrev starts_word : Text → Bool
starts_word [] = false
starts_word (c ∷ s) = is_word c

abbrev digit : ℕ → ℕ
digit c = c - b'0'

-- `(\d{3})\b`
abbrev read_three : Text → Option ℕ
read_three (a ∷ b ∷ c ∷ s) =
    if is_digit a && is_digit b && is_digit c && not (starts_word s)
    then some (100 * digit a + 10 * digit b + digit c)
    else none
read_three _ = none

abbrev skip_colon : Text → Text
skip_colon [] = []
skip_colon (c ∷ s) = if c == b':' then s else c ∷ s

-- a match of `_CODE_RX` here, in a text in lower case
unfoldable pub code_here : Text → Option ℕ
unfolding after skip_spaces
code_here s = elim (after (codes "http") s) [
  | some t ↦ read_three (skip_spaces t)
  | none ↦ elim (after (codes "error code") s) [
    | some t ↦ read_three (skip_spaces (skip_colon t))
    | none ↦ none
  ]
]

abbrev or_later : Option ℕ → Option ℕ → Option ℕ
or_later none later = later
or_later (some c) later = some c

-- `_CODE_RX.search`; `inside` tells whether the character before belongs to a word
unfoldable pub code_in : Bool → Text → Option ℕ
unfolding code_here
code_in inside [] = none
code_in inside (c ∷ s) =
    let rest = code_in (is_word c) s in if inside then rest else or_later (code_here (c ∷ s)) rest

unfoldable pub first_code : List (Option ℕ) → Option ℕ
first_code [] = none
first_code (none ∷ vs) = first_code vs
first_code (some v ∷ vs) =
    let rest = first_code vs in if leb 100 v && leb v 599 then some v else rest

abbrev cause_code : Option Fault → Option ℕ
cause_code none = none
cause_code (some f) = first_code f.attributes

unfoldable pub status_code : Failure → Option ℕ
unfolding first_code code_in lower
status_code e =
    or_later (first_code e.fault.attributes)
      (or_later (cause_code e.cause) (code_in false (lower e.fault.message)))

-- `expected .* format`, on one line
unfoldable pub expected_format : Text → Bool
unfolding after contains take_while
expected_format [] = false
expected_format (c ∷ s) =
    elim (after (codes "expected ") (c ∷ s)) [
      | none ↦ false
      | some t ↦ contains (take_while (λ d. not (d == 10)) t) (codes " format")
    ]
    || expected_format s

unfoldable pub glitch_400 : Text → Bool
unfolding contains expected_format
glitch_400 s =
    contains s (codes "peg-native")
    || expected_format s
    || contains s (codes "produced output")
    || contains s (codes "grammar")
    || contains s (codes "malformed sample")

abbrev pub is_connection : Fault → Bool
is_connection f = f.transport || contains f.type_name (codes "Connection")

abbrev pub connection_of : Failure → Option Text
connection_of e =
    if is_connection e.fault
    then some e.fault.type_name
    else elim e.cause [ none ↦ none | some f ↦ if is_connection f then some f.type_name else none ]

-- the classification once only the text is left
unfoldable pub by_message : Fault → Bool × Reason
unfolding contains lower
by_message f =
    if any (λ w. contains (lower f.message) w) transient_words
    then (true, transient)
    else (false, other f.type_name)

unfoldable pub among : ℕ → List ℕ → Bool
among c cs = any (λ d. c == d) cs

unfoldable pub by_code : Fault → Option ℕ → Bool × Reason
unfolding by_message glitch_400 lower among
by_code f none = by_message f
by_code f (some c) =
    if among c never_codes
    then (false, http c)
    else if among c retry_codes
    then (true, http c)
    else if c == 400
    then (if glitch_400 (lower f.message) then (true, glitch) else (false, deterministic))
    else if leb 400 c && ltb c 500
    then (false, http c)
    else by_message f

abbrev pub concluded : Bool → Option Text → Bool × Reason → Bool × Reason
concluded true conn later = (false, timeout)
concluded false none later = later
concluded false (some n) later = (true, connection n)

unfoldable pub classify : Failure → Bool × Reason
unfolding by_code status_code contains
classify e = concluded e.fault.timed_out (connection_of e) (by_code e.fault (status_code e))

-- the header's wait, or that of what is looked at next if there is no header
abbrev pub asked : Header → Option ℕ → Option ℕ
asked absent next = next
asked unreadable next = none
asked (milliseconds ms) next = some (min 60000 ms)

abbrev pub cause_asks : Option Fault → Option ℕ
cause_asks none = none
cause_asks (some f) = asked f.header none

unfoldable pub retry_after : Failure → Option ℕ
retry_after e = asked e.fault.header (cause_asks e.cause)

abbrev pub wait : Option ℕ → ℕ → ℕ → ℕ
wait (some ms) linear jitter = 2000 * ms
wait none linear jitter = linear * (2000 + jitter)

unfoldable pub backoff : Failure → ℕ → ℕ → ℕ → ℕ
unfolding retry_after
backoff e attempt base jitter = wait (retry_after e) (base * (attempt + 1)) jitter
