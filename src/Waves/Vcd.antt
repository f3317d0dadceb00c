-- ===== src/Waves/Vcd.antt =====
-- chipchamp/waves/vcd.py: the parsed dump, and the parser from the matches of its header's regular
-- expressions on. Times are numbers not below zero: a stamp with a minus sign, which no dump has,
-- counts as no stamp.
pub mod Stamps
pub mod Order
use chipchamp.Prelude.{
  ℕ, ◌+◌, ◌*◌, ◌-◌, max, Bool, true, false, not, ◌&&◌, ◌||◌, Option, none, some, List, [], ◌∷◌,
  ◌++◌, ◌==◌, if◌then◌else◌,
}
use mathlib.Core.List.{reverse}
use chipchamp.Text.{Text, codes, text_eq, ends_with, join, lower, is_empty, all, take_while}
use chipchamp.Lines.{splitlines, strip, strip_left}
use chipchamp.Regex.{is_space, is_digit}
use chipchamp.Dict.{Dict, get, put}

pub record VcdSignal : Type 0 where
  pub id_code : Text
  pub name : Text
  pub scope : Text
  pub width : ℕ
  pub var_type : Text

-- a change: when, and the new value
abbrev pub Change : Type 0
Change = ℕ × Text

-- `scopes` is a set in the source; here a scope may stand twice.
pub record VcdData : Type 0 where
  pub timescale : Text
  pub end_time : ℕ
  pub signals : Dict VcdSignal
  pub by_path : Dict Text
  pub changes : Dict (List Change)
  pub scopes : List Text

unfoldable pub path : VcdSignal → Text
unfolding is_empty
path s = if is_empty s.scope then s.name else s.scope ++ b'.' ∷ s.name

-- the codes of the paths that end with the one asked for
unfoldable pub matches : Text → Dict Text → List Text
unfolding ends_with text_eq
matches p [] = []
matches p ((q, code) ∷ d) =
    let rest = matches p d in if ends_with q (b'.' ∷ p) || text_eq q p then code ∷ rest else rest

-- the one element of the set that the list stands for
unfoldable pub only : List Text → Option Text
unfolding text_eq
only [] = none
only (c ∷ cs) = if all (λ d. text_eq d c) cs then some c else none

unfoldable pub id_for : VcdData → Text → Option Text
unfolding get
id_for vcd p = elim (get p vcd.by_path) [
  | some code ↦ some code
  | none ↦ only (matches p vcd.by_path)
]

abbrev is_bit : ℕ → Bool
is_bit c = c == b'0' || c == b'1'

abbrev drop_zeros : Text → Text
drop_zeros [] = []
drop_zeros (c ∷ s) = let rest = drop_zeros s in if c == b'0' then rest else c ∷ s

abbrev or_zero : Text → Text
or_zero [] = codes "0"
or_zero (c ∷ s) = c ∷ s

unfoldable pub canon_vec : Text → Text
canon_vec [] = []
canon_vec (c ∷ s) = if c == b'0' && all is_bit (c ∷ s) then or_zero (drop_zeros (c ∷ s)) else c ∷ s

-- what the header's pattern matches
pub data Def : Type 0 where
  scope : Text → Def
  upscope : Def
  var : Text → ℕ → Text → Text → Def

abbrev base_char : ℕ → Bool
base_char c = not (is_space c) && not (c == b'[')

-- `re.match(r"([^\s\[]+)\s*(\[.*\])?", name)`: what stands before the bit select
unfoldable pub base_of : Text → Text
unfolding take_while strip
base_of name = let n = strip name in elim (take_while base_char n) [ [] ↦ n | (c ∷ s) ↦ c ∷ s ]

abbrev drop_first : List Text → List Text
drop_first [] = []
drop_first (s ∷ ss) = ss

-- `code not in data.signals`
abbrev is_new : Text → VcdData → Bool
is_new code vcd = elim (get code vcd.signals) [ none ↦ true | some s ↦ false ]

-- `data.changes.setdefault(code, [])`
abbrev setdefault : Text → Dict (List Change) → Dict (List Change)
setdefault code d = elim (get code d) [ none ↦ put code [] d | some ch ↦ d ]

-- `scope_stack`, innermost first, and the data
abbrev pub Head : Type 0
Head = List Text × VcdData

unfoldable pub define : Head → Def → Head
unfolding get put join
define (stack, vcd) (scope s) =
    (s ∷ stack, record vcd { scopes = vcd.scopes ++ join b'.' (reverse (s ∷ stack)) ∷ [] })
define (stack, vcd) upscope = (drop_first stack, vcd)
define (stack, vcd) (var var_type width code name) =
    let sig : VcdSignal = record {
      id_code = code;
      name = base_of name;
      scope = join b'.' (reverse stack);
      width = width;
      var_type = var_type;
    } in
    let paths = put (path sig) code vcd.by_path in
    if is_new code vcd
    then (
      stack,
      record vcd {
        signals = put code sig vcd.signals;
        changes = setdefault code vcd.changes;
        by_path = paths;
      },
    )
    else (stack, record vcd { by_path = paths })

unfoldable pub defines : Head → List Def → Head
defines head [] = head
defines head (d ∷ ds) = defines (define head d) ds

-- `int(s)`, with single underscores between the digits
abbrev digits : ℕ → Bool → Text → Option ℕ
digits n ended [] = if ended then some n else none
digits n ended (c ∷ s) =
    let rest = digits (if is_digit c then 10 * n + (c - b'0') else n) (is_digit c) s in
    if is_digit c || c == b'_' && ended then rest else none

abbrev unsigned : Text → Text
unsigned [] = []
unsigned (c ∷ s) = if c == b'+' then s else c ∷ s

unfoldable pub int : Text → Option ℕ
unfolding strip
int s = digits 0 false (unsigned (strip s))

-- `data.changes[code].append(...)`, if the code is declared
unfoldable pub append : Text → Change → VcdData → VcdData
unfolding get put
append code change vcd = elim (get code vcd.changes) [
  | none ↦ vcd
  | some ch ↦ record vcd { changes = put code (ch ++ change ∷ []) vcd.changes }
]

abbrev is_value : ℕ → Bool
is_value c = is_bit c || c == b'x' || c == b'X' || c == b'z' || c == b'Z'

-- `re.match(r"[bB](\S+)\s+(\S+)", line)`, behind its first letter
abbrev dark : ℕ → Bool
dark c = not (is_space c)

abbrev drop_while_dark : Text → Text
drop_while_dark [] = []
drop_while_dark (c ∷ s) = let rest = drop_while_dark s in if dark c then rest else c ∷ s

unfoldable pub two_words : Text → Option (Text × Text)
unfolding take_while is_empty
two_words s =
    let value = take_while dark s in
    let code = take_while dark (strip_left (drop_while_dark s)) in
    if is_empty value || is_empty code then none else some (value, code)

-- `cur_time`, and the data
abbrev pub Body : Type 0
Body = ℕ × VcdData

unfoldable pub stamp : Body → Option ℕ → Body
stamp (cur, vcd) none = (cur, vcd)
stamp (cur, vcd) (some n) = (n, record vcd { end_time = max vcd.end_time n })

unfoldable pub vector : (Text → Text) → Body → Option (Text × Text) → Body
vector form (cur, vcd) none = (cur, vcd)
vector form (cur, vcd) (some (value, code)) = (cur, append code (cur, form value) vcd)

-- one line of the body, stripped
unfoldable pub read_line : Body → Text → Body
unfolding lower
read_line (cur, vcd) [] = (cur, vcd)
read_line (cur, vcd) (c ∷ s) =
    if c == b'$'
    then (cur, vcd)
    else if c == b'#'
    then stamp (cur, vcd) (int s)
    else if is_value c
    then (cur, append s (cur, lower (c ∷ [])) vcd)
    else if c == b'b' || c == b'B'
    then vector (λ v. canon_vec (lower v)) (cur, vcd) (two_words s)
    else if c == b'r' || c == b'R'
    then vector (λ v. v) (cur, vcd) (two_words s)
    else (cur, vcd)

unfoldable pub read_lines : Body → List Text → Body
unfolding strip
read_lines body [] = body
read_lines body (l ∷ ls) = read_lines (read_line body (strip l)) ls

abbrev empty_data : Text → VcdData
empty_data timescale = record {
  timescale = timescale;
  end_time = 0;
  signals = [];
  by_path = [];
  changes = [];
  scopes = [];
}

-- from the timescale, the header's matches and the body
unfoldable pub parse_vcd : Text → List Def → Text → VcdData
unfolding splitlines
parse_vcd timescale defs body =
    (read_lines (0, (defines ([], empty_data timescale) defs).1) (splitlines body)).1
