-- ===== src/Design/Names.antt =====
-- chipchamp/design/parser.py: `signal_names`, the signals of an expression. Its regular expressions
-- are scanners, each of which passes over what it matched; a set is a list.
mod Tests
use chipchamp.Prelude.{
  ℕ, zero, suc, ◌+◌, ◌-◌, Bool, true, false, not, ◌&&◌, ◌||◌, Option, none, some, List, [], ◌∷◌,
  ◌++◌, length, drop, ltb, ◌==◌, if◌then◌else◌,
}
use chipchamp.Text.{Text, codes, text_eq, starts_with, any, take_while}
use chipchamp.Regex.{is_word, is_space, is_digit}

abbrev keywords : List Text
keywords =
    codes "module"
    ∷ codes "endmodule"
    ∷ codes "input"
    ∷ codes "output"
    ∷ codes "inout"
    ∷ codes "logic"
    ∷ codes "wire"
    ∷ codes "reg"
    ∷ codes "bit"
    ∷ codes "signed"
    ∷ codes "unsigned"
    ∷ codes "parameter"
    ∷ codes "localparam"
    ∷ codes "assign"
    ∷ codes "always"
    ∷ codes "always_ff"
    ∷ codes "always_comb"
    ∷ codes "always_latch"
    ∷ codes "initial"
    ∷ codes "begin"
    ∷ codes "end"
    ∷ codes "if"
    ∷ codes "else"
    ∷ codes "case"
    ∷ codes "casez"
    ∷ codes "casex"
    ∷ codes "endcase"
    ∷ codes "for"
    ∷ codes "while"
    ∷ codes "posedge"
    ∷ codes "negedge"
    ∷ codes "or"
    ∷ codes "and"
    ∷ codes "typedef"
    ∷ codes "enum"
    ∷ codes "struct"
    ∷ codes "packed"
    ∷ codes "genvar"
    ∷ codes "generate"
    ∷ codes "endgenerate"
    ∷ codes "function"
    ∷ codes "endfunction"
    ∷ codes "task"
    ∷ codes "endtask"
    ∷ codes "interface"
    ∷ codes "endinterface"
    ∷ codes "modport"
    ∷ codes "package"
    ∷ codes "endpackage"
    ∷ codes "import"
    ∷ codes "return"
    ∷ codes "default"
    ∷ codes "int"
    ∷ codes "integer"
    ∷ codes "byte"
    ∷ codes "shortint"
    ∷ codes "longint"
    ∷ codes "unique"
    ∷ codes "priority"
    ∷ codes "static"
    ∷ codes "automatic"
    ∷ codes "const"
    ∷ codes "var"
    ∷ codes "wor"
    ∷ codes "wand"
    ∷ []

abbrev one_of : Text → ℕ → Bool
one_of cs c = any (λ d. c == d) cs

abbrev skip_while : (ℕ → Bool) → Text → Text
skip_while p [] = []
skip_while p (c ∷ s) = let rest = skip_while p s in if p c then rest else c ∷ s

-- at least one digit of a based number: how many characters are left, if so
abbrev digits_left : Text → Option ℕ
digits_left [] = none
digits_left (c ∷ s) =
    if one_of (codes "0123456789abcdefABCDEFxXzZ_?") c
    then some (length (skip_while (one_of (codes "0123456789abcdefABCDEFxXzZ_?")) s))
    else none

abbrev base_left : Text → Option ℕ
base_left [] = none
base_left (c ∷ s) = if one_of (codes "bBoOdDhH") c then digits_left s else none

-- `[sS]?`
abbrev sign_left : Text → Option ℕ
sign_left [] = none
sign_left (c ∷ s) = if one_of (codes "sS") c then base_left s else base_left (c ∷ s)

abbrev quote_left : Text → Option ℕ
quote_left [] = none
quote_left (c ∷ s) = if c == 39 then sign_left (skip_while is_space s) else none

-- `_BASED_NUM` here: how many characters it takes, 0 if it does not match
abbrev taken : Text → Option ℕ → ℕ
taken s none = 0
taken s (some left) = length s - left

pub based_here : Text → ℕ
based_here [] = 0
based_here (c ∷ s) = taken (c ∷ s) (
    if is_digit c
    then quote_left (skip_while is_space (skip_while (λ d. is_digit d || d == b'_') s))
    else quote_left (c ∷ s))

-- `_SYSCALL` here
pub syscall_here : Text → ℕ
syscall_here [] = 0
syscall_here (c ∷ s) =
    let n = length (take_while is_word s) in if c == b'$' && ltb 0 n then n + 1 else 0

-- `rx.sub(" ", s)`, with what is still to skip of a match
pub blank_out : (Text → ℕ) → ℕ → Text → Text
blank_out here skip [] = []
blank_out here (suc skip) (c ∷ s) = blank_out here skip s
blank_out here zero (c ∷ s) =
    let n = here (c ∷ s) in
    let rest = blank_out here (n - 1) s in if n == 0 then c ∷ rest else 32 ∷ rest

abbrev starts_name : ℕ → Bool
starts_name c = is_word c && not (is_digit c)

-- the names, and whether an opening parenthesis follows
pub idents : ℕ → Text → List (Text × Bool)
unfolding take_while starts_with
idents skip [] = []
idents (suc skip) (c ∷ s) = idents skip s
idents zero (c ∷ s) =
    let tail = take_while is_word s in
    let rest = idents (if starts_name c then length tail else 0) s in
    if starts_name c
    then (c ∷ tail, starts_with (skip_while is_space (drop (length tail) s)) (codes "(")) ∷ rest
    else rest

abbrev is_called : Text → List (Text × Bool) → Bool
is_called t found = any (λ f. f.1 && text_eq t f.0) found

abbrev signals_of : List (Text × Bool) → List (Text × Bool) → List Text
signals_of all_found [] = []
signals_of all_found ((t, b) ∷ more) =
    let rest = signals_of all_found more in
    if any (λ k. text_eq t k) keywords || is_called t all_found then rest else t ∷ rest

unfoldable pub signal_names : Text → List Text
unfolding idents blank_out based_here syscall_here text_eq
signal_names text =
    let found = idents 0 (blank_out syscall_here 0 (blank_out based_here 0 text)) in
    signals_of found found
