-- ===== src/Policy/Antigaming.antt =====
-- chipchamp/policy/antigaming.py: what a change must not do to turn the gates green. A finding's
-- `detail`, the text for the human, is not modelled, and so neither is the closure claim, which
-- only that text reads.
pub mod Clean
mod Examples
use chipchamp.Prelude.{
  ℕ, ◌+◌, ◌*◌, ◌/◌, ◌≡◌, refl, Bool, true, false, not, ◌&&◌, ◌||◌, Option, none, some, List, [],
  ◌∷◌, ◌++◌, leb, ltb, ◌==◌, max, length, if◌then◌else◌,
}
use chipchamp.Text.{
  Text, codes, text_eq, starts_with, contains, lower, cons_first, take_while, backslash, slash,
}
use chipchamp.Lines.{splitlines, strip_left}
use chipchamp.Regex.{
  Rx, empty, boundary, char, many, seq, alt, is_space, is_digit, search, word, one_of,
}
use chipchamp.Policy.Diff.{FileChange, Diff, Status, added, modified, deleted, is_tb}
use chipchamp.Policy.Gates.Data.{Finding}

abbrev some_space : Rx
some_space = seq (char is_space) (many is_space)

-- `_ASSERT_RE` and `_CHECK_RE` ignore case: they read the text in lower case. The marker is the
-- one of the name the program ships under.
abbrev assert_rx : Rx
assert_rx = seq boundary (
    seq (one_of (codes "assert") (codes "assume" ∷ codes "cover" ∷ []))
      (seq some_space (one_of (codes "property") (codes "final" ∷ codes "(" ∷ []))))

abbrev check_rx : Rx
check_rx =
    alt (seq (word (codes "$")) (one_of (codes "error") (codes "fatal" ∷ codes "assert" ∷ [])))
      (one_of (codes "chipchamp_fail") (codes "!==" ∷ codes "mismatch" ∷ []))

abbrev rand_rx : Rx
rand_rx = seq boundary (seq (one_of (codes "rand") (codes "randc" ∷ [])) boundary)

abbrev cover_rx : Rx
cover_rx = seq boundary (
    seq
      (one_of (codes "covergroup") (
        codes "coverpoint"
        ∷ codes "bins"
        ∷ codes "cross"
        ∷ codes "ignore_bins"
        ∷ codes "illegal_bins"
        ∷ []))
      boundary)

abbrev srandom_rx : Rx
srandom_rx = seq (word (codes "srandom(")) (
    seq (many is_space)
      (seq (char is_digit) (seq (many is_digit) (seq (many is_space) (word (codes ")"))))))

-- `ln.strip().startswith("//")`: what follows the comment's mark does not matter
abbrev is_comment : Text → Bool
is_comment s = starts_with (strip_left s) (codes "//")

abbrev count_lines : (Text → Bool) → List Text → ℕ
count_lines p [] = 0
count_lines p (l ∷ ls) =
    let rest = count_lines p ls in if p l && not (is_comment l) then 1 + rest else rest

-- the counts that `scan` compares
unfoldable pub asserts : Text → ℕ
unfolding search starts_with lower splitlines
asserts s = count_lines (λ l. search assert_rx (lower l)) (splitlines s)

unfoldable pub checks : Text → ℕ
unfolding search starts_with lower splitlines
checks s = count_lines (λ l. search check_rx (lower l)) (splitlines s)

unfoldable pub rands : Text → ℕ
unfolding search starts_with splitlines
rands s = count_lines (λ l. search rand_rx l) (splitlines s)

-- A match of `_TIMEOUT_RE` at the start of a text: its number. A match holds no start of another,
-- so that `finditer` finds every one.
abbrev drop_spaces : Text → Text
drop_spaces = strip_left

abbrev drop_sign : Text → Text
drop_sign [] = []
drop_sign (c ∷ s) = if c == b':' || c == b'=' || c == b'(' then s else c ∷ s

abbrev decimal : ℕ → Text → ℕ
decimal n [] = n
decimal n (c ∷ s) = decimal (10 * n + digit c) s
  where
    digit : ℕ → ℕ
    digit d = Prim.Native.Nat.◌-◌ d 48

abbrev number : Text → ℕ
number ds = if leb 3 (length ds) then decimal 0 ds else 0

abbrev number_at : Text → ℕ
number_at s = number (take_while is_digit (drop_spaces (drop_sign (drop_spaces s))))

abbrev after : Text → Text → Option Text
after [] s = some s
after (d ∷ t) [] = none
after (d ∷ t) (c ∷ s) = let rest = after t s in if c == d then rest else none

abbrev number_after : Text → Text → ℕ
number_after key s = elim (after key s) [ none ↦ 0 | some rest ↦ number_at rest ]

-- `_max_timeout(text)`: 0 where there is none
unfoldable pub max_timeout : Text → ℕ
unfolding take_while
max_timeout [] = 0
max_timeout (c ∷ s) = max (number_after (codes "watchdog") (c ∷ s)) (
    max (number_after (codes "timeout") (c ∷ s))
      (max (number_after (codes "#") (c ∷ s)) (max_timeout s)))

unfoldable pub pins_seed : Text → Bool
unfolding search contains
pins_seed s = contains s (codes "+seed=") || search srandom_rx s

unfoldable pub covers : Text → Bool
unfolding search
covers s = search cover_rx s

unfoldable pub is_deleted : FileChange → Bool
is_deleted f = elim f.status [ added ↦ false | modified ↦ false | deleted ↦ true ]

-- `f.is_tb or "test" in f.path.lower()`
unfoldable pub is_test : FileChange → Bool
unfolding is_tb contains lower
is_test f = is_tb f || contains (lower f.path) (codes "test")

unfoldable pub cut : ℕ → ℕ → Bool
cut old new = not (old == 0) && not (new == 0) && ltb new (old / 2)

-- `add(kind, f.path, ...)` under a condition
unfoldable pub add : Bool → Text → FileChange → List Finding
add true kind f = record { kind = kind; file = f.path; acknowledged = false } ∷ []
add false kind f = []

unfoldable pub removed : List FileChange → List Finding
removed [] = []
removed (f ∷ fs) = add (is_deleted f && is_test f) (codes "removed_test_file") f ++ removed fs

unfoldable pub weakened : FileChange → List Finding
weakened f =
    add (ltb (asserts f.new_text) (asserts f.old_text)) (codes "disabled_assertion") f
    ++ add (ltb (checks f.new_text) (checks f.old_text)) (codes "weakened_check") f
    ++ add (cut (max_timeout f.old_text) (max_timeout f.new_text)) (codes "reduced_timeout") f
    ++ add (ltb (rands f.new_text) (rands f.old_text)) (codes "narrowed_randomization") f
    ++ add (pins_seed f.new_text && not (pins_seed f.old_text)) (codes "pinned_seed") f
    ++ add ((covers f.old_text || covers f.new_text) && not (text_eq f.old_text f.new_text))
        (codes "covergroup_edit") f

unfoldable pub edited : List FileChange → List Finding
edited [] = []
edited (f ∷ fs) = (if is_deleted f then [] else weakened f) ++ edited fs

unfoldable pub scan : Diff → List Finding
scan diff = removed diff.files ++ edited diff.files
