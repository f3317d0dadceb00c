-- ===== src/Jobs/Record.antt =====
-- chipchamp/jobs/record.py: the fields of a job record that the policy and the regression manager
-- read, with `result` as the adapters fill it.
use chipchamp.Prelude.{
  ℕ, ◌+◌, ◌/◌, ◌-◌, Bool, true, false, Option, none, some, List, [], ◌∷◌, ltb, ◌==◌, if◌then◌else◌,
}
use chipchamp.Prelude.Int.{ℤ, pos, negsuc}
use chipchamp.Text.{Text}
use chipchamp.Dict.{Dict, get}

pub data Status : Type 0 where
  queued running passed failed error timeout : Status

-- A value of a metrics dictionary. `float` counts billionths; `infinite` is any float that is not
-- finite.
pub data Value : Type 0 where
  null infinite : Value
  boolean : Bool → Value
  int float : ℤ → Value
  text : Text → Value
  texts : List Text → Value

pub record Diagnostic : Type 0 where
  pub severity : Text
  pub category : Text
  pub message : Text
  pub waiver : Text

-- `diagnostics` is `none` where the result holds no list under that name.
pub record Result : Type 0 where
  pub diagnostics : Option (List Diagnostic)
  pub status : Option Text
  pub metrics : Option (Dict Value)

pub record JobRecord : Type 0 where
  pub id : Text
  pub kind : Text
  pub status : Status
  pub summary : Text
  pub start_ts : ℕ
  pub input_files : List Text
  pub test_name : Text
  pub target_name : Text
  pub test_config_hash : Text
  pub seed : Option ℕ
  pub artifacts : Dict Text
  pub result : Result

abbrev pub is_passed : Status → Bool
is_passed passed = true
is_passed _ = false

abbrev pub is_pending : Status → Bool
is_pending running = true
is_pending queued = true
is_pending _ = false

-- `x > 0`, of an integer
abbrev pub above_zero : ℤ → Bool
above_zero (pos n) = ltb 0 n
above_zero (negsuc n) = false

-- `x >= 0`, of an integer
abbrev pub not_negative : ℤ → Bool
not_negative (pos n) = true
not_negative (negsuc n) = false

-- `value > 0` and `value >= 0` of a number. (Python raises a TypeError at what is no number; the
-- tests answer false.)
abbrev pub positive : Value → Bool
positive (boolean b) = b
positive (int z) = above_zero z
positive (float z) = above_zero z
positive _ = false

abbrev pub non_negative : Value → Bool
non_negative (boolean b) = true
non_negative (int z) = not_negative z
non_negative (float z) = not_negative z
non_negative _ = false

-- `value == 0`
abbrev pub is_zero : Value → Bool
is_zero (boolean true) = false
is_zero (boolean false) = true
is_zero (int (pos n)) = n == 0
is_zero (float (pos n)) = n == 0
is_zero _ = false

abbrev billion : ℕ
billion = 1000000000

abbrev neg : ℕ → ℤ
neg n = if n == 0 then pos 0 else negsuc (n - 1)

abbrev pub bit : Bool → ℕ
bit true = 1
bit false = 0

-- `int(value)` of a number, towards zero; `none` if `isinstance(value, (int, float))` fails (or
-- `int` raises)
unfoldable pub truncated : Value → Option ℤ
truncated (boolean b) = some (pos (bit b))
truncated (int z) = some z
truncated (float (pos n)) = some (pos (n / billion))
truncated (float (negsuc n)) = some (neg ((1 + n) / billion))
truncated _ = none

-- `bool(value)`
abbrev pub truthy : Value → Bool
truthy null = false
truthy infinite = true
truthy (boolean b) = b
truthy (int (pos n)) = ltb 0 n
truthy (int (negsuc n)) = true
truthy (float (pos n)) = ltb 0 n
truthy (float (negsuc n)) = true
truthy (text []) = false
truthy (text (c ∷ s)) = true
truthy (texts []) = false
truthy (texts (t ∷ ts)) = true

abbrev pub or_null : Option Value → Value
or_null none = null
or_null (some v) = v

-- `metrics.get(key)`
unfoldable pub metric : Text → Dict Value → Value
unfolding get
metric key m = or_null (get key m)

-- `result.get("metrics") or {}`
abbrev pub metrics_of : JobRecord → Dict Value
metrics_of j = elim j.result.metrics [ none ↦ [] | some m ↦ m ]
