-- ===== src/Regmap/Names.antt =====
-- chipchamp/regmap/compiler.py: the names and slices that the generators print. They are
-- called for specifications that `validate` accepts; `brand` is the name of the application.
use chipchamp.Prelude.{ℕ, ◌+◌, Bool, List, [], ◌∷◌, ◌++◌, ◌==◌, if◌then◌else◌}
use chipchamp.Prelude.Int.{pos, pos_part, neg_part, ltb_ℤ, ◌-ℤ◌}
use chipchamp.Text.{Text, codes, text_eq, lower}
use chipchamp.Text.Numbers.{decimal_ℤ}
use chipchamp.Regmap.{Field, Register, RegmapSpec, width}

abbrev pub newline : ℕ
newline = 10

-- `"".join(parts)`
abbrev pub concat : List Text → Text
concat [] = []
concat (t ∷ ts) = t ++ concat ts

module _ {ℓ} {A : Type ℓ} where
  abbrev pub each_line : (A → List Text) → List A → List Text
  each_line lines [] = []
  each_line lines (x ∷ xs) = lines x ++ each_line lines xs

abbrev pub keep : (Field → Bool) → List Field → List Field
keep p [] = []
keep p (f ∷ fs) = let rest = keep p fs in if p f then f ∷ rest else rest

abbrev pub is_single : Field → Bool
is_single f = pos_part f.msb + neg_part f.lsb == pos_part f.lsb + neg_part f.msb

abbrev pub is_rw : Field → Bool
is_rw f = text_eq f.access (codes "RW")

abbrev pub is_ro : Field → Bool
is_ro f = text_eq f.access (codes "RO")

abbrev pub is_w1c : Field → Bool
is_w1c f = text_eq f.access (codes "W1C")

-- `Field.slice`
unfoldable pub slice : Field → Text
unfolding decimal_ℤ
slice f =
    if is_single f
    then concat (codes "[" ∷ decimal_ℤ f.lsb ∷ codes "]" ∷ [])
    else concat (codes "[" ∷ decimal_ℤ f.msb ∷ codes ":" ∷ decimal_ℤ f.lsb ∷ codes "]" ∷ [])

-- `_q`
unfoldable pub flop : Register → Field → Text
unfolding lower
flop r f = concat (lower r.name ∷ codes "_" ∷ lower f.name ∷ codes "_q" ∷ [])

-- `_hwif`, for the three accesses
unfoldable pub hwif : Register → Field → Text
unfolding lower text_eq
hwif r f = concat (
    codes "hwif_"
    ∷ lower r.name
    ∷ codes "_"
    ∷ lower f.name
    ∷ (if is_rw f then codes "_o" else if is_ro f then codes "_i" else codes "_set_i")
    ∷ [])

-- `_rng`
unfoldable pub range_of : Field → Text
unfolding decimal_ℤ width ◌-ℤ◌
range_of f =
    if ltb_ℤ (pos 1) (width f)
    then concat (codes "[" ∷ decimal_ℤ (width f -ℤ pos 1) ∷ codes ":0] " ∷ [])
    else []

-- the first line of the two generated sources
abbrev pub generated_by : Text → RegmapSpec → Text
generated_by brand spec = concat (
    codes "// Generated by "
    ∷ brand
    ∷ codes " regmap from spec '"
    ∷ spec.name
    ∷ codes "'. DO NOT EDIT."
    ∷ [])
