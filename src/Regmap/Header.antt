-- ===== src/Regmap/Header.antt =====
-- chipchamp/regmap/compiler.py: `_gen_header`, the C header.
use chipchamp.Prelude.{ℕ, ◌*◌, ◌-◌, ◌^◌, List, [], ◌∷◌, ◌++◌}
use chipchamp.Prelude.Int.{pos_part}
use chipchamp.Text.{Text, codes, join}
use chipchamp.Text.Numbers.{decimal_ℤ, hex, hex_ℤ, upper}
use chipchamp.Regmap.{Field, Register, RegmapSpec, width}
use chipchamp.Regmap.Names.{newline, concat, each_line, generated_by}

-- the mask of a field in range, as a number
abbrev mask_number : Field → ℕ
mask_number f = (2 ^ pos_part (width f) - 1) * 2 ^ pos_part f.lsb

abbrev field_defines : RegmapSpec → Register → Field → List Text
field_defines spec r f =
    let base =
      concat (upper spec.name ∷ codes "_" ∷ upper r.name ∷ codes "_" ∷ upper f.name ∷ []) in
    concat (codes "#define " ∷ base ∷ codes "_LSB " ∷ decimal_ℤ f.lsb ∷ [])
    ∷ concat (codes "#define " ∷ base ∷ codes "_MASK 0x" ∷ hex (mask_number f) ∷ [])
    ∷ []

abbrev register_defines : RegmapSpec → Register → List Text
register_defines spec r =
    concat (
        codes "#define "
        ∷ upper spec.name
        ∷ codes "_"
        ∷ upper r.name
        ∷ codes "_OFFSET 0x"
        ∷ hex_ℤ r.offset
        ∷ [])
      ∷ each_line (λ f. field_defines spec r f) r.fields
    ++ [] ∷ []

unfoldable pub gen_header : Text → RegmapSpec → Text
unfolding decimal_ℤ hex hex_ℤ upper width join
gen_header brand spec =
    let guard = upper spec.name ++ codes "_REGS_H_" in
    join newline (
      (generated_by brand spec
        ∷ (codes "#ifndef " ++ guard)
        ∷ (codes "#define " ++ guard)
        ∷ []
        ∷ [])
      ++ (each_line (λ r. register_defines spec r) spec.registers
          ++ ((codes "#endif  // " ++ guard) ∷ [] ∷ [])))
