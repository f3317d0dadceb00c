-- ===== src/Regmap/Table.antt =====
-- chipchamp/regmap/compiler.py: `_gen_md`, the table of the registers.
use chipchamp.Prelude.{List, [], ◌∷◌, ◌++◌, map, if◌then◌else◌}
use chipchamp.Prelude.Int.{ltb_ℤ}
use chipchamp.Text.{Text, codes, join, is_empty}
use chipchamp.Text.Numbers.{decimal, decimal_ℤ, hex_ℤ, hex_three, upper}
use chipchamp.Regmap.{Field, Register, RegmapSpec}
use chipchamp.Regmap.Names.{newline, concat, each_line, is_single}

-- `sorted(reg.fields, key=lambda x: -x.msb)`, which keeps the order of equal keys
abbrev insert_field : Field → List Field → List Field
insert_field f [] = f ∷ []
insert_field f (g ∷ gs) =
    let rest = insert_field f gs in if ltb_ℤ f.msb g.msb then g ∷ rest else f ∷ g ∷ gs

abbrev sorted_fields : List Field → List Field
sorted_fields [] = []
sorted_fields (f ∷ fs) = insert_field f (sorted_fields fs)

abbrev bits_text : Field → Text
bits_text f =
    if is_single f
    then decimal_ℤ f.lsb
    else concat (decimal_ℤ f.msb ∷ codes ":" ∷ decimal_ℤ f.lsb ∷ [])

abbrev field_row : Field → Text
field_row f = concat (
    codes "| "
    ∷ bits_text f
    ∷ codes " | "
    ∷ f.name
    ∷ codes " | "
    ∷ f.access
    ∷ codes " | 0x"
    ∷ hex_ℤ f.reset
    ∷ codes " | "
    ∷ f.desc
    ∷ codes " |"
    ∷ [])

abbrev register_table : Register → List Text
register_table r =
    concat (codes "## " ∷ r.name ∷ codes " @ 0x" ∷ hex_three r.offset ∷ [])
      ∷ (if is_empty r.desc then [] else r.desc ∷ [])
    ++ (([]
          ∷ codes "| bits | field | access | reset | description |"
          ∷ codes "|---|---|---|---|---|"
          ∷ [])
        ++ (map field_row (sorted_fields r.fields) ++ [] ∷ []))

unfoldable pub gen_md : RegmapSpec → Text
unfolding decimal decimal_ℤ hex_ℤ hex_three upper is_empty join
gen_md spec = join newline (
    concat (codes "# " ∷ spec.name ∷ codes " register map" ∷ [])
    ∷ []
    ∷ concat (
        codes "_Generated from the register spec — do not edit. Bus: "
        ∷ upper spec.bus
        ∷ codes ", address width: "
        ∷ decimal spec.addr_width
        ∷ codes "._"
        ∷ [])
    ∷ []
    ∷ each_line register_table spec.registers)
