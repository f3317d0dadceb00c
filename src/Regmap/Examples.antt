-- ===== src/Regmap/Examples.antt =====
-- A small UART.
use chipchamp.Prelude.{◌≡◌, refl, ◌↔◌, List, [], ◌∷◌}
use chipchamp.Prelude.Int.{pos, negsuc}
use chipchamp.Text.{codes}
use chipchamp.Text.Numbers.{decimal, hex}
use chipchamp.Regmap.{Field, Register, RegmapSpec, validate, overlaps, offset_used, not_aligned}
use chipchamp.Regmap.Valid.{AreRegisters, validate-AreRegisters}
use chipchamp.Regmap.Names.{slice, range_of, flop, hwif}

abbrev enable : Field
enable = record {
  name = codes "EN";
  msb = pos 0;
  lsb = pos 0;
  access = codes "RW";
  reset = pos 1;
  desc = [];
}

abbrev divider : Field
divider = record {
  name = codes "DIV";
  msb = pos 15;
  lsb = pos 4;
  access = codes "RO";
  reset = pos 0;
  desc = [];
}

abbrev control : Register
control = record { name = codes "CTRL"; offset = pos 4; desc = []; fields = enable ∷ divider ∷ [] }

abbrev uart : List Register → RegmapSpec
uart rs = record { name = codes "uart"; bus = codes "apb"; addr_width = 12; registers = rs }

validate-AreRegisters_example :
    (validate (uart (control ∷ [])) ≡ [])
    ↔ ((codes "apb" ≡ codes "apb") × AreRegisters 12 [] (control ∷ []))
validate-AreRegisters_example = validate-AreRegisters (uart (control ∷ []))

validate_example : validate (uart (control ∷ [])) ≡ []
unfolding validate chipchamp.Regmap.width
validate_example = refl

-- Two fields on one bit, an offset that is used twice, and one that is not a multiple of 4.
validate_errors :
    validate (
      uart (
        record control { fields = enable ∷ record divider { lsb = pos 0 } ∷ [] }
        ∷ record control { name = codes "B" }
        ∷ record control { name = codes "C"; offset = negsuc 4 }
        ∷ []))
    ≡ overlaps (codes "CTRL") (codes "DIV") ∷ offset_used (codes "B") ∷ not_aligned (codes "C") ∷ []
unfolding validate chipchamp.Regmap.width
validate_errors = refl

names_example :
    (slice divider ≡ codes "[15:4]")
    × (range_of divider ≡ codes "[11:0] ")
    × (flop control enable ≡ codes "ctrl_en_q")
    × (hwif control enable ≡ codes "hwif_ctrl_en_o")
    × (decimal 4096 ≡ codes "4096")
    × (hex 48879 ≡ codes "beef")
unfolding slice range_of flop hwif decimal hex
names_example = (refl, refl, refl, refl, refl, refl)
