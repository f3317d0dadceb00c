-- ===== src/Regmap/Outputs.antt =====
-- chipchamp/regmap/compiler.py: `generate`, the files and their texts.
use chipchamp.Prelude.{List, [], ◌∷◌, ◌++◌}
use chipchamp.Text.{Text, codes}
use chipchamp.Regmap.{RegmapSpec}
use chipchamp.Regmap.Verilog.{gen_sv}
use chipchamp.Regmap.Header.{gen_header}
use chipchamp.Regmap.Table.{gen_md}

-- the names of the files and what they hold
pub generate : Text → RegmapSpec → List (Text × Text)
generate brand spec =
    (spec.name ++ codes "_reg_top.sv", gen_sv brand spec)
    ∷ (spec.name ++ codes "_regs.h", gen_header brand spec)
    ∷ (spec.name ++ codes "_regs.md", gen_md spec)
    ∷ []
