-- ===== src/Regmap/Verilog.antt =====
-- chipchamp/regmap/compiler.py: `_gen_sv`, the register block in SystemVerilog.
use chipchamp.Prelude.{◌/◌, ◌||◌, List, [], ◌∷◌, ◌++◌, map, if◌then◌else◌}
use chipchamp.Prelude.Int.{ℤ, pos, negsuc, ◌-ℤ◌}
use chipchamp.Text.{Text, codes, text_eq, lower, join}
use chipchamp.Text.Numbers.{decimal_ℤ, hex_ℤ}
use chipchamp.Regmap.{Field, Register, RegmapSpec, width}
use chipchamp.Regmap.Names.{
  newline, concat, each_line, keep, is_rw, is_ro, is_w1c, slice, flop, hwif, range_of, generated_by,
}

abbrev port : Register → Field → Text
port r f = concat (
    codes "  "
    ∷ (if is_rw f then codes "output" else codes "input ")
    ∷ codes " logic "
    ∷ range_of f
    ∷ hwif r f
    ∷ [])

abbrev ports : RegmapSpec → List Text
ports spec =
    (codes "  input  logic        pclk"
      ∷ codes "  input  logic        presetn"
      ∷ codes "  input  logic        psel"
      ∷ codes "  input  logic        penable"
      ∷ codes "  input  logic        pwrite"
      ∷ concat (
          codes "  input  logic ["
          ∷ decimal_ℤ (pos spec.addr_width -ℤ pos 1)
          ∷ codes ":0] paddr"
          ∷ [])
      ∷ codes "  input  logic [31:0] pwdata"
      ∷ codes "  output logic [31:0] prdata"
      ∷ codes "  output logic        pready"
      ∷ codes "  output logic        pslverr"
      ∷ [])
    ++ each_line (λ r. map (λ f. port r f) r.fields) spec.registers

-- `",\n".join(ports)`, as lines
abbrev with_commas : List Text → List Text
with_commas [] = [] ∷ []
with_commas (t ∷ []) = t ∷ []
with_commas (t ∷ u ∷ ts) = (t ++ codes ",") ∷ with_commas (u ∷ ts)

abbrev storage : Register → List Text
storage r =
    map (λ f. concat (codes "  logic " ∷ range_of f ∷ flop r f ∷ codes ";" ∷ []))
      (keep (λ f. is_rw f || is_w1c f) r.fields)

abbrev select : Register → Text
select r = codes "sel_" ++ lower r.name

-- `reg.offset >> 2`, downwards
abbrev word_of : ℤ → ℤ
word_of (pos n) = pos (n / 4)
word_of (negsuc n) = negsuc (n / 4)

abbrev decode : RegmapSpec → Register → List Text
decode spec r =
    concat (
      codes "  wire "
      ∷ select r
      ∷ codes " = (paddr["
      ∷ decimal_ℤ (pos spec.addr_width -ℤ pos 1)
      ∷ codes ":2] == "
      ∷ decimal_ℤ (pos spec.addr_width -ℤ pos 2)
      ∷ codes "'d"
      ∷ decimal_ℤ (word_of r.offset)
      ∷ codes ");"
      ∷ [])
    ∷ []

-- `" | ".join(sels)`
abbrev bars : List Text → Text
bars [] = []
bars (t ∷ []) = t
bars (t ∷ u ∷ ts) = t ++ (codes " | " ++ bars (u ∷ ts))

abbrev reset_of : Field → Text
reset_of f = concat (decimal_ℤ (width f) ∷ codes "'h" ∷ hex_ℤ f.reset ∷ [])

abbrev rw_block : Register → List Field → List Text
rw_block r [] = []
rw_block r (f ∷ fs) =
    (concat (codes "  // " ∷ r.name ∷ codes " (RW fields)" ∷ [])
      ∷ codes "  always_ff @(posedge pclk or negedge presetn) begin"
      ∷ codes "    if (!presetn) begin"
      ∷ [])
    ++ (map (λ g. concat (codes "      " ∷ flop r g ∷ codes " <= " ∷ reset_of g ∷ codes ";" ∷ []))
          (f ∷ fs)
        ++ (concat (codes "    end else if (apb_write & " ∷ select r ∷ codes ") begin" ∷ [])
              ∷ map
                  (λ g.
                    concat
                      (codes "      " ∷ flop r g ∷ codes " <= pwdata" ∷ slice g ∷ codes ";" ∷ []))
                  (f ∷ fs)
            ++ (codes "    end" ∷ codes "  end" ∷ [])))

abbrev w1c_block : Register → Field → List Text
w1c_block r f =
    concat
      (codes "  // " ∷ r.name ∷ codes "." ∷ f.name ∷ codes " (W1C: hw set wins over sw clear)" ∷ [])
    ∷ codes "  always_ff @(posedge pclk or negedge presetn) begin"
    ∷ concat (codes "    if (!presetn) " ∷ flop r f ∷ codes " <= " ∷ reset_of f ∷ codes ";" ∷ [])
    ∷ concat (
        codes "    else "
        ∷ flop r f
        ∷ codes " <= ("
        ∷ flop r f
        ∷ codes " & ~({"
        ∷ decimal_ℤ (width f)
        ∷ codes "{apb_write & "
        ∷ select r
        ∷ codes "}} & pwdata"
        ∷ slice f
        ∷ codes ")) | "
        ∷ hwif r f
        ∷ codes ";"
        ∷ [])
    ∷ codes "  end"
    ∷ []

abbrev field_logic : Register → List Text
field_logic r =
    let rw = keep is_rw r.fields in
    rw_block r rw
    ++ (each_line (λ f. w1c_block r f) (keep is_w1c r.fields)
        ++ (map
              (λ f. concat (codes "  assign " ∷ hwif r f ∷ codes " = " ∷ flop r f ∷ codes ";" ∷ []))
              rw
            ++ [] ∷ []))

abbrev read_mux : Register → List Text
read_mux r =
    concat (codes "    if (" ∷ select r ∷ codes ") begin" ∷ [])
      ∷ map
          (λ f. concat (
            codes "      prdata"
            ∷ slice f
            ∷ codes " = "
            ∷ (if is_ro f then hwif r f else flop r f)
            ∷ codes ";"
            ∷ []))
          r.fields
    ++ codes "    end" ∷ []

unfoldable pub gen_sv : Text → RegmapSpec → Text
unfolding decimal_ℤ hex_ℤ width slice flop hwif range_of lower text_eq join ◌-ℤ◌
gen_sv brand spec = join newline (
    (generated_by brand spec
      ∷ codes "// Edit the register spec and regenerate (SPEC FR-PROJ-04)."
      ∷ concat (codes "module " ∷ spec.name ∷ codes "_reg_top (" ∷ [])
      ∷ [])
    ++ (with_commas (ports spec)
        ++ ((codes ");" ∷ [] ∷ [])
            ++ (each_line storage spec.registers
                ++ (([]
                      ∷ codes "  wire apb_write = psel & penable & pwrite;"
                      ∷ codes "  assign pready = 1'b1;"
                      ∷ []
                      ∷ [])
                    ++ (each_line (λ r. decode spec r) spec.registers
                        ++ ((concat (
                                codes "  wire sel_any = "
                                ∷ bars (map select spec.registers)
                                ∷ codes ";"
                                ∷ [])
                              ∷ codes "  assign pslverr = psel & penable & ~sel_any;"
                              ∷ []
                              ∷ [])
                            ++ (each_line field_logic spec.registers
                                ++ ((codes "  always_comb begin" ∷ codes "    prdata = 32'h0;" ∷ [])
                                    ++ (each_line read_mux spec.registers
                                        ++ (codes "  end"
                                            ∷ []
                                            ∷ codes "endmodule"
                                            ∷ []
                                            ∷ [])))))))))))
