-- ===== src/Design/Examples.antt =====
-- Two clocks: the block of the second reads a register of the first.
use mathlib.Core.List.{Memᴰ}
use chipchamp.Prelude.{ℕ, ◌<◌, false, Option, List, none, ◌≡◌, refl, ◌↔◌, some, [], ◌∷◌}
use chipchamp.Text.{Text, codes, text_eq, is_empty}
use chipchamp.Dict.{get, put, update}
use chipchamp.Text.{split}
use chipchamp.Text.Numbers.{decimal}
use chipchamp.Design.{AlwaysBlock, ContinuousAssign, Module}
use chipchamp.Design.Cone.{fanin, root, statements_of, drivers_of, inst_drivers}
use chipchamp.Design.Slice.{ConeSlice, extract_cone, rounds, visit, add_drivers, origin}
use chipchamp.Design.Slice.Visits.{names}
use chipchamp.Design.Slice.Reached.{Steps, extract_cone-Steps}
use chipchamp.Design.Domains.{
  infer_domains, Crossing, take_blocks, assign_domains, assign_resets, clock_of,
}
use chipchamp.Design.Domains.Crossings.{Crosses, infer_domains-Crosses}

abbrev block : Text → Text → Text → AlwaysBlock
block clock lhs rhs = record {
  kind = codes "always_ff";
  sens = [];
  clock = some clock;
  resets = codes "rst" ∷ [];
  lhs = lhs ∷ [];
  rhs = rhs ∷ [];
  file = codes "a.sv";
  line = 1;
}

abbrev two_clocks : Module
two_clocks = record {
  name = codes "m";
  instances = [];
  assigns = [];
  always_blocks =
      block (codes "ca") (codes "x") (codes "d") ∷ block (codes "cb") (codes "y") (codes "x") ∷ [];
}

abbrev crossing : Crossing
crossing = (codes "x", (codes "ca", (codes "cb", codes "y")))

infer_domains_example :
    ((infer_domains two_clocks []).crossings ≡ crossing ∷ [])
    × ((infer_domains two_clocks ((codes "x", codes "cb") ∷ [])).crossings ≡ [])
    × ((infer_domains two_clocks []).signal_reset
        ≡ (codes "x", codes "rst") ∷ (codes "y", codes "rst") ∷ [])
unfolding infer_domains take_blocks assign_domains assign_resets clock_of text_eq is_empty get put
    update
infer_domains_example = (refl, refl, refl)

infer_domains-Crosses_example :
    Memᴰ crossing (infer_domains two_clocks []).crossings ↔ Crosses two_clocks [] crossing
infer_domains-Crosses_example = infer_domains-Crosses two_clocks [] crossing tt

-- `y` is assigned from `a` and `b`, and `a` from `c`.
abbrev assign : Text → Text → List Text → ContinuousAssign
assign lhs rhs signals = record {
  lhs = lhs;
  rhs = rhs;
  lhs_signals = lhs ∷ [];
  rhs_signals = signals;
  file = codes "b.sv";
  line = 7;
}

abbrev wires : Module
wires = record {
  name = codes "w";
  instances = [];
  always_blocks = [];
  assigns =
      assign (codes "y") (codes "a & b") (codes "a" ∷ codes "b" ∷ [])
      ∷ assign (codes "a") (codes "~c") (codes "c" ∷ [])
      ∷ [];
}

abbrev no_dir : Text → Text → Option Text
no_dir t p = none

abbrev no_domain : Text → Option Text
no_domain t = none

abbrev slice : ℕ → ConeSlice
slice depth = extract_cone no_dir no_domain wires (codes "top.y[3]") fanin depth 60

extract_cone_example :
    (names (slice 3).signals ≡ codes "y" ∷ codes "a" ∷ codes "b" ∷ codes "c" ∷ [])
    × ((slice 1).statements ≡ codes "// b.sv:7\nassign y = a & b;" ∷ [])
unfolding extract_cone rounds visit add_drivers statements_of drivers_of inst_drivers root origin
    split decimal text_eq is_empty
extract_cone_example = (refl, refl)

whole_slice : (slice 3).truncated ≡ false
unfolding extract_cone rounds visit add_drivers statements_of drivers_of inst_drivers root origin
    split decimal text_eq is_empty
whole_slice = refl

extract_cone-Steps_example : Memᴰ (codes "c") (names (slice 3).signals) ↔ (
    (k : ℕ) × (k < 3)
    × Steps (λ s. statements_of no_dir fanin wires s) k (origin (codes "top.y[3]")) (codes "c"))
extract_cone-Steps_example =
    extract_cone-Steps no_dir no_domain wires (codes "top.y[3]") fanin 3 60 (codes "c") whole_slice
