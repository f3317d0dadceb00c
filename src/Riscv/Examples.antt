-- ===== src/Riscv/Examples.antt =====
-- Two harts of a core, and a model that boots first.
use chipchamp.Prelude.{ℕ, ◌≡◌, refl, false, none, some, List, [], ◌∷◌, Option, drop}
use chipchamp.Prelude.Int.{pos}
use chipchamp.Text.{codes, text_eq}
use chipchamp.Riscv.Trace.{TraceStep, Options, Divergence, diff_traces}
use chipchamp.Riscv.Trace.First.{Judged, diff_traces-Judged}

abbrev at : ℕ → ℕ → ℕ → TraceStep
at pc value hart = record {
  pc = pc;
  insn = none;
  disasm = [];
  reg = codes "x1";
  value = some value;
  mem_addr = none;
  mem_wdata = none;
  hart = hart;
  index = 0;
}

abbrev core : List TraceStep
core = at 0 5 0 ∷ at 4 6 0 ∷ at 8 7 0 ∷ []

abbrev model : List TraceStep
model = at 4096 1 0 ∷ at 256 5 0 ∷ at 260 262 0 ∷ at 264 8 0 ∷ []

abbrev options : Options
options = record {
  context = 5;
  skip = 0;
  skip_dut = none;
  skip_ref = some 1;
  pc_offset = pos 256;
  strict_length = false;
}

diff_traces-Judged_example :
    Judged (pos 256) false 0 (drop 0 core) (drop 1 model) (diff_traces options core model)
diff_traces-Judged_example = diff_traces-Judged options core model

abbrev index_of : Option Divergence → Option ℕ
index_of none = none
index_of (some v) = some v.index

-- The second value is a pointer that moved along; the third differs.
diff_traces_example : index_of (diff_traces options core model) ≡ some 2
unfolding diff_traces text_eq
diff_traces_example = refl
