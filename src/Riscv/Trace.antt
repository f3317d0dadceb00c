-- ===== src/Riscv/Trace.antt =====
-- chipchamp/riscv/trace.py: `TraceStep`, `split_by_hart`, `align_traces` and `diff_traces`. The parsers
-- of logs are not modelled. `pc_offset` may be below 0, so it is an integer; the step fields that
-- only texts for the human show are kept as they are.
pub mod Agree
pub mod First
use chipchamp.Prelude.{
  ℕ, ◌+◌, ◌-◌, min, Bool, true, false, not, ◌&&◌, Option, none, some, List, [], ◌∷◌, ◌++◌, ltb,
  ◌==◌, length, take, drop, get_elem?, if◌then◌else◌,
}
use chipchamp.Prelude.Int.{ℤ, pos_part, neg_part}
use chipchamp.Text.{Text, text_eq, is_empty}

pub record TraceStep : Type 0 where
  pub pc : ℕ
  pub insn : Option ℕ
  pub disasm : Text
  pub reg : Text
  pub value : Option ℕ
  pub mem_addr : Option ℕ
  pub mem_wdata : Option ℕ
  pub hart : ℕ
  pub index : ℕ

pub data Reason : Type 0 where
  pc insn writeback mem length_differs : Reason

pub record Divergence : Type 0 where
  pub index : ℕ
  pub reason : Reason
  pub dut : Option TraceStep
  pub ref : Option TraceStep
  pub context : List TraceStep
  pub pc_offset : ℤ

-- `out.setdefault(st.hart, []).append(st)`
pub add_step : TraceStep → List (ℕ × List TraceStep) → List (ℕ × List TraceStep)
add_step s [] = (s.hart, s ∷ []) ∷ []
add_step s ((h, ss) ∷ more) =
    let rest = add_step s more in if h == s.hart then (h, ss ++ s ∷ []) ∷ more else (h, ss) ∷ rest

pub split_from : List (ℕ × List TraceStep) → List TraceStep → List (ℕ × List TraceStep)
split_from out [] = out
split_from out (s ∷ ss) = split_from (add_step s out) ss

pub split_by_hart : List TraceStep → List (ℕ × List TraceStep)
unfolding split_from add_step
split_by_hart steps = split_from [] steps

-- `a + pc_offset == b`
abbrev pub shifted : ℤ → ℕ → ℕ → Bool
shifted off a b = a + pos_part off == b + neg_part off

unfoldable pub find_pc : ℤ → ℕ → ℕ → List TraceStep → ℕ
find_pc off first i [] = 0
find_pc off first i (s ∷ ss) =
    let rest = find_pc off first (i + 1) ss in if shifted off first s.pc then i else rest

-- an empty stream of the core starts nowhere
pub align_traces : List TraceStep → List TraceStep → ℕ → ℤ → ℕ
unfolding find_pc
align_traces [] ref window off = 0
align_traces (d ∷ ds) ref window off = find_pc off d.pc 0 (take window ref)

unfoldable pub insn_differs : Option ℕ → Option ℕ → Bool
insn_differs none b = false
insn_differs (some x) none = false
insn_differs (some x) (some y) = not (x == y)

unfoldable pub reg_differs : Text → Text → Bool
unfolding text_eq is_empty
reg_differs a b = not (is_empty a) && not (is_empty b) && not (text_eq a b)

-- a value that is another one, also if the images are linked apart
unfoldable pub value_differs : ℤ → Option ℕ → Option ℕ → Bool
value_differs off none b = false
value_differs off (some x) none = false
value_differs off (some x) (some y) = not (x == y) && not (shifted off x y)

unfoldable pub addr_differs : ℤ → Option ℕ → Option ℕ → Bool
addr_differs off none b = false
addr_differs off (some x) none = false
addr_differs off (some x) (some y) = not (shifted off x y)

abbrev pub both : Option ℕ → Option ℕ → Bool
both none b = false
both (some x) none = false
both (some x) (some y) = true

-- the tests of one turn, in their order
unfoldable pub reason_at : ℤ → TraceStep → TraceStep → Option Reason
unfolding insn_differs reg_differs value_differs addr_differs is_empty
reason_at off d r =
    if not (shifted off d.pc r.pc)
    then some pc
    else if insn_differs d.insn r.insn
    then some insn
    else if reg_differs d.reg r.reg
    then some writeback
    else if not (is_empty d.reg) && not (is_empty r.reg) && value_differs off d.value r.value
    then some writeback
    else if addr_differs off d.mem_addr r.mem_addr
    then some mem
    else if both d.mem_addr r.mem_addr && value_differs off d.mem_wdata r.mem_wdata
    then some mem
    else none

-- `b[max(0, i - context):i]`
abbrev slice : List TraceStep → ℕ → ℕ → List TraceStep
slice steps context i = drop (i - context) (take i steps)

abbrev pub or_rest : Option Reason → (Reason → Divergence) → Option Divergence → Option Divergence
or_rest none make rest = rest
or_rest (some why) make rest = some (make why)

-- the loop, `i` rounds on, over what is left of both streams
unfoldable pub compare_from :
    ℤ → ℕ → ℕ → List TraceStep → ℕ → List TraceStep → List TraceStep → Option Divergence
unfolding reason_at
compare_from off context sd whole i [] rs = none
compare_from off context sd whole i (d ∷ ds) [] = none
compare_from off context sd whole i (d ∷ ds) (r ∷ rs) =
    let rest = compare_from off context sd whole (i + 1) ds rs in
    or_rest (reason_at off d r)
      (λ why. record {
        index = i + sd;
        reason = why;
        dut = some d;
        ref = some r;
        context = slice whole context i;
        pc_offset = off;
      })
      rest

-- the end of a strict comparison: the offset is the class's default, 0
abbrev zero_offset : ℤ
zero_offset = ℤ.pos 0

unfoldable pub length_diff : Bool → ℕ → ℕ → List TraceStep → List TraceStep → Option Divergence
length_diff strict context sd a b =
    if strict && not (length a == length b)
    then some (record {
      index = min (length a) (length b) + sd;
      reason = length_differs;
      dut = if ltb (length a) (length b) then none else get_elem? a (length b);
      ref = if ltb (length a) (length b) then get_elem? b (length a) else none;
      context =
          slice (if ltb (length a) (length b) then b else a) context (min (length a) (length b));
      pc_offset = zero_offset;
    })
    else none

abbrev pub or_last : Option Divergence → Option Divergence → Option Divergence
or_last none last = last
or_last (some d) last = some d

abbrev pub skip_or : Option ℕ → ℕ → ℕ
skip_or none skip = skip
skip_or (some n) skip = n

-- the parameters with defaults
pub record Options : Type 0 where
  pub context : ℕ
  pub skip : ℕ
  pub skip_dut : Option ℕ
  pub skip_ref : Option ℕ
  pub pc_offset : ℤ
  pub strict_length : Bool

unfoldable pub diff_traces : Options → List TraceStep → List TraceStep → Option Divergence
unfolding compare_from length_diff
diff_traces o dut ref =
    let sd = skip_or o.skip_dut o.skip in
    let a = drop sd dut in
    let b = drop (skip_or o.skip_ref o.skip) ref in
    or_last (compare_from o.pc_offset o.context sd b 0 a b)
      (length_diff o.strict_length o.context sd a b)
