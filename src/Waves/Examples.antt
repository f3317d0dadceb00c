-- ===== src/Waves/Examples.antt =====
-- A small dump of two signals, and a second run of it.
use chipchamp.Prelude.{◌-◌, ◌≡◌, refl, none, some, List, [], ◌∷◌, leb, ltb, length, take, arith}
use chipchamp.Text.{Text, codes}
use chipchamp.Lines.{splitlines, strip}
use chipchamp.Waves.Vcd.{
  Change, Def, scope, var, upscope, int, parse_vcd, id_for, defines, define, base_of, path,
  read_lines, read_line, stamp, vector, append, two_words, canon_vec,
}
use chipchamp.Waves.Vcd.Stamps.{Forward}
use chipchamp.Waves.Vcd.Order.{parse_vcd-Sorted}
use chipchamp.Waves.Bisect.{bisect_right, search}
use chipchamp.Waves.Bisect.Splits.{Ascending}
use chipchamp.Waves.Store.{WaveStore, changes_of, times, value, value_in, within, slice}
use chipchamp.Waves.Store.Held.{held, value_in-held}
use chipchamp.Waves.Store.Window.{slice-within}
use chipchamp.Waves.Compare.{
  Divergence, first_divergence, first_of, differs_at, same_value, candidates, times_within,
  sorted_times, insert_time,
}
use chipchamp.Waves.Compare.Signals.{Sorted}
use chipchamp.Waves.Compare.First.{first_divergence-agree}

abbrev clock : List Change
clock = (0, codes "0") ∷ (5, codes "1") ∷ (5, codes "0") ∷ (9, codes "x") ∷ []

clock_ascends : Ascending (times clock)
clock_ascends = (omega arith, (omega arith, (omega arith, (omega arith, tt))))

value_in-held_example : value_in clock 7 ≡ held (λ s. leb s 7) none clock
value_in-held_example = value_in-held clock 7 clock_ascends

slice-within_example :
    let s = slice clock 1 8 1 in
    (s.edges ≡ take 1 (within 1 8 clock))
    × (s.edge_count ≡ length (within 1 8 clock))
    × (s.omitted_edges ≡ length (within 1 8 clock) - 1)
    × (s.value_before_start ≡ held (λ u. ltb u 1) none clock)
    × (s.value_at_start ≡ held (λ u. leb u 1) none clock)
slice-within_example = slice-within clock 1 8 1 clock_ascends (omega arith)

abbrev header : List Def
header = scope (codes "tb") ∷ var (codes "wire") 4 (codes "!") (codes "q [3:0]") ∷ upscope ∷ []

abbrev first_body : Text
first_body = codes "#0\nb0 !\n#10\nb0011 !\n#20\nbx !"

abbrev second_body : Text
second_body = codes "#0\nb0 !\n#12\nb11 !\n#20"

abbrev first_run : WaveStore
first_run = record { vcd = parse_vcd (codes "1ns") header first_body; provenance = codes "J-1" }

abbrev second_run : WaveStore
second_run = record { vcd = parse_vcd (codes "1ns") header second_body; provenance = codes "J-2" }

first-Forward : Forward 0 (splitlines first_body)
unfolding splitlines strip int
first-Forward =
    (omega arith, (omega arith, (omega arith, (omega arith, (omega arith, (omega arith, tt))))))

second-Forward : Forward 0 (splitlines second_body)
unfolding splitlines strip int
second-Forward = (omega arith, (omega arith, (omega arith, (omega arith, (omega arith, tt)))))

parse_vcd-Sorted_example : Sorted first_run
parse_vcd-Sorted_example =
    parse_vcd-Sorted (codes "1ns") (codes "J-1") header first_body first-Forward

abbrev q : Text
q = codes "tb.q"

first_divergence-agree_example : value first_run q 9 ≡ value second_run q 9
unfolding first_divergence first_of differs_at same_value candidates times_within sorted_times
    insert_time value value_in changes_of bisect_right search id_for parse_vcd defines define
    base_of path read_lines read_line stamp vector append two_words canon_vec int
first_divergence-agree_example =
    first_divergence-agree first_run second_run (q ∷ []) 20 q
      (parse_vcd-Sorted (codes "1ns") (codes "J-1") header first_body first-Forward)
      (parse_vcd-Sorted (codes "1ns") (codes "J-2") header second_body second-Forward) refl 9 refl
      refl

abbrev at_ten : Divergence
at_ten = record { signal = q; time = 10; value_a = some (codes "11"); value_b = some (codes "0") }
