-- ===== src/Waves/Vcd/Order.antt =====
-- chipchamp/waves/vcd.py: what the parser makes of a dump whose time stamps do not go back.
use chipchamp.Prelude.{
  ℕ, ◌≡◌, refl, Bool, true, false, Option, none, some, List, [], ◌∷◌, if◌then◌else◌, arith,
}
use chipchamp.Text.{Text}
use chipchamp.Lines.{splitlines}
use chipchamp.Dict.{Dict, get, put}
use chipchamp.Waves.Bisect.Splits.{AtLeast}
use chipchamp.Waves.Store.{times, changes_of, WaveStore}
use chipchamp.Waves.Compare.Signals.{Sorted}
use chipchamp.Waves.Vcd.{
  Change, Def, scope, upscope, var, Head, define, defines, Body, read_lines, parse_vcd,
}
use chipchamp.Waves.Vcd.Stamps.{
  Before, AllBefore, AllBefore-get, AllBefore-put, Good, Forward, read_lines-Good,
}
use chipchamp.Waves.Bisect.Splits.{Ascending}
use chipchamp.Waves.Store.{or_empty}
use chipchamp.Waves.Vcd.{empty_data, is_new}

-- The header declares empty lists of changes.
setdefault-AllBefore :
    (code : Text) (d : Dict (List Change)) (o : Option (List Change))
    → AllBefore d 0
    → AllBefore (elim o [ none ↦ put code [] d | some ch ↦ d ]) 0
setdefault-AllBefore code d none h = AllBefore-put code d [] 0 h (omega arith)
setdefault-AllBefore code d (some ch) h = h

either :
    (b : Bool) (x y : Head)
    → AllBefore x.1.changes 0
    → AllBefore y.1.changes 0
    → AllBefore (if b then x else y).1.changes 0
either true x y p q = p
either false x y p q = q

define-Good :
    (head : Head) (d : Def) → AllBefore head.1.changes 0 → AllBefore (define head d).1.changes 0
unfolding define
define-Good (stack, vcd) (scope s) h = h
define-Good (stack, vcd) upscope h = h
define-Good (stack, vcd) (var var_type width code name) h =
    either (is_new code vcd) _ _ (setdefault-AllBefore code vcd.changes (get code vcd.changes) h) h

defines-Good :
    (head : Head) (ds : List Def)
    → AllBefore head.1.changes 0
    → AllBefore (defines head ds).1.changes 0
unfolding defines
defines-Good head [] h = h
defines-Good head (d ∷ ds) h = defines-Good (define head d) ds (define-Good head d h)

Before-AtLeast : (m : ℕ) (ch : List Change) (cur : ℕ) → Before m ch cur → AtLeast m (times ch)
Before-AtLeast m [] cur h = tt
Before-AtLeast m ((t, v) ∷ ch) cur h = (h.0, Before-AtLeast t ch cur h.1)

sorted_list :
    (d : Dict (List Change)) (cur : ℕ) (code : Text) (o : Option (List Change))
    → AllBefore d cur
    → get code d ≡ o
    → Ascending (times (or_empty o))
sorted_list d cur code none h e = tt
sorted_list d cur code (some ch) h e = Before-AtLeast 0 ch cur (AllBefore-get code d ch cur h e)

Sorted-changes : (store : WaveStore) (cur : ℕ) → AllBefore store.vcd.changes cur → Sorted store
unfolding changes_of
Sorted-changes store cur h code =
    sorted_list store.vcd.changes cur code (get code store.vcd.changes) h refl

Good-changes : (body : Body) → Good body → AllBefore body.1.changes body.0
unfolding Good
Good-changes body h = h

-- If no time stamp of the dump's body goes back behind the one before it, the changes of every
-- signal stand in ascending order of time, as the binary searches of the store need them.
pub parse_vcd-Sorted :
    (timescale provenance : Text) (defs : List Def) (body : Text)
    → Forward 0 (splitlines body)
    → Sorted (record { vcd = parse_vcd timescale defs body; provenance = provenance })
unfolding parse_vcd
parse_vcd-Sorted timescale provenance defs body f =
    let start : Body = (0, (defines ([], empty_data timescale) defs).1) in
    let good =
      read_lines-Good start (splitlines body) f
        (unfold Good in defines-Good ([], empty_data timescale) defs tt) in
    Sorted-changes _ (read_lines start (splitlines body)).0
      (Good-changes (read_lines start (splitlines body)) good)
