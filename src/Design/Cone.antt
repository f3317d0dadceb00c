-- ===== src/Design/Cone.antt =====
-- chipchamp/design/cone.py: the statements that drive a signal, or that read it. `port_dir` answers
-- nothing if it is not given.
use chipchamp.Prelude.{
  ℕ, Bool, true, not, ◌&&◌, ◌||◌, Option, none, some, List, [], ◌∷◌, ◌++◌, map, if◌then◌else◌,
}
use chipchamp.Text.{Text, codes, text_eq, split, is_empty, any}
use chipchamp.Text.Numbers.{decimal}
use chipchamp.Design.{AlwaysBlock, ContinuousAssign, Instance, Module}
use chipchamp.Design.Names.{signal_names}

pub data Direction : Type 0 where
  fanin fanout : Direction

-- the text of a statement, where it stands, and the signals behind it
pub record Driver : Type 0 where
  pub text : Text
  pub loc : Text
  pub ups : List Text

pub record SignalInfo : Type 0 where
  pub name : Text
  pub domain : Option Text
  pub drivers : List Text

abbrev pub mem : Text → List Text → Bool
mem t ts = any (λ u. text_eq t u) ts

abbrev first : List Text → Text
first [] = []
first (t ∷ ts) = t

abbrev last : List Text → Text
last [] = []
last (t ∷ []) = t
last (t ∷ u ∷ ts) = last (u ∷ ts)

-- `s.split("[")[0]`
unfoldable pub root : Text → Text
unfolding split
root s = first (split b'[' s)

abbrev pub roots : List Text → List Text
roots ss = map root ss

abbrev at : Text → ℕ → Text
at file line = file ++ b':' ∷ decimal line

-- `", ".join(e + " " + s for e, s in sens)`
abbrev edges : List (Text × Text) → Text
edges [] = []
edges ((e, s) ∷ []) = e ++ 32 ∷ s
edges ((e, s) ∷ f ∷ more) = e ++ 32 ∷ (s ++ (codes ", " ++ edges (f ∷ more)))

abbrev assign_text : ContinuousAssign → Text
assign_text c = codes "assign " ++ (c.lhs ++ (codes " = " ++ (c.rhs ++ codes ";")))

abbrev head_of : AlwaysBlock → Text
head_of b =
    if is_empty b.sens then b.kind else b.kind ++ (codes " @(" ++ (edges b.sens ++ codes ")"))

abbrev and_if : Bool → Driver → List Driver → List Driver
and_if b d ds = if b then d ∷ ds else ds

abbrev assign_drivers : Text → List ContinuousAssign → List Driver
assign_drivers base [] = []
assign_drivers base (c ∷ cs) =
    and_if (mem base (roots c.lhs_signals))
      (record { text = assign_text c; loc = at c.file c.line; ups = c.rhs_signals })
      (assign_drivers base cs)

abbrev block_drivers : Text → List AlwaysBlock → List Driver
block_drivers base [] = []
block_drivers base (b ∷ bs) =
    and_if (mem base (roots b.lhs))
      (record {
        text = head_of b ++ (codes " ... // assigns " ++ base);
        loc = at b.file b.line;
        ups = b.rhs;
      })
      (block_drivers base bs)

-- `_drivers_of`
unfoldable pub drivers_of : Module → Text → List Driver
unfolding text_eq split is_empty decimal root
drivers_of m sig =
    let base = first (split b'.' (root sig)) in
    assign_drivers base m.assigns ++ block_drivers base m.always_blocks

abbrev assign_loads : Text → List ContinuousAssign → List Driver
assign_loads base [] = []
assign_loads base (c ∷ cs) =
    and_if (mem base (roots c.rhs_signals))
      (record { text = assign_text c; loc = at c.file c.line; ups = c.lhs_signals })
      (assign_loads base cs)

abbrev block_loads : Text → List AlwaysBlock → List Driver
block_loads base [] = []
block_loads base (b ∷ bs) =
    and_if (mem base (roots b.rhs))
      (record {
        text = b.kind ++ (codes " ... // reads " ++ base);
        loc = at b.file b.line;
        ups = b.lhs;
      })
      (block_loads base bs)

-- `_loads_of`
pub loads_of : Module → Text → List Driver
unfolding text_eq decimal root
loads_of m sig =
    let base = root sig in assign_loads base m.assigns ++ block_loads base m.always_blocks

abbrev drives : Option Text → Bool
drives none = true
drives (some d) = text_eq d (codes "output")

module _ (port_dir : Text → Text → Option Text) where
  abbrev pin_drivers : Text → Instance → List (Text × Text) → List Driver
  pin_drivers base i [] = []
  pin_drivers base i ((port, expr) ∷ more) =
      and_if
        (not (text_eq port (codes ".*") || is_empty port)
          && mem base (roots (signal_names expr))
          && drives (port_dir i.module_type port))
        (record {
          text =
              i.module_type
              ++ 32
                ∷ (i.inst_name
                    ++ (codes " ( ."
                        ++ (port
                            ++ (codes "("
                                ++ (expr
                                    ++ (codes ") ) // "
                                        ++ (i.inst_name ++ (codes " drives " ++ base))))))));
          loc = at i.file i.line;
          ups = [];
        })
        (pin_drivers base i more)

  abbrev inst_drivers_of : Text → List Instance → List Driver
  inst_drivers_of base [] = []
  inst_drivers_of base (i ∷ is) = pin_drivers base i i.connections ++ inst_drivers_of base is

  -- `_inst_drivers`
  unfoldable pub inst_drivers : Module → Text → List Driver
  unfolding text_eq decimal root is_empty signal_names
  inst_drivers m sig = inst_drivers_of (root sig) m.instances

  -- the statements of a signal, by the direction
  unfoldable pub statements_of : Direction → Module → Text → List Driver
  unfolding drivers_of loads_of inst_drivers
  statements_of fanin m s = drivers_of m s ++ inst_drivers m s
  statements_of fanout m s = loads_of m s
