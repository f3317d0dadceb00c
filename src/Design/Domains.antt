-- ===== src/Design/Domains.antt =====
-- chipchamp/design/domains.py: `infer_domains`, the clock and the reset of each signal of a module, and
-- the crossings between clocks.
pub mod Owners
pub mod Crossings
use chipchamp.Prelude.{
  Bool, true, false, not, ◌||◌, ◌&&◌, Option, none, some, List, [], ◌∷◌, ◌++◌, map, if◌then◌else◌,
}
use chipchamp.Text.{Text, codes, text_eq, is_empty, any}
use chipchamp.Gather.{gather}
use chipchamp.Dict.{Dict, get, put, update}
use chipchamp.Design.{AlwaysBlock, Module}

-- a signal, the clock that it lives in, the clock that reads it, and a signal that it reaches
abbrev pub Crossing : Type 0
Crossing = Text × (Text × (Text × Text))

pub record DomainMap : Type 0 where
  pub name : Text
  pub signal_domain : Dict Text
  pub signal_reset : Dict Text
  pub clocks : List Text
  pub resets : List Text
  pub crossings : List Crossing

-- a set gets an element
abbrev add : Text → List Text → List Text
add t ts = if any (λ u. text_eq t u) ts then ts else ts ++ t ∷ []

abbrev add_all : List Text → List Text → List Text
add_all [] ts = ts
add_all (r ∷ rs) ts = add_all rs (add r ts)

abbrev or_given : Text → Option Text → Text
or_given t none = t
or_given t (some u) = u

-- the clock of a block that is neither `always_comb` nor `always_latch`, if it has one
abbrev real : Option Text → Option Text
real none = none
real (some c) = if is_empty c then none else some c

unfoldable pub clock_of : AlwaysBlock → Option Text
unfolding text_eq is_empty
clock_of b =
    if text_eq b.kind (codes "always_comb") || text_eq b.kind (codes "always_latch")
    then none
    else real b.clock

module _ (overrides : Dict Text) where
  -- `overrides.get(sig, blk.clock)` for each signal that the block assigns
  unfoldable pub assign_domains : Text → List Text → Dict Text → Dict Text
  unfolding get put
  assign_domains clock [] d = d
  assign_domains clock (s ∷ ss) d =
      assign_domains clock ss (put s (or_given clock (get s overrides)) d)

  unfoldable pub assign_resets : List Text → List Text → Dict Text → Dict Text
  unfolding put
  assign_resets [] lhs d = d
  assign_resets (r ∷ rs) [] d = d
  assign_resets (r ∷ rs) (s ∷ ss) d = assign_resets (r ∷ rs) ss (put s r d)

  abbrev take_block : AlwaysBlock → Option Text → DomainMap → DomainMap
  take_block b none dm = dm
  take_block b (some clock) dm = record dm {
    clocks = add clock dm.clocks;
    resets = add_all b.resets dm.resets;
    signal_domain = assign_domains clock b.lhs dm.signal_domain;
    signal_reset = assign_resets b.resets b.lhs dm.signal_reset;
  }

  -- the first loop
  unfoldable pub take_blocks : List AlwaysBlock → DomainMap → DomainMap
  unfolding clock_of assign_domains assign_resets
  take_blocks [] dm = dm
  take_blocks (b ∷ bs) dm = take_blocks bs (take_block b (clock_of b) dm)

-- the signals that a read reaches
abbrev pub sinks_of : AlwaysBlock → List Text
sinks_of b = if is_empty b.lhs then codes "<comb>" ∷ [] else b.lhs

-- the crossings of one read: its signal, its clock, and the block that reads it
abbrev pub crossings_from : Text → Option Text → Text → List Text → List Crossing
crossings_from src none sink_clock sinks = []
crossings_from src (some c) sink_clock sinks =
    if not (is_empty c) && not (text_eq c sink_clock)
    then map (λ s. (src, (c, (sink_clock, s)))) sinks
    else []

abbrev pub crossings_into : Dict Text → AlwaysBlock → Option Text → List Crossing
crossings_into domains b none = []
crossings_into domains b (some clock) =
    gather (λ src. crossings_from src (get src domains) clock (sinks_of b)) b.rhs

abbrev pub all_crossings : Dict Text → List AlwaysBlock → List Crossing
all_crossings domains blocks = gather (λ b. crossings_into domains b (clock_of b)) blocks

abbrev empty : Text → DomainMap
empty n = record {
  name = n;
  signal_domain = [];
  signal_reset = [];
  clocks = [];
  resets = [];
  crossings = [];
}

unfoldable pub infer_domains : Module → Dict Text → DomainMap
unfolding take_blocks update
infer_domains m overrides =
    let dm = take_blocks overrides m.always_blocks (empty m.name) in
    let domains = update dm.signal_domain overrides in
    record dm { signal_domain = domains; crossings = all_crossings domains m.always_blocks }
