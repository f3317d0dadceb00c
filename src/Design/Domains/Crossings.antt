-- ===== src/Design/Domains/Crossings.antt =====
-- chipchamp/design/domains.py: which crossings `infer_domains` reports.
use mathlib.Core.List.{Memᴰ}
use mathlib.Core.List.Memᴰ
use chipchamp.Prelude.{
  ◌≡◌, refl, sym, subst, ◌∙◌, ◌↔◌, Bool, true, false, not, ◌&&◌, Option, none, some, List, [],
  if◌then◌else◌,
}
use chipchamp.Text.{Text, text_eq, is_empty}
use chipchamp.Gather.{gather-in, gather-out}
use chipchamp.Dict.{Dict, get}
use chipchamp.Dict.Laws.{Keyed}
use chipchamp.Design.{AlwaysBlock, Module}
use chipchamp.Design.Domains.{
  Crossing, clock_of, sinks_of, crossings_from, crossings_into, infer_domains,
}
use chipchamp.Design.Domains.Owners.{owner, infer_domains-owner}

-- A block reads a signal of another clock, and assigns a signal.
pub record Crosses (m : Module) (overrides : Dict Text) (c : Crossing) : Type 0 where
  pub block : AlwaysBlock
  pub in_module : Memᴰ block m.always_blocks
  pub clocked : clock_of block ≡ some c.1.1.0
  pub reads : Memᴰ c.0 block.rhs
  pub owned : owner m overrides c.0 ≡ some c.1.0
  pub named : is_empty c.1.0 ≡ false
  pub apart : text_eq c.1.0 c.1.1.0 ≡ false
  pub reaches : Memᴰ c.1.1.1 (sinks_of block)

kept :
    (e q : Bool) (l : List Crossing) (c : Crossing)
    → Memᴰ c (if not e && not q then l else [])
    → (e ≡ false) × (q ≡ false) × Memᴰ c l
kept true q l c h = elim h [ ]
kept false true l c h = elim h [ ]
kept false false l c h = (refl, refl, h)

-- what the crossings of one read say
from_read :
    (src : Text) (o : Option Text) (clock : Text) (sinks : List Text) (c : Crossing)
    → Memᴰ c (crossings_from src o clock sinks)
    → (a t : Text) × (o ≡ some a)
      × (is_empty a ≡ false)
      × (text_eq a clock ≡ false)
      × Memᴰ t sinks
      × (c ≡ (src, (a, (clock, t))))
from_read src none clock sinks c h = elim h [ ]
from_read src (some a) clock sinks c h =
    let (p, q, l) = kept (is_empty a) (text_eq a clock) _ c h in
    let (t, at, k) = Memᴰ.of_map (λ (s : Text). (src, (a, (clock, s)))) sinks l in
    (a, t, refl, p, q, at, sym k)

from_block :
    (m : Module) (overrides : Dict Text) (domains : Dict Text) (b : AlwaysBlock) (o : Option Text)
    (c : Crossing)
    → ((s : Text) → get s domains ≡ owner m overrides s)
    → Memᴰ b m.always_blocks
    → clock_of b ≡ o
    → Memᴰ c (crossings_into domains b o)
    → Crosses m overrides c
from_block m overrides domains b none c own at e h = elim h [ ]
from_block m overrides domains b (some clock) c own at e h =
    let (src, reads, l) =
      gather-in (λ src. crossings_from src (get src domains) clock (sinks_of b)) b.rhs h in
    let (a, t, d, p, q, k, same) = from_read src (get src domains) clock (sinks_of b) c l in
    subst (λ z. Crosses m overrides z) (sym same)
      (record {
        block = b;
        in_module = at;
        clocked = e;
        reads = reads;
        owned = sym (own src) ∙ d;
        named = p;
        apart = q;
        reaches = k;
      })

into_block :
    (m : Module) (overrides : Dict Text) (domains : Dict Text) (src a clock t : Text)
    → ((s : Text) → get s domains ≡ owner m overrides s)
    → (x : Crosses m overrides (src, (a, (clock, t))))
    → Memᴰ (src, (a, (clock, t))) (crossings_into domains x.block (clock_of x.block))
into_block m overrides domains src a clock t own x = rw x.clocked (
    gather-out (λ s. crossings_from s (get s domains) clock (sinks_of x.block)) x.block.rhs x.reads
      (rw (own src) (
        rw x.owned
          (rw (x.named, x.apart) (Memᴰ.map (λ (s : Text). (src, (a, (clock, s)))) x.reaches)))))

-- If no signal is overridden twice, the crossings that are reported are those of the sequential blocks:
-- such a block reads a signal that belongs to another clock, which has a name, and the last signal of
-- the crossing is one that it assigns, or `<comb>` if it assigns none.
pub infer_domains-Crosses :
    (m : Module) (overrides : Dict Text) (c : Crossing)
    → Keyed overrides
    → Memᴰ c (infer_domains m overrides).crossings ↔ Crosses m overrides c
unfolding infer_domains
infer_domains-Crosses m overrides (src, (a, (clock, t))) h =
    let own = λ (s : Text). infer_domains-owner m overrides s h in
    let domains = (infer_domains m overrides).signal_domain in
    (
      λ k.
          let (b, at, l) =
            gather-in (λ b. crossings_into domains b (clock_of b)) m.always_blocks k in
          from_block m overrides domains b (clock_of b) _ own at refl l,
      λ x.
          gather-out (λ b. crossings_into domains b (clock_of b)) m.always_blocks x.in_module
            (into_block m overrides domains src a clock t own x),
    )
