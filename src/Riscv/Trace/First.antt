-- ===== src/Riscv/Trace/First.antt =====
-- chipchamp/riscv/trace.py: `diff_traces` answers the first place where two streams part.
use chipchamp.Prelude.{
  ℕ, zero, suc, ◌+◌, min, ◌≡◌, refl, ◌⊎◌, inl, inr, ◌≢◌, Bool, true, false, not, ◌&&◌, Option, none,
  some, List, [], ◌∷◌, ◌==◌, ==_iff, arith, length, take, drop, get_elem?, if◌then◌else◌,
}
use chipchamp.Prelude.Int.{ℤ}
use chipchamp.Riscv.Trace.{
  TraceStep, Divergence, Reason, Options, reason_at, or_rest, or_last, compare_from, length_diff,
  skip_or, diff_traces,
}
use chipchamp.Riscv.Trace.Agree.{Agrees, reason_at_lem}

-- The streams agree as far as both go.
abbrev pub AllAgree : ℤ → List TraceStep → List TraceStep → Type 0
AllAgree off [] b = Unit
AllAgree off (d ∷ ds) [] = Unit
AllAgree off (d ∷ ds) (r ∷ rs) = Agrees off d r × AllAgree off ds rs

-- The streams agree up to a place, and not there; the answer names it, `i` rounds and the skipped
-- steps on, and shows the two instructions.
pub record Parted (off : ℤ) (i sd : ℕ) (a b : List TraceStep) (v : Divergence) : Type 0 where
  pub place : ℕ
  pub dut : TraceStep
  pub ref : TraceStep
  pub indexed : v.index ≡ i + place + sd
  pub before : AllAgree off (take place a) (take place b)
  pub at_dut : get_elem? a place ≡ some dut
  pub at_ref : get_elem? b place ≡ some ref
  pub apart : ¬ Agrees off dut ref
  pub shown_dut : v.dut ≡ some dut
  pub shown_ref : v.ref ≡ some ref

abbrev pub Compared : ℤ → ℕ → ℕ → List TraceStep → List TraceStep → Option Divergence → Type 0
Compared off i sd a b none = AllAgree off a b
Compared off i sd a b (some v) = Parted off i sd a b v

-- the turn after this one
later :
    (off : ℤ) (i sd : ℕ) (d r : TraceStep) (ds rs : List TraceStep) (o : Option Divergence)
    → Agrees off d r
    → Compared off (i + 1) sd ds rs o
    → Compared off i sd (d ∷ ds) (r ∷ rs) o
later off i sd d r ds rs none g c = (g, c)
later off i sd d r ds rs (some v) g c = record {
  place = suc c.place;
  dut = c.dut;
  ref = c.ref;
  indexed = omega (arith, c.indexed);
  before = (g, c.before);
  at_dut = c.at_dut;
  at_ref = c.at_ref;
  apart = c.apart;
  shown_dut = c.shown_dut;
  shown_ref = c.shown_ref;
}

turn :
    (off : ℤ) (i sd : ℕ) (d r : TraceStep) (ds rs : List TraceStep) (o : Option Reason)
    (make : Reason → Divergence) (rest : Option Divergence)
    → reason_at off d r ≡ o
    → ((w : Reason) → (make w).index ≡ i + sd)
    → ((w : Reason) → (make w).dut ≡ some d)
    → ((w : Reason) → (make w).ref ≡ some r)
    → Compared off (i + 1) sd ds rs rest
    → Compared off i sd (d ∷ ds) (r ∷ rs) (or_rest o make rest)
turn off i sd d r ds rs none make rest e p q q' c =
    later off i sd d r ds rs rest ((reason_at_lem off d r).0 e) c
turn off i sd d r ds rs (some w) make rest e p q q' c = record {
  place = zero;
  dut = d;
  ref = r;
  indexed = omega (arith, p w);
  before = tt;
  at_dut = refl;
  at_ref = refl;
  apart = λ g. cc ((reason_at_lem off d r).1 g);
  shown_dut = q w;
  shown_ref = q' w;
}

compare_from-Compared :
    (off : ℤ) (context sd : ℕ) (whole : List TraceStep) (i : ℕ) (a b : List TraceStep)
    → Compared off i sd a b (compare_from off context sd whole i a b)
unfolding compare_from
compare_from-Compared off context sd whole i [] b = tt
compare_from-Compared off context sd whole i (d ∷ ds) [] = tt
compare_from-Compared off context sd whole i (d ∷ ds) (r ∷ rs) =
    turn off i sd d r ds rs (reason_at off d r) _ _ refl (λ w. refl) (λ w. refl) (λ w. refl)
      (compare_from-Compared off context sd whole (i + 1) ds rs)

-- A strict comparison of streams that agree, but one of them stops.
pub record Cut (off : ℤ) (strict : Bool) (sd : ℕ) (a b : List TraceStep) (v : Divergence)
    : Type 0 where
  pub demanded : strict ≡ true
  pub agreed : AllAgree off a b
  pub unequal : length a ≢ length b
  pub stopped : v.index ≡ min (length a) (length b) + sd

-- Without an answer the streams agree as far as both go, and have the same length if that is
-- demanded. An answer is the first place where they part, or the end of one of them.
abbrev pub Judged : ℤ → Bool → ℕ → List TraceStep → List TraceStep → Option Divergence → Type 0
Judged off strict sd a b none = AllAgree off a b × (strict ≡ true → length a ≡ length b)
Judged off strict sd a b (some v) = Parted off 0 sd a b v ⊎ Cut off strict sd a b v

cut :
    (off : ℤ) (strict e : Bool) (sd : ℕ) (a b : List TraceStep) (v : Divergence)
    → (length a == length b) ≡ e
    → v.index ≡ min (length a) (length b) + sd
    → AllAgree off a b
    → Judged off strict sd a b (if strict && not e then some v else none)
cut off true true sd a b v p q g = (g, λ f. (==_iff _ _).0 p)
cut off true false sd a b v p q g =
    inr (record { demanded = refl; agreed = g; unequal = λ f. cc ((==_iff _ _).1 f); stopped = q })
cut off false e sd a b v p q g = (g, λ f. cc)

ending :
    (off : ℤ) (strict : Bool) (context sd : ℕ) (a b : List TraceStep)
    → AllAgree off a b
    → Judged off strict sd a b (length_diff strict context sd a b)
unfolding length_diff
ending off strict context sd a b g = cut off strict (length a == length b) sd a b _ refl refl g

joined :
    (off : ℤ) (strict : Bool) (sd : ℕ) (a b : List TraceStep) (o last : Option Divergence)
    → Compared off 0 sd a b o
    → (AllAgree off a b → Judged off strict sd a b last)
    → Judged off strict sd a b (or_last o last)
joined off strict sd a b none last c h = h c
joined off strict sd a b (some v) last c h = inl c

-- Between the streams behind the skipped steps: without an answer they agree as far as both go, and
-- are equally long if that is demanded. An answer shows the first place where they do not agree, with
-- both instructions, or else they agree, equal lengths are demanded, and one of them is shorter.
pub diff_traces-Judged :
    (o : Options) (dut ref : List TraceStep)
    → Judged o.pc_offset o.strict_length
        (skip_or o.skip_dut o.skip)
        (drop (skip_or o.skip_dut o.skip) dut)
        (drop (skip_or o.skip_ref o.skip) ref)
        (diff_traces o dut ref)
unfolding diff_traces
diff_traces-Judged o dut ref =
    let sd = skip_or o.skip_dut o.skip in
    let a = drop sd dut in
    let b = drop (skip_or o.skip_ref o.skip) ref in
    joined o.pc_offset o.strict_length sd a b _ _
      (compare_from-Compared o.pc_offset o.context sd b 0 a b)
      (λ g. ending o.pc_offset o.strict_length o.context sd a b g)
