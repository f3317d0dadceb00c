-- ===== src/Riscv/Trace/Agree.antt =====
-- chipchamp/riscv/trace.py: what the tests of one turn of `diff_traces` mean.
use chipchamp.Prelude.{
  not-false, ℕ, ◌+◌, ◌≡◌, refl, subst, sym, ◌↔◌, ◌⊎◌, inl, inr, Bool, true, false, not, ◌&&◌,
  Option, none, some, ◌==◌, ==_iff, arith, if◌then◌else◌,
}
use chipchamp.Prelude.Int.{ℤ, pos_part, neg_part}
use chipchamp.Text.{Text, text_eq, text_eq_sound, text_eq_refl, is_empty}
use chipchamp.Riscv.Trace.{
  TraceStep, pc, insn, writeback, mem, shifted, insn_differs, reg_differs, value_differs,
  addr_differs, both, reason_at,
}

-- `b` is `a` moved by the offset
abbrev pub Shifted : ℤ → ℕ → ℕ → Type 0
Shifted off a b = a + pos_part off ≡ b + neg_part off

-- the relation holds if both sides know the value
abbrev pub Known : (ℕ → ℕ → Type 0) → Option ℕ → Option ℕ → Type 0
Known R none b = Unit
Known R (some x) none = Unit
Known R (some x) (some y) = R x y

-- a stored or loaded value may be a pointer into an image that is linked elsewhere
abbrev pub SameValue : ℤ → Option ℕ → Option ℕ → Type 0
SameValue off a b = Known (λ x y. (x ≡ y) ⊎ Shifted off x y) a b

-- Two retired instructions agree, as far as both producers report them.
pub record Agrees (off : ℤ) (d r : TraceStep) : Type 0 where
  pub same_pc : Shifted off d.pc r.pc
  pub same_insn : Known (λ x y. x ≡ y) d.insn r.insn
  pub same_reg : (is_empty d.reg ≡ true) ⊎ (is_empty r.reg ≡ true) ⊎ (d.reg ≡ r.reg)
  pub same_value : (is_empty d.reg ≡ true) ⊎ (is_empty r.reg ≡ true) ⊎ SameValue off d.value r.value
  pub same_addr : Known (λ x y. Shifted off x y) d.mem_addr r.mem_addr
  pub same_data : (both d.mem_addr r.mem_addr ≡ false) ⊎ SameValue off d.mem_wdata r.mem_wdata

-- a test that is made only where neither `a` nor `b` holds
guarded :
    (a b c : Bool) (P : Type 0)
    → (c ≡ false) ↔ P
    → (not a && not b && c ≡ false) ↔ ((a ≡ true) ⊎ (b ≡ true) ⊎ P)
guarded true b c P h = (λ e. inl refl, λ e. refl)
guarded false true c P h = (λ e. inr (inl refl), λ e. refl)
guarded false false c P h = (
  λ e. inr (inr (h.0 e)),
  λ e. elim e [ inl f ↦ cc | inr g ↦ elim g [ inl f ↦ cc | inr p ↦ h.1 p ] ],
)

neither :
    (a b : Bool) (P Q : Type 0)
    → (a ≡ true) ↔ P
    → (b ≡ true) ↔ Q
    → (not a && not b ≡ false) ↔ (P ⊎ Q)
neither true b P Q h k = (λ e. inl (h.0 refl), λ e. refl)
neither false true P Q h k = (λ e. inr (k.0 refl), λ e. refl)
neither false false P Q h k = (
  λ (e : true ≡ false). inl (h.0 (sym e)),
  λ e. elim e [ inl p ↦ sym (h.1 p) | inr q ↦ sym (k.1 q) ],
)

only_where : (a c : Bool) (P : Type 0) → (c ≡ false) ↔ P → (a && c ≡ false) ↔ ((a ≡ false) ⊎ P)
only_where true c P h = (λ e. inr (h.0 e), λ e. elim e [ inl f ↦ cc | inr p ↦ h.1 p ])
only_where false c P h = (λ e. inl refl, λ e. refl)

true_is_false : true ≡ false → ⊥
true_is_false e = cc

next_test {ℓ} :
    {A : Type ℓ} (c : Bool) (w : A) (rest : Option A) (P Q : Type 0)
    → (c ≡ false) ↔ P
    → (rest ≡ none) ↔ Q
    → ((if c then some w else rest) ≡ none) ↔ (P × Q)
next_test true w rest P Q h k = (λ e. cc, λ e. absurd (true_is_false (h.1 e.0)))
next_test false w rest P Q h k = (λ e. (h.0 refl, k.0 e), λ e. k.1 e.1)

last_test {ℓ} :
    {A : Type ℓ} (c : Bool) (w : A) (P : Type 0)
    → (c ≡ false) ↔ P
    → ((if c then some w else none) ≡ none) ↔ P
last_test true w P h = (λ e. cc, λ e. absurd (true_is_false (h.1 e)))
last_test false w P h = (λ e. h.0 refl, λ e. refl)

insn_differs_lem : (a b : Option ℕ) → (insn_differs a b ≡ false) ↔ Known (λ x y. x ≡ y) a b
unfolding insn_differs
insn_differs_lem none b = (λ h. tt, λ h. refl)
insn_differs_lem (some x) none = (λ h. tt, λ h. refl)
insn_differs_lem (some x) (some y) = (λ h. ground arith, λ h. ground arith)

value_differs_lem : (off : ℤ) (a b : Option ℕ) → (value_differs off a b ≡ false) ↔ SameValue off a b
unfolding value_differs
value_differs_lem off none b = (λ h. tt, λ h. refl)
value_differs_lem off (some x) none = (λ h. tt, λ h. refl)
value_differs_lem off (some x) (some y) =
    neither (x == y) (shifted off x y) (x ≡ y) (Shifted off x y) (==_iff _ _) (==_iff _ _)

addr_differs_lem :
    (off : ℤ) (a b : Option ℕ) → (addr_differs off a b ≡ false) ↔ Known (λ x y. Shifted off x y) a b
unfolding addr_differs
addr_differs_lem off none b = (λ h. tt, λ h. refl)
addr_differs_lem off (some x) none = (λ h. tt, λ h. refl)
addr_differs_lem off (some x) (some y) = (λ h. ground arith, λ h. ground arith)

reg_differs_lem :
    (a b : Text) → (reg_differs a b ≡ false) ↔ ((is_empty a ≡ true) ⊎ (is_empty b ≡ true) ⊎ (a ≡ b))
unfolding reg_differs
reg_differs_lem a b = guarded (is_empty a) (is_empty b) (not (text_eq a b)) (a ≡ b) (
    not-false (text_eq a b) (a ≡ b)
      (text_eq_sound a b, λ e. subst (λ c. text_eq a c ≡ true) e (text_eq_refl a)))

-- The tests of a turn find no reason exactly if the two instructions agree.
pub reason_at_lem : (off : ℤ) (d r : TraceStep) → (reason_at off d r ≡ none) ↔ Agrees off d r
unfolding reason_at
reason_at_lem off d r =
    let one = not-false (shifted off d.pc r.pc) (Shifted off d.pc r.pc) (==_iff _ _) in
    let two = insn_differs_lem d.insn r.insn in
    let three = reg_differs_lem d.reg r.reg in
    let four =
      guarded (is_empty d.reg) (is_empty r.reg) (value_differs off d.value r.value) _
        (value_differs_lem off d.value r.value) in
    let five = addr_differs_lem off d.mem_addr r.mem_addr in
    let six =
      only_where (both d.mem_addr r.mem_addr) (value_differs off d.mem_wdata r.mem_wdata) _
        (value_differs_lem off d.mem_wdata r.mem_wdata) in
    let all = next_test _ pc _ _ _ one (
      next_test _ insn _ _ _ two (
        next_test _ writeback _ _ _ three (
          next_test _ writeback _ _ _ four
            (next_test _ mem _ _ _ five (last_test _ mem _ six))))) in
    (
      λ e.
          let (a, (b, (c, (w, (f, g))))) = all.0 e in
          record {
            same_pc = a;
            same_insn = b;
            same_reg = c;
            same_value = w;
            same_addr = f;
            same_data = g;
          },
      λ g.
          all.1
            (g.same_pc, (g.same_insn, (g.same_reg, (g.same_value, (g.same_addr, g.same_data))))),
    )
