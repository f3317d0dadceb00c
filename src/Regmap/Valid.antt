-- ===== src/Regmap/Valid.antt =====
-- chipchamp/regmap/compiler.py: `validate` accepts exactly the well-formed register maps.
use chipchamp.Prelude.{
  ℕ, ◌+◌, ◌<◌, ◌^◌, ◌%◌, ◌≡◌, ◌≢◌, refl, subst, ◌↔◌, true, false, List, [], ◌∷◌, ==_iff, arith,
  Bool-cases, inl, inr, not-false, or-false,
}
use chipchamp.Prelude.Int.{ℤ, pos, negsuc, pos_part, neg_part, eq_of_parts}
use chipchamp.Text.{Text, codes, text_eq, text_eq_iff, lower, any}
use chipchamp.Regmap.{
  Register, RegmapSpec, is_unaligned, is_beyond, same_offset, validate_fields, validate_registers,
  validate, no_bits,
}
use chipchamp.Regmap.Fields.{Each, AreFields, check-nil, append-nil, validate_fields-AreFields}

-- An offset is below the end of the address space; one below 0 is not looked at.
abbrev pub Within : ℤ → ℕ → Type 0
Within (pos n) aw = n < 2 ^ aw
Within (negsuc n) aw = Unit

-- a register behind those that stand before it
pub record IsRegister (aw : ℕ) (earlier : List Register) (r : Register) : Type 0 where
  pub fresh : Each (λ g. text_eq (lower r.name) (lower g.name) ≡ false) earlier
  pub aligned : (pos_part r.offset + neg_part r.offset) % 4 ≡ 0
  pub unused : Each (λ g. r.offset ≢ g.offset) earlier
  pub within : Within r.offset aw
  pub fields : AreFields [] r.fields

abbrev pub AreRegisters : ℕ → List Register → List Register → Type 0
AreRegisters aw earlier [] = Unit
AreRegisters aw earlier (r ∷ rs) = IsRegister aw earlier r × AreRegisters aw (r ∷ earlier) rs

abbrev names_of : List Register → List Text
names_of [] = []
names_of (r ∷ rs) = lower r.name ∷ names_of rs

abbrev offsets_of : List Register → List ℤ
offsets_of [] = []
offsets_of (r ∷ rs) = r.offset ∷ offsets_of rs

any-names :
    (n : Text) (earlier : List Register)
    → (any (λ m. text_eq n m) (names_of earlier) ≡ false)
      ↔ Each (λ g. text_eq n (lower g.name) ≡ false) earlier
any-names n [] = (λ h. tt, λ h. refl)
any-names n (g ∷ gs) = (
  λ h. let (p, q) = (or-false (text_eq n (lower g.name)) _).0 h in (p, (any-names n gs).0 q),
  λ h. (or-false (text_eq n (lower g.name)) _).1 (h.0, (any-names n gs).1 h.1),
)

same_offset-false : (a b : ℤ) → (same_offset a b ≡ false) ↔ (a ≢ b)
same_offset-false a b = (
  λ h e. cc (subst (λ c. same_offset a c ≡ true) e ((==_iff _ _).1 refl)),
  λ n. elim (Bool-cases (same_offset a b)) [
    | inl e ↦ absurd (n (eq_of_parts a b ((==_iff _ _).0 e)))
    | inr e ↦ e
  ],
)

any-offsets :
    (o : ℤ) (earlier : List Register)
    → (any (λ p. same_offset o p) (offsets_of earlier) ≡ false) ↔ Each (λ g. o ≢ g.offset) earlier
any-offsets o [] = (λ h. tt, λ h. refl)
any-offsets o (g ∷ gs) = (
  λ h.
      let (p, q) = (or-false (same_offset o g.offset) _).0 h in
      ((same_offset-false o g.offset).0 p, (any-offsets o gs).0 q),
  λ h.
      (or-false (same_offset o g.offset) _).1
        ((same_offset-false o g.offset).1 h.0, (any-offsets o gs).1 h.1),
)

is_unaligned-false : (o : ℤ) → (is_unaligned o ≡ false) ↔ ((pos_part o + neg_part o) % 4 ≡ 0)
unfolding is_unaligned
is_unaligned-false (pos n) = (λ h. ground arith, λ h. ground arith)
is_unaligned-false (negsuc n) = (λ h. ground arith, λ h. ground arith)

is_beyond-false : (o : ℤ) (aw : ℕ) → (is_beyond o aw ≡ false) ↔ Within o aw
unfolding is_beyond
is_beyond-false (pos n) aw = (λ h. ground arith, λ h. ground arith)
is_beyond-false (negsuc n) aw = (λ h. tt, λ h. refl)

validate_registers-AreRegisters :
    (aw : ℕ) (earlier rs : List Register)
    → (validate_registers aw (names_of earlier) (offsets_of earlier) rs ≡ [])
      ↔ AreRegisters aw earlier rs
unfolding validate_registers
validate_registers-AreRegisters aw earlier [] = (λ h. tt, λ h. refl)
validate_registers-AreRegisters aw earlier (r ∷ rs) = (
  λ h.
      let (fresh, h1) = (check-nil _ _ _).0 h in
      let (straight, h2) = (check-nil _ _ _).0 h1 in
      let (unused, h3) = (check-nil _ _ _).0 h2 in
      let (inside, h4) = (check-nil _ _ _).0 h3 in
      let (good, h5) = (append-nil (validate_fields r.name [] no_bits r.fields) _).0 h4 in
      (
        record {
          fresh = (any-names (lower r.name) earlier).0 fresh;
          aligned = (is_unaligned-false r.offset).0 straight;
          unused = (any-offsets r.offset earlier).0 unused;
          within = (is_beyond-false r.offset aw).0 inside;
          fields = (validate_fields-AreFields r.name [] r.fields tt).0 good;
        },
        (validate_registers-AreRegisters aw (r ∷ earlier) rs).0 h5,
      ),
  λ (g, more). (check-nil _ _ _).1 (
    (any-names (lower r.name) earlier).1 g.fresh,
    (check-nil _ _ _).1 (
      (is_unaligned-false r.offset).1 g.aligned,
      (check-nil _ _ _).1 (
        (any-offsets r.offset earlier).1 g.unused,
        (check-nil _ _ _).1 (
          (is_beyond-false r.offset aw).1 g.within,
          (append-nil (validate_fields r.name [] no_bits r.fields) _).1 (
            (validate_fields-AreFields r.name [] r.fields tt).1 g.fields,
            (validate_registers-AreRegisters aw (r ∷ earlier) rs).1 more,
          ),
        ),
      ),
    ),
  ),
)

-- `validate` reports nothing exactly if the bus is APB and, of the registers, each has a name and an
-- offset that no earlier one has, an offset that is a multiple of 4 and below the end of the address
-- space, and fields with names of their own, a known access, bits in the register that no earlier
-- field has, and a reset value that fits. (An offset below 0 counts as below the end, and names are
-- compared without their case.)
pub validate-AreRegisters :
    (spec : RegmapSpec)
    → (validate spec ≡ [])
      ↔ ((spec.bus ≡ codes "apb") × AreRegisters spec.addr_width [] spec.registers)
unfolding validate
validate-AreRegisters spec =
    let bus = not-false _ _ (text_eq_iff spec.bus (codes "apb")) in
    let regs = validate_registers-AreRegisters spec.addr_width [] spec.registers in
    (
      λ h. let (b, more) = (check-nil _ _ _).0 h in (bus.0 b, regs.0 more),
      λ h. (check-nil _ _ _).1 (bus.1 h.0, regs.1 h.1),
    )
