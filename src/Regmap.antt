-- ===== src/Regmap.antt =====
-- chipchamp/regmap/compiler.py: the specification of a register map and its validation. Numbers of
-- the YAML file may be below 0, so they are integers. The mask of the used bits is the function that
-- says which bits are set; the texts of the errors keep the names that they show.
pub mod Fields
pub mod Valid
pub mod Names
pub mod Verilog
pub mod Header
pub mod Table
pub mod Outputs
mod Examples
use chipchamp.Prelude.{
  ℕ, zero, suc, ◌+◌, ◌*◌, ◌/◌, ◌%◌, ◌^◌, Bool, true, false, not, ◌&&◌, ◌||◌, List, [], ◌∷◌, ◌++◌,
  leb, ltb, ◌==◌, if◌then◌else◌,
}
use chipchamp.Prelude.Int.{ℤ, pos, negsuc, pos_part, neg_part, ltb_ℤ, ◌+ℤ◌, ◌-ℤ◌}
use chipchamp.Text.{Text, codes, text_eq, lower, any}

pub record Field : Type 0 where
  pub name : Text
  pub msb : ℤ
  pub lsb : ℤ
  pub access : Text
  pub reset : ℤ
  pub desc : Text

pub record Register : Type 0 where
  pub name : Text
  pub offset : ℤ
  pub desc : Text
  pub fields : List Field

pub record RegmapSpec : Type 0 where
  pub name : Text
  pub bus : Text
  pub addr_width : ℕ
  pub registers : List Register

unfoldable pub width : Field → ℤ
unfolding ◌+ℤ◌ ◌-ℤ◌
width f = f.msb -ℤ f.lsb +ℤ pos 1

pub data Error : Type 0 where
  unsupported_bus duplicate_register not_aligned offset_used beyond_addr_width : Text → Error
  duplicate_field bad_access out_of_range overlaps reset_too_wide : Text → Text → Error

abbrev pub check : Bool → Error → List Error → List Error
check true e more = e ∷ more
check false e more = more

-- `reg.offset % 4`, which is not below 0
unfoldable pub is_unaligned : ℤ → Bool
is_unaligned (pos n) = not (n % 4 == 0)
is_unaligned (negsuc n) = not ((n + 1) % 4 == 0)

unfoldable pub is_beyond : ℤ → ℕ → Bool
is_beyond (pos n) addr_width = leb (2 ^ addr_width) n
is_beyond (negsuc n) addr_width = false

unfoldable pub is_access : Text → Bool
unfolding text_eq
is_access a = text_eq a (codes "RW") || text_eq a (codes "RO") || text_eq a (codes "W1C")

-- `0 <= f.lsb <= f.msb < REG_WIDTH`
unfoldable pub in_range : Field → Bool
in_range f = neg_part f.lsb == 0 && not (ltb_ℤ f.msb f.lsb) && ltb_ℤ f.msb (pos 32)

-- `((1 << f.width) - 1) << f.lsb`, of a field in range: the bits from `lsb` to `msb`
unfoldable pub mask : Field → ℕ → Bool
mask f i = leb (pos_part f.lsb) i && leb i (pos_part f.msb)

-- `used & mask`, where both have bits below the bound only
unfoldable pub meets : ℕ → (ℕ → Bool) → (ℕ → Bool) → Bool
meets zero used m = false
meets (suc n) used m = used n && m n || meets n used m

abbrev pub no_bits : ℕ → Bool
no_bits i = false

-- `f.reset >> f.width`: a number below 0 never comes to 0
unfoldable pub is_too_wide : Field → Bool
is_too_wide f =
    if neg_part f.reset == 0 then leb (2 ^ pos_part (width f)) (pos_part f.reset) else true

-- the loop over the fields: the names so far, in lower case, and the bits so far
unfoldable pub validate_fields : Text → List Text → (ℕ → Bool) → List Field → List Error
unfolding text_eq lower is_access in_range mask meets is_too_wide
validate_fields reg names used [] = []
validate_fields reg names used (f ∷ fs) =
    let next = lower f.name ∷ names in
    let skipped = validate_fields reg next used fs in
    let rest = validate_fields reg next (λ i. mask f i || used i) fs in
    check (any (λ n. text_eq (lower f.name) n) names) (duplicate_field reg f.name) (
      check (not (is_access f.access)) (bad_access reg f.name) (
        if in_range f
        then check (meets 32 used (mask f)) (overlaps reg f.name)
            (check (is_too_wide f) (reset_too_wide reg f.name) rest)
        else out_of_range reg f.name ∷ skipped))

abbrev pub same_offset : ℤ → ℤ → Bool
same_offset a b = pos_part a + neg_part b == pos_part b + neg_part a

-- the loop over the registers: their names and offsets so far
unfoldable pub validate_registers : ℕ → List Text → List ℤ → List Register → List Error
unfolding text_eq lower is_unaligned is_beyond validate_fields
validate_registers aw names offsets [] = []
validate_registers aw names offsets (r ∷ rs) =
    let rest = validate_registers aw (lower r.name ∷ names) (r.offset ∷ offsets) rs in
    check (any (λ n. text_eq (lower r.name) n) names) (duplicate_register r.name) (
      check (is_unaligned r.offset) (not_aligned r.name) (
        check (any (λ o. same_offset r.offset o) offsets) (offset_used r.name) (
          check (is_beyond r.offset aw) (beyond_addr_width r.name)
            (validate_fields r.name [] no_bits r.fields ++ rest))))

unfoldable pub validate : RegmapSpec → List Error
unfolding text_eq validate_registers
validate spec =
    check (not (text_eq spec.bus (codes "apb"))) (unsupported_bus spec.bus)
      (validate_registers spec.addr_width [] [] spec.registers)
