-- ===== src/Coverage/Impact/Located.antt =====
-- chipchamp/coverage/impact.py: where the lines of an edit stand in the recorded source.
use chipchamp.Prelude.{
  ℕ, zero, suc, ◌≡◌, sym, subst, Bool, true, false, not, ◌&&◌, Option, none, some, List, [], ◌∷◌,
  get_elem?, arith, choose, ==_iff, ◌==◌,
}
use chipchamp.Text.{Text, is_empty}
use chipchamp.Lines.{strip}
use chipchamp.Coverage.Impact.{
  Block, Mapping, count, is_unique, keep_line, and_then, map_block, map_blocks, recorded,
}

-- the blocks are where the lists agree, as the documentation of `get_matching_blocks` says
abbrev pub Matches : List Text → List Text → ℕ → ℕ → ℕ → Type 0
Matches old new a b zero = Unit
Matches old new a b (suc k) =
    ((line : Text) × (get_elem? old a ≡ some line) × (get_elem? new b ≡ some line))
    × Matches old new (suc a) (suc b) k

abbrev pub AllMatch : List Text → List Text → List Block → Type 0
AllMatch old new [] = Unit
AllMatch old new (k ∷ ks) = Matches old new k.a k.b k.size × AllMatch old new ks

-- the line of a number from 1 on
abbrev pub line_at : List Text → ℕ → Option Text
line_at ls zero = none
line_at ls (suc i) = get_elem? ls i

-- Both lines have the same text, which is not blank and stands nowhere else.
pub record Located (old new : List Text) (n o : ℕ) : Type 0 where
  pub line : Text
  pub at_old : line_at old o ≡ some line
  pub at_new : line_at new n ≡ some line
  pub is_text : is_empty (strip line) ≡ false
  pub once_old : count line old ≡ 1
  pub once_new : count line new ≡ 1

abbrev pub AllLocated : List Text → List Text → Mapping → Type 0
AllLocated old new [] = Unit
AllLocated old new ((n, o) ∷ m) = Located old new n o × AllLocated old new m

-- what a mapping must be, if there is one
abbrev pub Done : List Text → List Text → Option Mapping → Type 0
Done old new none = ⊥
Done old new (some m) = AllLocated old new m

none_is_some : (o : ℕ) → none ≡ some o → ⊥
none_is_some o h = cc

some_injective : {n o : ℕ} → some n ≡ some o → n ≡ o
some_injective h = cc

three_tests :
    (b : Bool) (c d : ℕ) → not b && c == d && d == 1 ≡ true → (b ≡ false) × (c ≡ 1) × (d ≡ 1)
three_tests b c d h = ground arith

unique_lem :
    (old new : List Text) (line : Text)
    → is_unique old new line ≡ true
    → (is_empty (strip line) ≡ false) × (count line old ≡ 1) × (count line new ≡ 1)
unique_lem old new line h = three_tests (is_empty (strip line)) (count line old) (count line new) h

module _ (old new : List Text) where
  keep_line-AllLocated :
      (a b : ℕ) (line : Text) (m : Mapping)
      → get_elem? old a ≡ some line
      → get_elem? new b ≡ some line
      → AllLocated old new m
      → AllLocated old new (keep_line old new a b line m)
  keep_line-AllLocated a b line m p q g =
      choose {A = Mapping} (AllLocated old new) (is_unique old new line) _ _
        (λ e.
          let (t, c, d) = unique_lem old new line e in
          (
            record { line = line; at_old = p; at_new = q; is_text = t; once_old = c; once_new = d },
            g,
          ))
        (λ e. g)

  map_block-Done :
      (a b k : ℕ) (m : Mapping)
      → Matches old new a b k
      → AllLocated old new m
      → Done old new (map_block old new a b k m)
  unfolding map_block
  map_block-Done a b zero m h g = g
  map_block-Done a b (suc k) m ((line, p, q), h) g =
      subst
        (λ o.
          Done old new
            (and_then o (λ l. map_block old new (suc a) (suc b) k (keep_line old new a b l m))))
        (sym p) (map_block-Done (suc a) (suc b) k _ h (keep_line-AllLocated a b line m p q g))

  and_then-Done :
      (o : Option Mapping) (f : Mapping → Option Mapping)
      → Done old new o
      → ((m : Mapping) → AllLocated old new m → Done old new (f m))
      → Done old new (and_then o f)
  and_then-Done none f h k = h
  and_then-Done (some m) f h k = k m h

  pub map_blocks-Done :
      (ks : List Block) (m : Mapping)
      → AllMatch old new ks
      → AllLocated old new m
      → Done old new (map_blocks old new ks m)
  unfolding map_blocks
  map_blocks-Done [] m h g = g
  map_blocks-Done (k ∷ ks) m (h, hs) g =
      and_then-Done (map_block old new k.a k.b k.size m) (map_blocks old new ks)
        (map_block-Done k.a k.b k.size m h g) (λ m' g'. map_blocks-Done ks m' hs g')

  pub recorded-Located :
      (n o : ℕ) (m : Mapping) → AllLocated old new m → recorded n m ≡ some o → Located old new n o
  recorded-Located n o [] g = λ h. absurd (none_is_some o h)
  recorded-Located n o ((k, p) ∷ m) (l, g) =
      choose {A = Option ℕ} (λ r. r ≡ some o → Located old new n o) (n == k) _ _
        (λ e h.
          subst (λ i. Located old new i o) (sym ((==_iff n k).0 e))
            (subst (λ i. Located old new k i) (some_injective h) l))
        (λ e h. recorded-Located n o m g h)
