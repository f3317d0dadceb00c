-- ===== src/Waves/Store/Window.antt =====
-- chipchamp/waves/store.py: the slices of a snapshot hold what a scan of all changes selects.
use chipchamp.Prelude.{
  ℕ, zero, suc, ◌+◌, ◌-◌, ◌≤◌, ◌≡◌, refl, ap, true, false, ◌&&◌, none, List, [], ◌∷◌, sym, ◌∙◌, leb,
  ltb, min, length, take, drop, arith,
}
use chipchamp.Waves.Vcd.{Change}
use chipchamp.Waves.Bisect.{bisect_right, bisect_left}
use chipchamp.Waves.Bisect.Splits.{Ascending, Splits, bisect_right-Splits, bisect_left-Splits}
use chipchamp.Waves.Store.{times, within, slice}
use chipchamp.Waves.Store.Held.{held, value_in-held, value_before-held}

take_nil {ℓ} : {A : Type ℓ} (m : ℕ) → take {A = A} m [] ≡ []
take_nil zero = refl
take_nil (suc m) = refl

take-take {ℓ} :
    {A : Type ℓ} (k n m : ℕ) (xs : List A) → k ≡ min n m → take k xs ≡ take m (take n xs)
take-take zero zero m xs h = sym (take_nil m)
take-take zero (suc n) zero xs h = refl
take-take zero (suc n) (suc m) xs h = absurd (omega arith)
take-take (suc k) zero m xs h = absurd (omega arith)
take-take (suc k) (suc n) zero xs h = absurd (omega arith)
take-take (suc k) (suc n) (suc m) [] h = refl
take-take (suc k) (suc n) (suc m) (x ∷ xs) h = ap (λ r. x ∷ r) (take-take k n m xs (omega arith))

-- what the binary searches cut out is what the scan keeps
record Cut (t0 t1 : ℕ) (ch : List Change) (lo hi : ℕ) : Type 0 where
  count : ℕ
  reaches : hi ≡ lo + count
  same : within t0 t1 ch ≡ take count (drop lo ch)
  counted : length (within t0 t1 ch) ≡ count

kept : (t0 t1 t : ℕ) → ltb t t0 ≡ false → leb t t1 ≡ true → leb t0 t && leb t t1 ≡ true
kept t0 t1 t a b = ground arith

early : (t0 t1 t : ℕ) → ltb t t0 ≡ true → leb t0 t && leb t t1 ≡ false
early t0 t1 t a = ground arith

late : (t0 t1 t : ℕ) → leb t t1 ≡ false → leb t0 t && leb t t1 ≡ false
late t0 t1 t b = ground arith

apart : (t0 t1 t : ℕ) → t0 ≤ t1 → ltb t t0 ≡ true → leb t t1 ≡ false → ⊥
apart t0 t1 t le a b = ground arith

cut :
    (t0 t1 : ℕ) (ch : List Change) (lo hi : ℕ)
    → t0 ≤ t1
    → Splits (λ s. ltb s t0) (times ch) lo
    → Splits (λ s. leb s t1) (times ch) hi
    → Cut t0 t1 ch lo hi
unfolding within
cut t0 t1 [] lo hi le a b =
    rw (a, b) (record { count = 0; reaches = omega arith; same = refl; counted = refl })
cut t0 t1 ((t, v) ∷ ch) zero zero le a b =
    let c = cut t0 t1 ch 0 0 le a.1 b.1 in
    let z : c.count ≡ 0 = omega (arith, c.reaches) in
    record {
      count = 0;
      reaches = refl;
      same = rw (late t0 t1 t b.0) (c.same ∙ ap (λ n. take n ch) z);
      counted = rw (late t0 t1 t b.0) (c.counted ∙ z);
    }
cut t0 t1 ((t, v) ∷ ch) zero (suc hi) le a b =
    let c = cut t0 t1 ch 0 hi le a.1 b.1 in
    record {
      count = suc c.count;
      reaches = omega (arith, c.reaches);
      same = rw (kept t0 t1 t a.0 b.0) (ap (λ r. (t, v) ∷ r) c.same);
      counted = rw (kept t0 t1 t a.0 b.0) (ap suc c.counted);
    }
cut t0 t1 ((t, v) ∷ ch) (suc lo) zero le a b = absurd (apart t0 t1 t le a.0 b.0)
cut t0 t1 ((t, v) ∷ ch) (suc lo) (suc hi) le a b =
    let c = cut t0 t1 ch lo hi le a.1 b.1 in
    record {
      count = c.count;
      reaches = omega (arith, c.reaches);
      same = rw (early t0 t1 t a.0) c.same;
      counted = rw (early t0 t1 t a.0) c.counted;
    }

-- For changes in ascending order of time and a window that is not empty, a snapshot's slice has the
-- first `max_edges` of the changes that a scan finds within the window, the number of all of them
-- and of those left out; the value before its start is that of the last earlier change, and the
-- value at its start that of the last change up to it.
pub slice-within :
    (ch : List Change) (t0 t1 max_edges : ℕ)
    → Ascending (times ch)
    → t0 ≤ t1
    → let s = slice ch t0 t1 max_edges in
      (s.edges ≡ take max_edges (within t0 t1 ch))
      × (s.edge_count ≡ length (within t0 t1 ch))
      × (s.omitted_edges ≡ length (within t0 t1 ch) - max_edges)
      × (s.value_before_start ≡ held (λ u. ltb u t0) none ch)
      × (s.value_at_start ≡ held (λ u. leb u t0) none ch)
unfolding slice
slice-within ch t0 t1 max_edges h le =
    let lo = bisect_left (times ch) t0 in
    let hi = bisect_right (times ch) t1 in
    let c =
      cut t0 t1 ch lo hi le (bisect_left-Splits (times ch) t0 h)
        (bisect_right-Splits (times ch) t1 h) in
    (
      take-take (min hi (lo + max_edges) - lo) c.count max_edges (drop lo ch)
            (omega (arith, c.reaches))
          ∙ ap (take max_edges) (sym c.same),
      omega (arith, c.reaches, c.counted),
      omega (arith, c.reaches, c.counted),
      value_before-held ch t0 h,
      value_in-held ch t0 h,
    )
