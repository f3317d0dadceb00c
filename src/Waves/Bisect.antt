-- ===== src/Waves/Bisect.antt =====
-- Python's `bisect`: the binary search in the times of a signal's changes.
pub mod Splits
use chipchamp.Prelude.{
  ℕ, zero, suc, ◌+◌, ◌/◌, Bool, true, false, List, [], ◌∷◌, leb, ltb, length, get_or, if◌then◌else◌,
}

-- The loop, on `lo` and `hi`; `before` says whether an element stands before the place that is
-- looked for. Each round shortens what is left, so the length is fuel enough.
unfoldable pub search : (ℕ → Bool) → List ℕ → ℕ → ℕ → ℕ → ℕ
search before a zero lo hi = lo
search before a (suc f) lo hi =
    let mid = (lo + hi) / 2 in
    let here = before (get_or a mid 0) in
    let rest = search before a f (if here then suc mid else lo) (if here then hi else mid) in
    if ltb lo hi then rest else lo

unfoldable pub bisect_right : List ℕ → ℕ → ℕ
unfolding search
bisect_right a x = search (λ y. leb y x) a (length a) 0 (length a)

pub bisect_left : List ℕ → ℕ → ℕ
unfolding search
bisect_left a x = search (λ y. ltb y x) a (length a) 0 (length a)
