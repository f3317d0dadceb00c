-- ===== src/Coverage/Model/Merged.antt =====
-- chipchamp/coverage/model.py: what a merge makes of the counts.
use chipchamp.Prelude.{
  ℕ, ◌+◌, ◌≡◌, refl, ◌∙◌, ap, Option, none, some, [], ◌∷◌, arith, Bool-cases, inl, inr,
  if◌then◌else◌,
}
use chipchamp.Text.{Text, text_eq, text_eq_sound}
use chipchamp.Dict.{Dict, get}
use chipchamp.Dict.Laws.{get-put}
use chipchamp.Coverage.Model.{Bin, CoverageModel, grown, add_count, merge_bins, merge}

abbrev count_in : Option Bin → ℕ
count_in none = 0
count_in (some b) = b.count

-- how often a bin was hit; 0 if there is none
pub count_of : Text → Dict Bin → ℕ
count_of i d = count_in (get i d)

grown-count : (b : Bin) (o : Option Bin) → (grown b o).count ≡ count_in o + b.count
grown-count b none = omega arith
grown-count b (some old) = refl

-- the counts of a dictionary of bins, added up over its entries
pub sum_of : Text → Dict Bin → ℕ
sum_of i [] = 0
sum_of i ((k, b) ∷ d) = (if text_eq b.id i then b.count else 0) + sum_of i d

count_of-add_count :
    (i : Text) (b : Bin) (d : Dict Bin)
    → count_of i (add_count b d) ≡ count_of i d + (if text_eq b.id i then b.count else 0)
unfolding count_of add_count
count_of-add_count i b d =
    ap count_in (get-put i b.id (grown b (get b.id d)) d) ∙ elim (Bool-cases (text_eq b.id i)) [
      | inl e ↦ rw e (
          grown-count b (get b.id d)
          ∙ ap (λ k. count_in (get k d) + b.count) (text_eq_sound b.id i e))
      | inr e ↦ rw e (omega arith)
    ]

count_of-merge_bins :
    (i : Text) (d more : Dict Bin) → count_of i (merge_bins d more) ≡ count_of i d + sum_of i more
unfolding merge_bins sum_of
count_of-merge_bins i d [] = omega arith
count_of-merge_bins i d ((k, b) ∷ more) =
    count_of-merge_bins i (add_count b d) more
    ∙ ap (λ n. n + sum_of i more) (count_of-add_count i b d)
    ∙ omega arith

-- Merging adds the counts: the merged model counts each bin as often as the model did and the
-- bins of the other model under its id did together.
pub count_of-merge :
    (i : Text) (m other : CoverageModel)
    → count_of i (merge m other).bins ≡ count_of i m.bins + sum_of i other.bins
unfolding merge
count_of-merge i m other = count_of-merge_bins i m.bins other.bins
