-- ===== src/Jobs/Regression/Counts.antt =====
-- chipchamp/jobs/regression.py: the numbers of a regression's result.
use chipchamp.Prelude.{ℕ, ◌+◌, ◌≡◌, refl, ◌∙◌, ap, List, [], ◌∷◌, arith, ltb, Bool-cases, inl, inr}
use chipchamp.Text.{Text, text_eq}
use chipchamp.Jobs.Record.{JobRecord, is_passed}
use chipchamp.Jobs.Regression.{
  Case, FailureCluster, RegressionResult, is_failure, add_failure, insert_cluster, sort_clusters,
  count_case, count_cases, start, length_of, summarize,
}

-- the failures in all clusters
pub clustered : List FailureCluster → ℕ
clustered [] = 0
clustered (cl ∷ cls) = cl.count + clustered cls

clustered-add_failure :
    (sig : Text) (c : Case) (cls : List FailureCluster)
    → clustered (add_failure sig c cls) ≡ clustered cls + 1
unfolding clustered add_failure
clustered-add_failure sig c [] = omega arith
clustered-add_failure sig c (cl ∷ cls) = elim (Bool-cases (text_eq cl.signature sig)) [
  | inl e ↦ rw e (omega arith)
  | inr e ↦ rw e (omega (arith, clustered-add_failure sig c cls))
]

clustered-insert_cluster :
    (cl : FailureCluster) (cls : List FailureCluster)
    → clustered (insert_cluster cl cls) ≡ cl.count + clustered cls
unfolding clustered insert_cluster
clustered-insert_cluster cl [] = refl
clustered-insert_cluster cl (d ∷ ds) = elim (Bool-cases (ltb cl.count d.count)) [
  | inl e ↦ rw e (omega (arith, clustered-insert_cluster cl ds))
  | inr e ↦ rw e refl
]

clustered-sort_clusters :
    (cls : List FailureCluster) → clustered (sort_clusters cls) ≡ clustered cls
unfolding clustered sort_clusters
clustered-sort_clusters [] = refl
clustered-sort_clusters (cl ∷ cls) =
    clustered-insert_cluster cl (sort_clusters cls)
    ∙ ap (λ n. cl.count + n) (clustered-sort_clusters cls)

-- What the loop keeps true, with the number of cases that are still to come.
record Balanced (left : ℕ) (r : RegressionResult) : Type 0 where
  all_counted : r.total ≡ r.passed + r.failed + r.errored + left
  all_clustered : clustered r.clusters ≡ r.failed

count_case-Balanced :
    (signature_of : JobRecord → Text) (r : RegressionResult) (c : Case) (left : ℕ)
    → Balanced (1 + left) r
    → Balanced left (count_case signature_of r c)
unfolding count_case
count_case-Balanced signature_of r c left b = elim (Bool-cases (is_passed c.job.status)) [
  | inl e ↦
      rw e (record { all_counted = omega (arith, b.all_counted); all_clustered = b.all_clustered })
  | inr e ↦ rw e (elim (Bool-cases (is_failure c.job.status)) [
    | inl f ↦ rw f (record {
      all_counted = omega (arith, b.all_counted);
      all_clustered =
          clustered-add_failure (signature_of c.job) c r.clusters ∙ ap (λ n. n + 1) b.all_clustered;
    })
    | inr f ↦
        rw f
          (record { all_counted = omega (arith, b.all_counted); all_clustered = b.all_clustered })
  ])
]

count_cases-Balanced :
    (signature_of : JobRecord → Text) (r : RegressionResult) (cs : List Case)
    → Balanced (length_of cs) r
    → Balanced 0 (count_cases signature_of r cs)
unfolding count_cases
count_cases-Balanced signature_of r [] b = b
count_cases-Balanced signature_of r (c ∷ cs) b =
    count_cases-Balanced signature_of (count_case signature_of r c) cs
      (count_case-Balanced signature_of r c (length_of cs) b)

-- In the result of a regression every job is counted once, as passed, failed or errored, and the
-- counts of the failure clusters add up to the failures, however failures are told apart.
pub summarize-counts :
    (signature_of : JobRecord → Text) (cs : List Case)
    → let r = summarize signature_of cs in
      (r.total ≡ r.passed + r.failed + r.errored) × (clustered r.clusters ≡ r.failed)
unfolding summarize
summarize-counts signature_of cs =
    let b =
      count_cases-Balanced signature_of (start cs) cs
        (record { all_counted = omega arith; all_clustered = unfold clustered in refl }) in
    (omega (arith, b.all_counted), clustered-sort_clusters _ ∙ b.all_clustered)
