-- ===== src/Metrics/Histogram.antt =====
-- The histogram's buckets account for every observation.
use streamline_operator.Base.{
  ℕ, ◌+◌, ◌%◌, ◌^◌, ◌<◌, ◌≡◌, refl, List, [], ◌∷◌, arith, length, leb, Bool-cases, inl, inr, ◌∙◌,
}
use streamline_operator.Metrics.{
  DurationHistogram, duration_buckets_ms, new_histogram, bump_last, bump_bucket, observe,
}

abbrev pub total : List ℕ → ℕ
total [] = 0
total (n ∷ ns) = n + total ns

-- The buckets fit the boundaries, and count modulo 2 ^ 64 what was observed.
pub record IsConsistent (h : DurationHistogram) : Type 0 where
  pub fits : length h.buckets ≡ length duration_buckets_ms + 1
  pub counted : total h.buckets % 2 ^ 64 ≡ h.count

length-bump_last : (ns : List ℕ) → length (bump_last ns) ≡ length ns
length-bump_last [] = refl
length-bump_last (n ∷ []) = refl
length-bump_last (n ∷ (m ∷ ms)) = omega (arith, length-bump_last (m ∷ ms))

total-bump_last :
    (ns : List ℕ) → 0 < length ns → total (bump_last ns) % 2 ^ 64 ≡ (total ns + 1) % 2 ^ 64
total-bump_last [] h = elim h [ ]
total-bump_last (n ∷ []) h = omega arith
total-bump_last (n ∷ (m ∷ ms)) h = omega (arith, total-bump_last (m ∷ ms) (omega arith))

pub length-bump_bucket : (bs ns : List ℕ) (v : ℕ) → length (bump_bucket bs ns v) ≡ length ns
unfolding bump_bucket
length-bump_bucket [] ns v = length-bump_last ns
length-bump_bucket (b ∷ bs) [] v = refl
length-bump_bucket (b ∷ bs) (n ∷ ns) v = ground (arith, length-bump_bucket bs ns v)

total-bump_bucket :
    (bs ns : List ℕ) (v : ℕ)
    → length bs < length ns
    → total (bump_bucket bs ns v) % 2 ^ 64 ≡ (total ns + 1) % 2 ^ 64
unfolding bump_bucket
total-bump_bucket [] ns v h = total-bump_last ns h
total-bump_bucket (b ∷ bs) [] v h = elim h [ ]
total-bump_bucket (b ∷ bs) (n ∷ ns) v h = elim (Bool-cases (leb v b)) [
  | inl e ↦ rw e (omega arith)
  | inr e ↦ rw e (omega (arith, total-bump_bucket bs ns v (omega arith)))
]

pub new_histogram-IsConsistent : IsConsistent new_histogram
unfolding new_histogram
new_histogram-IsConsistent = record { fits = refl; counted = refl }

-- Every observation goes into exactly one bucket: if the buckets fit the boundaries and add up
-- (modulo 2 ^ 64) to the count, they do so after an observation of any value.
pub observe-IsConsistent :
    (h : DurationHistogram) (v : ℕ) → IsConsistent h → IsConsistent (observe h v)
unfolding observe
observe-IsConsistent h v c = record {
  fits = length-bump_bucket duration_buckets_ms h.buckets v ∙ c.fits;
  counted =
      omega (
        arith,
        c.counted,
        total-bump_bucket duration_buckets_ms h.buckets v (omega (arith, c.fits)),
      );
}
