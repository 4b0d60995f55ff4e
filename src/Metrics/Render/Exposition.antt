-- ===== src/Metrics/Render/Exposition.antt =====
-- The histogram of `/metrics` is the one of the durations that were observed.
use streamline_operator.Base.{
  ℕ, suc, ◌+◌, ◌≤◌, ◌≡◌, refl, List, [], ◌∷◌, String, map, length, leb, if◌then◌else◌, arith,
  Bool-cases, inl, inr, ap, sym, ◌↔◌, ◌∙◌, true,
}
use streamline_operator.Base.Text.{format, show_ℕ}
use streamline_operator.Metrics.{
  u64, DurationHistogram, duration_buckets_ms, new_histogram, bump_bucket, observe,
}
use streamline_operator.Metrics.Histogram.{total, length-bump_bucket}
use streamline_operator.Metrics.Render.{
  bucket_line, bucket_lines, histogram_header, totals, render_histogram,
}

-- The histogram after the observation of the values, the latest first.
abbrev pub observe_all : List ℕ → DurationHistogram
observe_all [] = new_histogram
observe_all (v ∷ vs) = observe (observe_all vs) v

-- How many of the values are at most the boundary.
abbrev pub count_le : ℕ → List ℕ → ℕ
count_le b [] = 0
count_le b (v ∷ vs) = let rest = count_le b vs in if leb v b then suc rest else rest

-- The lines of the buckets, said of the values: below each boundary stand the values that are at most it,
-- and below infinity all of them.
abbrev pub expected_lines : List ℕ → List ℕ → List String
expected_lines [] vs = bucket_line "+Inf" (u64 (length vs)) ∷ []
expected_lines (b ∷ bs) vs = bucket_line (show_ℕ b) (u64 (count_le b vs)) ∷ expected_lines bs vs

abbrev running : ℕ → List ℕ → List ℕ
running a [] = []
running a (n ∷ ns) = u64 (a + n) ∷ running (u64 (a + n)) ns

abbrev counts : List ℕ → List ℕ → List ℕ
counts [] vs = u64 (length vs) ∷ []
counts (b ∷ bs) vs = u64 (count_le b vs) ∷ counts bs vs

abbrev one_more : ℕ → ℕ
one_more c = u64 (c + 1)

-- One more below each boundary that is not below the value.
abbrev raised : List ℕ → ℕ → List ℕ → List ℕ
raised [] v cs = map one_more cs
raised (b ∷ bs) v [] = []
raised (b ∷ bs) v (c ∷ cs) = (if leb v b then one_more c else c) ∷ raised bs v cs

abbrev AreAbove : ℕ → List ℕ → Type 0
AreAbove v [] = Unit {0}
AreAbove v (b ∷ bs) = (v ≤ b) × AreAbove v bs

abbrev IsAscending : List ℕ → Type 0
IsAscending [] = Unit {0}
IsAscending (b ∷ bs) = AreAbove b bs × IsAscending bs

cons_eq : {x y : ℕ} {xs ys : List ℕ} → x ≡ y → xs ≡ ys → ◌≡◌ {A = List ℕ} (x ∷ xs) (y ∷ ys)
cons_eq p q = cc (p, q)

more_plus : (c n : ℕ) → u64 (one_more c + n) ≡ one_more (u64 (c + n))
more_plus c n = omega arith

plus_more : (a n : ℕ) → u64 (a + one_more n) ≡ one_more (u64 (a + n))
plus_more a n = omega arith

buckets-IsAscending : IsAscending duration_buckets_ms
buckets-IsAscending = ground arith

AreAbove-trans : (v b : ℕ) (bs : List ℕ) → v ≤ b → AreAbove b bs → AreAbove v bs
AreAbove-trans v b [] h above = tt
AreAbove-trans v b (c ∷ cs) h (first, rest) =
    (omega (arith, h, first), AreAbove-trans v b cs h rest)

raised-counts : (bs vs : List ℕ) (v : ℕ) → raised bs v (counts bs vs) ≡ counts bs (v ∷ vs)
raised-counts [] vs v = ap (λ n. n ∷ []) (omega arith)
raised-counts (b ∷ bs) vs v = cons_eq (ground arith) (raised-counts bs vs v)

running_more : (c : ℕ) (ns : List ℕ) → running (one_more c) ns ≡ map one_more (running c ns)
running_more c [] = refl
running_more c (n ∷ ns) =
    let shifted = more_plus c n in cons_eq shifted (rw shifted (running_more (u64 (c + n)) ns))

all_raised :
    (v : ℕ) (bs cs : List ℕ)
    → AreAbove v bs
    → length cs ≡ length bs + 1
    → raised bs v cs ≡ map one_more cs
all_raised v [] cs above fits = refl
all_raised v (b ∷ bs) [] above fits = refl
all_raised v (b ∷ bs) (c ∷ cs) (first, rest) fits =
    cons_eq (ground arith) (all_raised v bs cs rest (omega (arith, fits)))

leb_iff : (m n : ℕ) → (leb m n ≡ true) ↔ (m ≤ n)
leb_iff m n = ground arith

length-running : (a : ℕ) (ns : List ℕ) → length (running a ns) ≡ length ns
length-running a [] = refl
length-running a (n ∷ ns) = omega (arith, length-running (u64 (a + n)) ns)

running-bump_bucket :
    (bs ns : List ℕ) (v a : ℕ)
    → IsAscending bs
    → length ns ≡ length bs + 1
    → running a (bump_bucket bs ns v) ≡ raised bs v (running a ns)
unfolding bump_bucket
running-bump_bucket [] [] v a up fits = refl
running-bump_bucket [] (n ∷ []) v a up fits = cons_eq (plus_more a n) refl
running-bump_bucket [] (n ∷ (m ∷ ms)) v a up fits = ground (arith, fits)
running-bump_bucket (b ∷ bs) [] v a up fits = refl
running-bump_bucket (b ∷ bs) (n ∷ ns) v a (above, up) fits = elim (Bool-cases (leb v b)) [
  | inl below ↦ rw below (
      cons_eq (plus_more a n) (
        ap (λ c. running c ns) (plus_more a n)
        ∙ running_more (u64 (a + n)) ns
        ∙ sym (
            all_raised v bs (running (u64 (a + n)) ns)
              (AreAbove-trans v b bs ((leb_iff v b).0 below) above)
              (omega (arith, fits, length-running (u64 (a + n)) ns)))))
  | inr not_below ↦
      rw not_below
        (cons_eq refl (running-bump_bucket bs ns v (u64 (a + n)) up (omega (arith, fits))))
]

-- The histogram is that of the values.
record IsHistogramOf (vs : List ℕ) (h : DurationHistogram) : Type 0 where
  fits : length h.buckets ≡ length duration_buckets_ms + 1
  counted : running 0 h.buckets ≡ counts duration_buckets_ms vs
  summed : h.sum ≡ u64 (total vs)
  numbered : h.count ≡ u64 (length vs)

observe_all-IsHistogramOf : (vs : List ℕ) → IsHistogramOf vs (observe_all vs)
unfolding observe new_histogram
observe_all-IsHistogramOf [] = record {
  fits = refl;
  counted = refl;
  summed = refl;
  numbered = refl;
}
observe_all-IsHistogramOf (v ∷ vs) =
    let before = observe_all-IsHistogramOf vs in
    let bs = duration_buckets_ms in
    let ns = (observe_all vs).buckets in
    record {
      fits = length-bump_bucket bs ns v ∙ before.fits;
      counted =
          running-bump_bucket bs ns v 0 buckets-IsAscending before.fits
          ∙ ap (raised bs v) before.counted
          ∙ raised-counts bs vs v;
      summed = omega (arith, before.summed);
      numbered = omega (arith, before.numbered);
    }

-- The lines for running sums that are known.
lines_of : List ℕ → List ℕ → List String
lines_of bs [] = []
lines_of [] (c ∷ cs) = bucket_line "+Inf" c ∷ []
lines_of (b ∷ bs) (c ∷ cs) = bucket_line (show_ℕ b) c ∷ lines_of bs cs

bucket_lines-running : (a : ℕ) (bs ns : List ℕ) → bucket_lines a bs ns ≡ lines_of bs (running a ns)
unfolding bucket_lines lines_of
bucket_lines-running a bs [] = refl
bucket_lines-running a [] (n ∷ ns) = refl
bucket_lines-running a (b ∷ bs) (n ∷ ns) =
    ap (λ ls. bucket_line (show_ℕ b) (u64 (a + n)) ∷ ls) (bucket_lines-running (u64 (a + n)) bs ns)

lines_of-counts : (bs vs : List ℕ) → lines_of bs (counts bs vs) ≡ expected_lines bs vs
unfolding lines_of
lines_of-counts [] vs = refl
lines_of-counts (b ∷ bs) vs =
    ap (λ ls. bucket_line (show_ℕ b) (u64 (count_le b vs)) ∷ ls) (lines_of-counts bs vs)

-- What `/metrics` shows of the durations is the histogram of those that were observed: below each
-- boundary the number of values that are at most it, below +Inf and as the count the number of all of
-- them, and their sum, each modulo 2 ^ 64.
pub render_histogram-observe_all :
    (vs : List ℕ)
    → render_histogram (observe_all vs)
      ≡ format (
          histogram_header
          ∷ format (expected_lines duration_buckets_ms vs)
          ∷ totals (u64 (total vs)) (u64 (length vs))
          ∷ [])
unfolding render_histogram
render_histogram-observe_all vs =
    let h = observe_all-IsHistogramOf vs in
    let lines =
      bucket_lines-running 0 duration_buckets_ms (observe_all vs).buckets
      ∙ ap (lines_of duration_buckets_ms) h.counted
      ∙ lines_of-counts duration_buckets_ms vs in
    cc (lines, h.summed, h.numbered)
