-- ===== src/Core/Telemetry/Summary/Bounded.antt =====
-- The bounds of the summary of apps/api/app/core/telemetry.py.
use hamicloud.Prelude.{
  ◌==◌, ◌≡◌, true, false, inr, sym, max, min, subst, zero, ◌+◌, ◌-◌, suc, inl, if◌then◌else◌,
  Bool-cases, arith, ◌^◌, length, ltb, All, ◌≤◌, ◌<◌, order_by, List, ℕ, insert_by, [], ◌∷◌,
}
use hamicloud.Prelude.Counted.{All-map2}
use hamicloud.Core.Telemetry.{TelemetryCollector}
use hamicloud.Core.Telemetry.Summary.{
  Rounding, sorted, sample_at, percentile, rate_or_zero, get_http_summary,
}

-- What the summary relies on: Python's roundings are monotone, and a proper fraction is at most one.
pub record Monotone (f : Rounding) : Type 0 where
  pub index_mono : (p q m : ℕ) → p ≤ q → f.index p m ≤ f.index q m
  pub milliseconds_mono : (a b : ℕ) → a ≤ b → f.milliseconds a ≤ f.milliseconds b
  pub ratio_one : (places a b : ℕ) → a ≤ b → f.ratio places a b ≤ 10 ^ places

abbrev Ascending : List ℕ → Type 0
Ascending [] = Unit {0}
Ascending (x ∷ xs) = All (λ y. x ≤ y) xs × Ascending xs

All-insert : (P : ℕ → Type 0) (x : ℕ) (xs : List ℕ) → P x → All P xs → All P (insert_by ltb x xs)
unfolding insert_by
All-insert P x [] p h = (p, tt)
All-insert P x (y ∷ ys) p (h, hs) =
    elim (ltb x y) as (λ b. All P (if b then x ∷ y ∷ ys else y ∷ insert_by ltb x ys)) [
      | true ↦ (p, (h, hs))
      | false ↦ (h, All-insert P x ys p hs)
    ]

insert-Ascending : (x : ℕ) (xs : List ℕ) → Ascending xs → Ascending (insert_by ltb x xs)
unfolding insert_by
insert-Ascending x [] h = (tt, tt)
insert-Ascending x (y ∷ ys) (h, hs) = elim (Bool-cases (ltb x y)) [
  | inl less ↦
      let below : x ≤ y = ground arith in
      subst (λ b. Ascending (if b then x ∷ y ∷ ys else y ∷ insert_by ltb x ys)) (sym less)
        ((below, All-map2 (λ z. y ≤ z) (λ z. x ≤ z) ys (λ z l. omega arith) h), (h, hs))
  | inr other ↦
      let below : y ≤ x = ground arith in
      subst (λ b. Ascending (if b then x ∷ y ∷ ys else y ∷ insert_by ltb x ys)) (sym other)
        (All-insert (λ z. y ≤ z) x ys below h, insert-Ascending x ys hs)
]

sorted-Ascending : (xs : List ℕ) → Ascending (sorted xs)
unfolding sorted order_by
sorted-Ascending [] = tt
sorted-Ascending (x ∷ xs) = insert-Ascending x (sorted xs) (sorted-Ascending xs)

All-sample_at :
    (P : ℕ → Type 0) (xs : List ℕ) (i : ℕ) → i < length xs → All P xs → P (sample_at xs i)
All-sample_at P [] i l h = absurd (omega arith)
All-sample_at P (x ∷ xs) zero l (h, hs) = h
All-sample_at P (x ∷ xs) (suc i) l (h, hs) = All-sample_at P xs i (omega arith) hs

sample_at_mono :
    (xs : List ℕ) (i j : ℕ) → Ascending xs → i ≤ j → j < length xs → sample_at xs i ≤ sample_at xs j
sample_at_mono [] i j h l b = absurd (omega arith)
sample_at_mono (x ∷ xs) zero zero h l b = omega arith
sample_at_mono (x ∷ xs) zero (suc j) (h, hs) l b = All-sample_at (λ y. x ≤ y) xs j (omega arith) h
sample_at_mono (x ∷ xs) (suc i) zero h l b = absurd (omega arith)
sample_at_mono (x ∷ xs) (suc i) (suc j) (h, hs) l b =
    sample_at_mono xs i j hs (omega arith) (omega arith)

-- The index of a percentile lies in the list.
abbrev index_of : Rounding → List ℕ → ℕ → ℕ
index_of f samples p = min (length samples - 1) (max 0 (f.index p (length samples - 1)))

percentile_lem :
    (f : Rounding) (x : ℕ) (xs : List ℕ) (p : ℕ)
    → percentile f (x ∷ xs) p ≡ f.milliseconds (sample_at (x ∷ xs) (index_of f (x ∷ xs) p))
unfolding percentile
percentile_lem f x xs p = let given : (suc (length xs) == 0) ≡ false = ground arith in rw given

percentile_mono :
    (f : Rounding) (samples : List ℕ) (p q : ℕ)
    → Monotone f
    → Ascending samples
    → p ≤ q
    → percentile f samples p ≤ percentile f samples q
unfolding percentile
percentile_mono f [] p q law h l = omega arith
percentile_mono f (x ∷ xs) p q law h l =
    let indices = law.index_mono p q (length (x ∷ xs) - 1) l in
    let i = index_of f (x ∷ xs) p in
    let j = index_of f (x ∷ xs) q in
    let samples = sample_at_mono (x ∷ xs) i j h (omega arith) (omega arith) in
    rw (percentile_lem f x xs p, percentile_lem f x xs q)
      (law.milliseconds_mono (sample_at (x ∷ xs) i) (sample_at (x ∷ xs) j) samples)

percentile_le :
    (f : Rounding) (samples : List ℕ) (p longest : ℕ)
    → Monotone f
    → All (λ d. d ≤ longest) samples
    → percentile f samples p ≤ f.milliseconds longest
unfolding percentile
percentile_le f [] p longest law h = omega arith
percentile_le f (x ∷ xs) p longest law h =
    let i = index_of f (x ∷ xs) p in
    rw (percentile_lem f x xs p) (
      law.milliseconds_mono (sample_at (x ∷ xs) i) longest
        (All-sample_at (λ d. d ≤ longest) (x ∷ xs) i (omega arith) h))

sorted-All : (P : ℕ → Type 0) (xs : List ℕ) → All P xs → All P (sorted xs)
unfolding sorted order_by
sorted-All P [] h = tt
sorted-All P (x ∷ xs) (h, hs) = All-insert P x (sorted xs) h (sorted-All P xs hs)

rate_le :
    (f : Rounding) (places part total : ℕ)
    → Monotone f
    → part ≤ total
    → rate_or_zero f places part total ≤ 10 ^ places
unfolding rate_or_zero
rate_le f places part total law h = elim (Bool-cases (ltb 0 total)) [
  | inl some_seen ↦ rw some_seen (law.ratio_one places part total h)
  | inr none_seen ↦ rw none_seen (omega arith)
]

-- The percentiles of the summary ascend, and are at most any bound of the recorded durations,
-- rounded; the rate of errors is at most one, and the classes that are shown are together at most
-- the total.
pub summary_bounded :
    (f : Rounding) (c : TelemetryCollector) (longest : ℕ)
    → Monotone f
    → All (λ d. d ≤ longest) c.durations
    → let s = get_http_summary f c in
      (s.latency_p50_ms ≤ s.latency_p95_ms)
      × (s.latency_p95_ms ≤ s.latency_p99_ms)
      × (s.latency_p99_ms ≤ f.milliseconds longest)
      × (s.error_rate_5xx ≤ 10 ^ 6)
      × (s.status_2xx + s.status_4xx + s.status_5xx ≤ s.requests_total)
unfolding get_http_summary
summary_bounded f c longest law bound =
    let samples = sorted c.durations in
    let total = c.status_2xx + (c.status_3xx + (c.status_4xx + c.status_5xx)) in
    let up = sorted-Ascending c.durations in
    (
      percentile_mono f samples 50 95 law up (omega arith),
      percentile_mono f samples 95 99 law up (omega arith),
      percentile_le f samples 99 longest law (sorted-All (λ d. d ≤ longest) c.durations bound),
      rate_le f 6 c.status_5xx total law (omega arith),
      omega arith,
    )
