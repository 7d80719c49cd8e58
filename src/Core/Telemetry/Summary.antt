-- ===== src/Core/Telemetry/Summary.antt =====
-- `TelemetryCollector.get_http_summary` of apps/api/app/core/telemetry.py. Floating-point numbers
-- are parameters: durations and ratios stand in units of the last place that they are rounded to.
pub mod Bounded
use hamicloud.Prelude.{
  max, ◌-◌, zero, min, [], ◌==◌, suc, if◌then◌else◌, ltb, ◌∷◌, length, ◌+◌, order_by, List, ℕ,
}
use hamicloud.Core.Telemetry.{TelemetryCollector, requests_total}

-- Python's arithmetic on floats: `int(round((p / 100.0) * m))`, `round(ms, 3)` of a sample, and
-- `round(a / b, places)` in units of the last place.
pub record Rounding : Type 0 where
  pub index : ℕ → ℕ → ℕ
  pub milliseconds : ℕ → ℕ
  pub ratio : ℕ → ℕ → ℕ → ℕ

pub record HttpSummary : Type 0 where
  pub requests_total : ℕ
  pub status_2xx : ℕ
  pub status_4xx : ℕ
  pub status_5xx : ℕ
  pub error_rate_5xx : ℕ
  pub latency_p50_ms : ℕ
  pub latency_p95_ms : ℕ
  pub latency_p99_ms : ℕ

-- `sorted`
unfoldable pub sorted : List ℕ → List ℕ
unfolding order_by
sorted = order_by ltb

-- `samples[idx]`, at an index within the list.
abbrev pub sample_at : List ℕ → ℕ → ℕ
sample_at [] i = 0
sample_at (x ∷ xs) zero = x
sample_at (x ∷ xs) (suc i) = sample_at xs i

-- `_pct`
unfoldable pub percentile : Rounding → List ℕ → ℕ → ℕ
percentile f samples p =
    let n = length samples in
    if n == 0
    then 0
    else f.milliseconds (sample_at samples (min (n - 1) (max 0 (f.index p (n - 1)))))

unfoldable pub rate_or_zero : Rounding → ℕ → ℕ → ℕ → ℕ
rate_or_zero f places part total = if ltb 0 total then f.ratio places part total else 0

unfoldable pub get_http_summary : Rounding → TelemetryCollector → HttpSummary
unfolding sorted percentile rate_or_zero
get_http_summary f c =
    let samples = sorted c.durations in
    let total = c.status_2xx + (c.status_3xx + (c.status_4xx + c.status_5xx)) in
    record {
      requests_total = total;
      status_2xx = c.status_2xx;
      status_4xx = c.status_4xx;
      status_5xx = c.status_5xx;
      error_rate_5xx = rate_or_zero f 6 c.status_5xx total;
      latency_p50_ms = percentile f samples 50;
      latency_p95_ms = percentile f samples 95;
      latency_p99_ms = percentile f samples 99;
    }
