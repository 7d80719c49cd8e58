-- ===== src/Core/Telemetry/Exposition.antt =====
-- `TelemetryCollector.render_prometheus` of apps/api/app/core/telemetry.py.
use hamicloud.Models.Tenancy.{Time}
use hamicloud.Core.Telemetry.{Metrics}
use hamicloud.Prelude.{[], ◌++◌, ◌+s◌, ◌∷◌, ℕ, String, List}
use hamicloud.Core.Telemetry.Summary.{HttpSummary, Rounding, rate_or_zero}
pub mod Lines
pub mod Scraped

-- Python's `str` of a count, and of a float that is given in units of its last place; the age is
-- given in the clock's unit, and stands in the text in seconds.
pub record Printing : Type 0 where
  pub count_text : ℕ → String
  pub milliseconds_text : ℕ → String
  pub seconds_text : Time → String
  pub ratio_text : ℕ → String

-- `"\n".join(lines)`
unfoldable pub join_lines : List String → String
join_lines [] = ""
join_lines (line ∷ []) = line
join_lines (line ∷ next ∷ lines) = line +s "\n" +s join_lines (next ∷ lines)

-- A metric's lines: its help, its type, and a line for each of its series.
unfoldable pub series_lines : List (String × String) → List String
series_lines [] = []
series_lines ((series, value) ∷ more) = (series +s " " +s value) ∷ series_lines more

unfoldable pub metric :
    String → String → String → List (String × String) → List String → List String
unfolding series_lines
metric name kind about series more =
    ("# HELP " +s name +s " " +s about)
    ∷ ("# TYPE " +s name +s " " +s kind)
    ∷ (series_lines series ++ more)

abbrev pub gauge : String → String → String → List String → List String
gauge name about value more = metric name "gauge" about ((name, value) ∷ []) more

abbrev pub request_lines : Printing → HttpSummary → List String → List String
request_lines f s more =
    metric "hamicloud_http_requests_total" "counter" "Total HTTP requests handled by status class."
      (("hamicloud_http_requests_total{status_class=\"2xx\"}", f.count_text s.status_2xx)
        ∷ ("hamicloud_http_requests_total{status_class=\"4xx\"}", f.count_text s.status_4xx)
        ∷ ("hamicloud_http_requests_total{status_class=\"5xx\"}", f.count_text s.status_5xx)
        ∷ [])
      (gauge "hamicloud_http_request_duration_ms_p50" "HTTP request latency p50 in milliseconds."
        (f.milliseconds_text s.latency_p50_ms)
        (gauge "hamicloud_http_request_duration_ms_p95" "HTTP request latency p95 in milliseconds."
          (f.milliseconds_text s.latency_p95_ms)
          (gauge "hamicloud_http_request_duration_ms_p99"
            "HTTP request latency p99 in milliseconds." (f.milliseconds_text s.latency_p99_ms)
            more)))

abbrev pub database_lines : Printing → Rounding → Metrics → List String
database_lines f r m =
    gauge "hamicloud_outbox_pending_total"
      "Pending transactional outbox events awaiting broker publication."
      (f.count_text m.outbox_pending_total)
      (gauge "hamicloud_active_leases_total" "Active claimed execution intents held by workers."
        (f.count_text m.active_leases_total)
        (gauge "hamicloud_queued_jobs_total"
          "Jobs currently in QUEUED state awaiting scheduler admission."
          (f.count_text m.queued_jobs_total)
          (gauge "hamicloud_oldest_queued_job_age_seconds"
            "Age in seconds of the oldest QUEUED job." (f.seconds_text m.oldest_queued_job_age)
            (gauge "hamicloud_running_jobs_total" "Jobs currently admitted, starting, or running."
              (f.count_text m.running_jobs_total)
              (gauge "hamicloud_healthy_services_total"
                "Healthy serving releases across workspaces."
                (f.count_text m.healthy_services_total)
                (gauge "hamicloud_job_retry_ratio"
                  "Ratio of retried job attempts (attempt > 1) to total attempts."
                  (f.ratio_text (rate_or_zero r 4 m.retry_attempts_total m.attempts_total))
                  (gauge "hamicloud_dead_letter_total" "Dead-lettered job records."
                    (f.count_text m.dead_letter_total) ("" ∷ []))))))))

unfoldable pub render_prometheus : Printing → Rounding → HttpSummary → Metrics → String
unfolding join_lines metric rate_or_zero
render_prometheus f r s m = join_lines (request_lines f s (database_lines f r m))
