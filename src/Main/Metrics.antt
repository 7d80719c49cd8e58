-- ===== src/Main/Metrics.antt =====
-- `prometheus_metrics` of apps/api/app/main.py, and what a scraper reads in its answer.
use hamicloud.Models.Db.{Db}
use hamicloud.Models.Tenancy.{Time}
use hamicloud.Core.Telemetry.Exposition.Lines.{split_lines-join_lines, split_lines, IsLine}
use hamicloud.Core.Telemetry.Summary.{rate_or_zero, HttpSummary, Rounding, get_http_summary}
use hamicloud.Core.Telemetry.Exposition.Scraped.{gauge-Reads, metric-Reads, Reads, scraped}
use hamicloud.Core.Telemetry.Exposition.{
  database_lines, request_lines, render_prometheus, Printing, metric,
}
use hamicloud.Core.Telemetry.{Metrics, TelemetryCollector, collect_metrics}
use hamicloud.Prelude.{refl, ◌∙◌, [], ap, none, ◌∷◌, ◌≡◌, String, List, ℕ, any_char}

-- The text of the answer: the counters, and the gauges of every workspace.
unfoldable pub prometheus_metrics : Printing → Rounding → Time → TelemetryCollector → Db → String
unfolding collect_metrics get_http_summary render_prometheus
prometheus_metrics f r now c d =
    render_prometheus f r (get_http_summary r c) (collect_metrics now none d)

-- The texts of numbers, which hold no line break.
pub record OneLine (f : Printing) : Type 0 where
  pub count_line : (n : ℕ) → IsLine (f.count_text n)
  pub milliseconds_line : (n : ℕ) → IsLine (f.milliseconds_text n)
  pub seconds_line : (t : Time) → IsLine (f.seconds_text t)
  pub ratio_line : (n : ℕ) → IsLine (f.ratio_text n)

-- The series that a platform's numbers are to have.
abbrev pub readings : Printing → Rounding → HttpSummary → Metrics → List (String × String)
readings f r s m =
    ("hamicloud_http_requests_total{status_class=\"2xx\"}", f.count_text s.status_2xx)
    ∷ ("hamicloud_http_requests_total{status_class=\"4xx\"}", f.count_text s.status_4xx)
    ∷ ("hamicloud_http_requests_total{status_class=\"5xx\"}", f.count_text s.status_5xx)
    ∷ ("hamicloud_http_request_duration_ms_p50", f.milliseconds_text s.latency_p50_ms)
    ∷ ("hamicloud_http_request_duration_ms_p95", f.milliseconds_text s.latency_p95_ms)
    ∷ ("hamicloud_http_request_duration_ms_p99", f.milliseconds_text s.latency_p99_ms)
    ∷ ("hamicloud_outbox_pending_total", f.count_text m.outbox_pending_total)
    ∷ ("hamicloud_active_leases_total", f.count_text m.active_leases_total)
    ∷ ("hamicloud_queued_jobs_total", f.count_text m.queued_jobs_total)
    ∷ ("hamicloud_oldest_queued_job_age_seconds", f.seconds_text m.oldest_queued_job_age)
    ∷ ("hamicloud_running_jobs_total", f.count_text m.running_jobs_total)
    ∷ ("hamicloud_healthy_services_total", f.count_text m.healthy_services_total)
    ∷ (
      "hamicloud_job_retry_ratio",
      f.ratio_text (rate_or_zero r 4 m.retry_attempts_total m.attempts_total),
    )
    ∷ ("hamicloud_dead_letter_total", f.count_text m.dead_letter_total)
    ∷ []

lines-Reads :
    (f : Printing) (r : Rounding) (s : HttpSummary) (m : Metrics)
    → OneLine f
    → Reads (request_lines f s (database_lines f r m)) (readings f r s m)
unfolding any_char scraped
lines-Reads f r s m law =
    metric-Reads _ _ _ _ _ _ refl refl refl
      (
        ((refl, refl, refl), law.count_line s.status_2xx),
        (
          ((refl, refl, refl), law.count_line s.status_4xx),
          (((refl, refl, refl), law.count_line s.status_5xx), tt),
        ),
      )
      (gauge-Reads _ _ _ _ _ (refl, refl, refl) refl (law.milliseconds_line s.latency_p50_ms)
        (gauge-Reads _ _ _ _ _ (refl, refl, refl) refl (law.milliseconds_line s.latency_p95_ms)
          (gauge-Reads _ _ _ _ _ (refl, refl, refl) refl (law.milliseconds_line s.latency_p99_ms)
            (gauge-Reads _ _ _ _ _ (refl, refl, refl) refl (law.count_line m.outbox_pending_total)
              (gauge-Reads _ _ _ _ _ (refl, refl, refl) refl (law.count_line m.active_leases_total)
                (gauge-Reads _ _ _ _ _ (refl, refl, refl) refl (law.count_line m.queued_jobs_total)
                  (gauge-Reads _ _ _ _ _ (refl, refl, refl) refl
                    (law.seconds_line m.oldest_queued_job_age)
                    (gauge-Reads _ _ _ _ _ (refl, refl, refl) refl
                      (law.count_line m.running_jobs_total)
                      (gauge-Reads _ _ _ _ _ (refl, refl, refl) refl
                        (law.count_line m.healthy_services_total)
                        (gauge-Reads _ _ _ _ _ (refl, refl, refl) refl
                          (law.ratio_line
                            (rate_or_zero r 4 m.retry_attempts_total m.attempts_total))
                          (gauge-Reads _ _ _ _ _ (refl, refl, refl) refl
                            (law.count_line m.dead_letter_total) ((refl, tt), refl))))))))))))

-- Where the texts of numbers hold no line break, a scraper that splits the answer of `/metrics` into
-- lines, leaves out comments and empty lines, and cuts each other line at its first space reads
-- fourteen series: each has the text of the number that its name tells, of the summary of the
-- requests or of the gauges of all workspaces.
pub metrics_scraped :
    (f : Printing) (r : Rounding) (now : Time) (c : TelemetryCollector) (d : Db)
    → OneLine f
    → scraped (split_lines (prometheus_metrics f r now c d))
      ≡ readings f r (get_http_summary r c) (collect_metrics now none d)
unfolding prometheus_metrics metric
metrics_scraped f r now c d law =
    let (plain, same) = lines-Reads f r (get_http_summary r c) (collect_metrics now none d) law in
    ap scraped (split_lines-join_lines _ _ plain) ∙ same
