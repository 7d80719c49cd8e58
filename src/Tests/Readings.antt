-- ===== src/Tests/Readings.antt =====
-- What a scraper reads of the service, at a small database.
use hamicloud.Core.Telemetry.{collect_metrics}
use hamicloud.Core.Telemetry.Summary.{get_http_summary}
use hamicloud.Tests.Data.{test_db}
use hamicloud.Core.Telemetry.Exposition.Lines.{append-IsLine, split_lines, IsLine}
use hamicloud.Main.Metrics.{metrics_scraped, readings, prometheus_metrics, OneLine}
use hamicloud.Core.Telemetry.Exposition.Scraped.{scraped}
use hamicloud.Prelude.{none, refl, zero, ◌≡◌, ◌+s◌, suc, String, any_char, ℕ}
use hamicloud.Core.Telemetry.Exposition.{Printing}
use hamicloud.Tests.Schema.{seen, whole}

-- Numbers as strokes.
unfoldable strokes : ℕ → String
strokes zero = ""
strokes (suc n) = "I" +s strokes n

strokes-IsLine : (n : ℕ) → IsLine (strokes n)
unfolding strokes any_char
strokes-IsLine zero = refl
strokes-IsLine (suc n) = append-IsLine "I" (strokes n) refl (strokes-IsLine n)

abbrev stroke_text : Printing
stroke_text = record {
  count_text = strokes;
  milliseconds_text = strokes;
  seconds_text = strokes;
  ratio_text = strokes;
}

stroke_text-OneLine : OneLine stroke_text
stroke_text-OneLine = record {
  count_line = strokes-IsLine;
  milliseconds_line = strokes-IsLine;
  seconds_line = strokes-IsLine;
  ratio_line = strokes-IsLine;
}

metrics_scraped_example :
    scraped (split_lines (prometheus_metrics stroke_text whole 9 seen test_db))
    ≡ readings stroke_text whole (get_http_summary whole seen) (collect_metrics 9 none test_db)
metrics_scraped_example = metrics_scraped stroke_text whole 9 seen test_db stroke_text-OneLine
