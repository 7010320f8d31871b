-- ===== src/Observability.antt =====
-- internal/observability/metrics.go: the metrics that are registered, and the calls that record a
-- value. The client library of Prometheus is not modelled: a call is kept as what it is given.
pub mod Emit
pub mod Branches
pub mod Labels
pub mod Counts
pub mod Accounts
pub mod Served
pub mod Totals
pub mod Decisions
use open_flare.Prelude.{ℕ, List, [], ◌∷◌}
use open_flare.Text.{Bytes, codes}

-- A histogram has the default buckets of the library.
pub data Kind : Type 0 where
  counter : Kind
  gauge : Kind
  histogram : Kind

-- The options that a metric is registered with.
pub record Metric : Type 0 where
  pub kind : Kind
  pub name : Bytes
  pub help : Bytes
  pub labels : List Bytes

pub record Metrics : Type 0 where
  pub requests_total : Metric
  pub request_duration : Metric
  pub cache_operations : Metric
  pub cache_size_bytes : Metric
  pub cache_entries : Metric
  pub waf_decisions : Metric
  pub rate_limit_total : Metric
  pub upstream_errors : Metric
  pub upstream_duration : Metric

-- `NewMetrics`.
unfoldable pub new_metrics : Metrics
new_metrics = record {
  requests_total = record {
    kind = counter;
    name = codes "openflare_requests_total";
    help = codes "Total number of HTTP requests processed";
    labels = codes "method" ∷ codes "status" ∷ codes "route" ∷ [];
  };
  request_duration = record {
    kind = histogram;
    name = codes "openflare_request_duration_seconds";
    help = codes "Request processing duration in seconds";
    labels = codes "method" ∷ codes "route" ∷ [];
  };
  cache_operations = record {
    kind = counter;
    name = codes "openflare_cache_operations_total";
    help = codes "Total cache operations by type";
    labels = codes "operation" ∷ [];
  };
  cache_size_bytes = record {
    kind = gauge;
    name = codes "openflare_cache_size_bytes";
    help = codes "Current cache size in bytes";
    labels = [];
  };
  cache_entries = record {
    kind = gauge;
    name = codes "openflare_cache_entries";
    help = codes "Current number of cache entries";
    labels = [];
  };
  waf_decisions = record {
    kind = counter;
    name = codes "openflare_waf_decisions_total";
    help = codes "Total WAF decisions by rule and action";
    labels = codes "rule_id" ∷ codes "action" ∷ [];
  };
  rate_limit_total = record {
    kind = counter;
    name = codes "openflare_ratelimit_total";
    help = codes "Total rate limit decisions";
    labels = codes "rule_id" ∷ codes "decision" ∷ [];
  };
  upstream_errors = record {
    kind = counter;
    name = codes "openflare_upstream_errors_total";
    help = codes "Total upstream errors";
    labels = codes "upstream" ∷ codes "error_type" ∷ [];
  };
  upstream_duration = record {
    kind = histogram;
    name = codes "openflare_upstream_duration_seconds";
    help = codes "Upstream request duration in seconds";
    labels = codes "upstream" ∷ [];
  };
}

-- `WithLabelValues` and `Inc`, `WithLabelValues` and `Observe`, whose duration is left out, and `Set`.
pub data Call : Type 0 where
  inc : Metric → List Bytes → Call
  observe : Metric → List Bytes → Call
  set_gauge : Metric → ℕ → Call
