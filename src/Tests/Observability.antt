-- ===== src/Tests/Observability.antt =====
-- Instances of the theorems on the metrics.
use open_flare.Prelude.{◌*◌, ◌≡◌, refl, List, [], ◌∷◌, some, map, filter}
use open_flare.Waf.{evaluate, extract_ip}
use open_flare.Waf.Log.{evaluate_rules_log}
use open_flare.Observability.Decisions.{
  verdict, found, count_match, log_match, logs_match, evaluate-found,
}
use open_flare.Tests.Waf.{shadow_engine}
use open_flare.Prelude.Int.{pos}
use open_flare.Text.{codes}
use open_flare.Cache.Backend.{new_memory_backend}
use open_flare.Proxy.Handler.{Handler}
use open_flare.App.Serving.{Arrival}
use open_flare.Observability.{Call, new_metrics}
use open_flare.Observability.Emit.{evaluate_calls}
use open_flare.Observability.Counts.{counted}
use open_flare.Observability.Totals.{record_all, record_all-IsAccounted}
use open_flare.Tests.Samples.{plain_regexp, plain_net, counting}
use open_flare.Tests.Proxy.{handler, origin, request}

abbrev arrivals : List Arrival
arrivals =
    record { origin = origin; now = 20; request_id = codes "id"; request = request }
    ∷ record { origin = origin; now = 21; request_id = codes "id"; request = request }
    ∷ []

abbrev fresh : Handler plain_regexp plain_net counting
fresh = record handler { cache_backend = new_memory_backend (pos 2) (pos 100) }

record_all-IsAccounted_example :
    (calls : List Call) × (h : Handler plain_regexp plain_net counting) × (record_all plain_regexp
        plain_net counting
        (λ s. s)
        arrivals
        fresh
      ≡ some (calls, h))
    × (h.cache_backend.hits ≡ counted (codes "hit") calls)
    × (h.cache_backend.misses ≡ 2 * counted (codes "miss") calls)
    × (h.cache_backend.bypasses ≡ counted (codes "bypass") calls)
    × (h.cache_backend.stores ≡ counted (codes "store") calls)
record_all-IsAccounted_example =
    record_all-IsAccounted plain_regexp plain_net counting (λ s. s) (pos 2) (pos 100) refl arrivals
      fresh refl

evaluate-found_example :
    (evaluate plain_regexp plain_net shadow_engine request (codes "abcd")
      ≡ verdict shadow_engine.mode
          (found plain_regexp plain_net shadow_engine request (codes "abcd")))
    × (evaluate_calls new_metrics plain_regexp plain_net counting
          (some shadow_engine)
          request
          (codes "abcd")
        ≡ map
            (count_match new_metrics)
            (found plain_regexp plain_net shadow_engine request (codes "abcd")))
    × (evaluate_rules_log plain_regexp plain_net shadow_engine.mode shadow_engine.max_body_inspect
          shadow_engine.rules request
          (codes "abcd")
          (extract_ip plain_regexp plain_net request.remote_addr)
        ≡ map
            (log_match request)
            (filter logs_match (found plain_regexp plain_net shadow_engine request (codes "abcd"))))
evaluate-found_example =
    evaluate-found plain_regexp plain_net shadow_engine request (codes "abcd") new_metrics counting
