-- ===== src/Observability/Labels.antt =====
-- internal/observability/metrics.go: each metric is recorded with the labels it is registered with.
use open_flare.Prelude.{◌≡◌, List, [], All, length}
use open_flare.Cache.Policy.{Policy}
use open_flare.Proxy.Handler.{Handler}
use open_flare.Observability.{counter, gauge, histogram, Call, inc, observe, set_gauge}

-- The call is one for the kind of its metric, with one value for each label.
abbrev pub IsLabelled : Call → Type 0
IsLabelled (inc m values) = (m.kind ≡ counter) × (length values ≡ length m.labels)
IsLabelled (observe m values) = (m.kind ≡ histogram) × (length values ≡ length m.labels)
IsLabelled (set_gauge m n) = (m.kind ≡ gauge) × (m.labels ≡ [])

abbrev pub AreLabelled : List Call → Type 0
AreLabelled = All IsLabelled
