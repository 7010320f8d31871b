-- ===== src/Observability/Decisions.antt =====
-- internal/waf/engine.go: the decision on a request, what is logged of it and what is counted.
use open_flare.Prelude.{
  ℕ, ◌≡◌, refl, ap, Bool, List, [], ◌∷◌, map, filter, Option, none, some, inl, inr, if◌then◌else◌,
  Option-cases, Bool-cases,
}
use open_flare.Text.{Bytes}
use open_flare.Http.{Request}
use open_flare.Config.{WafRule}
use open_flare.Regexp.{RegexpEngine}
use open_flare.Net.{NetPackage}
use open_flare.RateLimit.{TokenBucket}
use open_flare.Waf.{
  Decision, Engine, CompiledRule, decide, match_conditions, evaluate, evaluate_rules, extract_ip,
  allow,
}
use open_flare.Waf.Log.{LogEntry, log_decision, matched_decision, evaluate_rules_log}
use open_flare.Observability.{Metrics, Call, inc}
use open_flare.Observability.Emit.{evaluate_calls, evaluate_rules_calls}

-- A rule that matches, with the detail of the match.
abbrev pub Match : Type 0
Match = WafRule × Bytes

-- The decision of some matches: that of the first whose action is of a known kind.
unfoldable pub verdict : Bytes → List Match → Decision
verdict mode [] = allow
verdict mode ((rule, detail) ∷ found) = elim (decide mode rule detail) [
  | none ↦ verdict mode found
  | some d ↦ d
]

abbrev pub logs_match : Match → Bool
logs_match x = x.0.action.log

abbrev pub log_match : Request → Match → LogEntry
log_match r x = log_decision r (matched_decision x.0 x.1)

abbrev pub count_match : Metrics → Match → Call
count_match ms x = inc ms.waf_decisions (x.0.id ∷ x.0.action.kind ∷ [])

module _ (rx : RegexpEngine) (net : NetPackage) (mode : Bytes) (limit : ℕ) (r : Request)
    (body : Bytes) (ip : Option net.Ip) where
  -- The rules that match, up to the first whose action is of a known kind.
  unfoldable pub reached : List (CompiledRule rx net) → List Match
  reached [] = []
  reached (rule ∷ rules) =
      let later = reached rules in
      let m = match_conditions rx net limit rule.conditions r body ip in
      if m.0
      then (rule.config, m.1) ∷ elim (decide mode rule.config m.1) [ none ↦ later | some d ↦ [] ]
      else later

  decision_of_reached :
      (rules : List (CompiledRule rx net))
      → evaluate_rules rx net mode limit rules r body ip ≡ verdict mode (reached rules)
  unfolding evaluate_rules verdict reached
  decision_of_reached [] = refl
  decision_of_reached (rule ∷ rules) =
      let m = match_conditions rx net limit rule.conditions r body ip in
      elim (Bool-cases m.0) [
        | inr p ↦ rw p (decision_of_reached rules)
        | inl p ↦ elim (Option-cases (decide mode rule.config m.1)) [
          | inl q ↦ rw (p, q, verdict, q) (decision_of_reached rules)
          | inr (d, q) ↦ rw (p, q, verdict) refl
        ]
      ]

  log_of_reached :
      (rules : List (CompiledRule rx net))
      → evaluate_rules_log rx net mode limit rules r body ip
        ≡ map (log_match r) (filter logs_match (reached rules))
  unfolding evaluate_rules_log reached filter
  log_of_reached [] = refl
  log_of_reached (rule ∷ rules) =
      let m = match_conditions rx net limit rule.conditions r body ip in
      elim (Bool-cases m.0) [
        | inr p ↦ rw p (log_of_reached rules)
        | inl p ↦ elim (Option-cases (decide mode rule.config m.1)) [
          | inl q ↦ elim (Bool-cases rule.config.action.log) [
            | inl l ↦
                rw (p, q, l) (ap (◌∷◌ (log_match r (rule.config, m.1))) (log_of_reached rules))
            | inr l ↦ rw (p, q, l) (log_of_reached rules)
          ]
          | inr (d, q) ↦ elim (Bool-cases rule.config.action.log) [
            | inl l ↦ rw (p, q, l) refl
            | inr l ↦ rw (p, q, l) refl
          ]
        ]
      ]

  module _ (ms : Metrics) (tb : TokenBucket) where
    calls_of_reached :
        (rules : List (CompiledRule rx net))
        → evaluate_rules_calls ms rx net tb mode limit rules r body ip
          ≡ map (count_match ms) (reached rules)
    unfolding evaluate_rules_calls reached
    calls_of_reached [] = refl
    calls_of_reached (rule ∷ rules) =
        let m = match_conditions rx net limit rule.conditions r body ip in
        elim (Bool-cases m.0) [
          | inr p ↦ rw p (calls_of_reached rules)
          | inl p ↦ elim (Option-cases (decide mode rule.config m.1)) [
            | inl q ↦
                rw (p, q) (ap (◌∷◌ (count_match ms (rule.config, m.1))) (calls_of_reached rules))
            | inr (d, q) ↦ rw (p, q) refl
          ]
        ]

module _ (rx : RegexpEngine) (net : NetPackage) (e : Engine rx net) (r : Request)
    (body : Bytes) where
  -- The matches of `Evaluate`.
  abbrev pub found : List Match
  found = reached rx net e.mode e.max_body_inspect r body (extract_ip rx net r.remote_addr) e.rules

  -- One list of matches explains what `Evaluate` does: the decision is that of the first of them whose
  -- action is of a known kind, each of them is counted with its rule and action, and those whose rule
  -- asks for it are logged, with the action of the rule even where the decision is only to log.
  pub evaluate-found :
      (ms : Metrics) (tb : TokenBucket)
      → (evaluate rx net e r body ≡ verdict e.mode found)
        × (evaluate_calls ms rx net tb (some e) r body ≡ map (count_match ms) found)
        × (evaluate_rules_log rx net e.mode e.max_body_inspect e.rules r body
              (extract_ip rx net r.remote_addr)
            ≡ map (log_match r) (filter logs_match found))
  unfolding evaluate evaluate_calls
  evaluate-found ms tb =
      let ip = extract_ip rx net r.remote_addr in
      (
        decision_of_reached rx net e.mode e.max_body_inspect r body ip e.rules,
        calls_of_reached rx net e.mode e.max_body_inspect r body ip ms tb e.rules,
        log_of_reached rx net e.mode e.max_body_inspect r body ip e.rules,
      )
