-- ===== src/Waf/Log.antt =====
-- internal/waf/engine.go: the log of the decisions, and the block response that nothing calls.
use open_flare.Prelude.{ℕ, List, [], ◌∷◌, ◌++◌, Option, none, some, true, ◌&&◌, if◌then◌else◌}
use open_flare.Prelude.Int.{pos, leb_ℤ}
use open_flare.Text.{Bytes, codes}
use open_flare.Http.{Request, header_get}
use open_flare.Config.{WafRule}
use open_flare.Regexp.{RegexpEngine}
use open_flare.Net.{NetPackage}
use open_flare.Waf.{Decision, Engine, CompiledRule, match_conditions, decide}
use open_flare.Proxy.Replies.{Reply}

-- The entry of `logDecision`; its time is left out.
pub record LogEntry : Type 0 where
  pub rule_id : Bytes
  pub action : Bytes
  pub detail : Bytes
  pub method : Bytes
  pub path : Bytes
  pub query : Bytes
  pub client_ip : Bytes
  pub user_agent : Bytes

unfoldable pub log_decision : Request → Decision → LogEntry
log_decision r d = record {
  rule_id = d.rule_id;
  action = d.action;
  detail = d.detail;
  method = r.method;
  path = r.path;
  query = r.raw_query;
  client_ip = r.remote_addr;
  user_agent = header_get r.headers (codes "User-Agent");
}

-- The decision that `Evaluate` builds for a rule that matches, before the mode is looked at.
abbrev pub matched_decision : WafRule → Bytes → Decision
matched_decision rule detail = record {
  rule_id = rule.id;
  action = rule.action.kind;
  matched = true;
  detail = detail;
}

-- `HandleBlock`; `quote_json` is the encoding of a string by encoding/json.
unfoldable pub handle_block : (Bytes → Bytes) → Decision → WafRule → Reply
handle_block quote_json d rule =
    let code = rule.action.status_code in
    record {
      status = if leb_ℤ code (pos 0) && leb_ℤ (pos 0) code then pos 403 else code;
      headers = (codes "Content-Type", codes "application/json" ∷ []) ∷ [];
      body =
          codes "{\"error\":\"blocked by WAF\",\"rule_id\":"
          ++ (quote_json d.rule_id ++ codes "}\n");
    }

module _ (rx : RegexpEngine) (net : NetPackage) where
  -- What the loop of `Evaluate` logs.
  unfoldable pub evaluate_rules_log :
      Bytes → ℕ → List (CompiledRule rx net) → Request → Bytes → Option net.Ip → List LogEntry
  evaluate_rules_log mode limit [] r body client_ip = []
  evaluate_rules_log mode limit (rule ∷ rules) r body client_ip =
      let later = evaluate_rules_log mode limit rules r body client_ip in
      let m = match_conditions rx net limit rule.conditions r body client_ip in
      let behind : List LogEntry = elim (decide mode rule.config m.1) [
        | none ↦ later
        | some d ↦ []
      ] in
      if m.0
      then if rule.config.action.log
        then log_decision r (matched_decision rule.config m.1) ∷ behind
        else behind
      else later

  -- `Mode`.
  abbrev pub mode : Engine rx net → Bytes
  mode e = e.mode
