-- ===== src/Tests/Waf.antt =====
-- Instances of the theorems on the firewall.
use open_flare.Prelude.{◌≡◌, ◌≤◌, ◌↔◌, refl, true, [], ◌∷◌, none, some, take, length}
use open_flare.Prelude.Int.{pos}
use open_flare.Text.{codes}
use open_flare.Http.{Request}
use open_flare.Config.{WafRule}
use open_flare.Waf.{Engine, CompiledCondition, evaluate, extract_ip, read_body_for_inspection}
use open_flare.Waf.Evaluate.{IsDecision, evaluate-IsDecision}
use open_flare.Waf.Body.{read_body_for_inspection_iff}
use open_flare.Tests.Samples.{plain_regexp, plain_net, get_request}

abbrev block_rule : WafRule
block_rule = record {
  id = codes "traversal";
  enabled = true;
  phase = codes "request";
  description = [];
  match_any = [];
  action = record { kind = codes "block"; status_code = pos 403; log = true };
}

abbrev request : Request
request = get_request (codes "/a/etc/passwd") []

abbrev by_path : CompiledCondition plain_regexp plain_net
by_path = record {
  original = record {
    path_regex = codes "/etc/passwd";
    query_regex = [];
    body_regex = [];
    header_name = [];
    header_regex = [];
    ip_cidr = [];
    method = [];
    user_agent_regex = [];
    content_type = [];
  };
  path_re = some (codes "/etc/passwd");
  query_re = none;
  body_re = none;
  header_re = none;
  ua_re = none;
  ip_net = none;
}

abbrev pub shadow_engine : Engine plain_regexp plain_net
shadow_engine = record {
  mode = codes "shadow";
  rules = record { config = block_rule; conditions = by_path ∷ [] } ∷ [];
  max_body_inspect = 4;
}

evaluate-IsDecision_example :
    IsDecision plain_regexp plain_net
      (codes "shadow")
      4
      request
      (codes "abcd")
      (extract_ip plain_regexp plain_net (codes "9:80"))
      shadow_engine.rules
      (evaluate plain_regexp plain_net shadow_engine request (codes "abcd"))
evaluate-IsDecision_example =
    evaluate-IsDecision plain_regexp plain_net shadow_engine request (codes "abcd")

read_body_for_inspection_iff_example :
    ((read_body_for_inspection request 4).0 ≡ take 4 (codes "abcdef"))
    × (((read_body_for_inspection request 4).1.body ≡ some (codes "abcdef"))
        ↔ (length (codes "abcdef") ≤ 5))
read_body_for_inspection_iff_example = read_body_for_inspection_iff request (codes "abcdef") 4 refl
