-- ===== src/Waf.antt =====
-- internal/waf/engine.go: the compilation of the rules, the evaluation of a request and the reading
-- of the body. The log and the metrics are in Log and Observability.Emit. The limit of inspected bytes
-- is a natural number; with a negative one the code's slices would panic.
pub mod Evaluate
pub mod Log
pub mod Body
use open_flare.Prelude.{
  ℕ, suc, ◌+◌, ◌<◌, Bool, true, false, not, ◌&&◌, ◌||◌, List, [], ◌∷◌, ◌++◌, Option, none, some,
  ◌⊎◌, inl, inr, ltb, leb, if◌then◌else◌, take, length, is_nil,
}
use open_flare.Prelude.Int.{ℤ, pos, negsuc, ltb_ℤ}
use open_flare.Text.{Bytes, codes, str_eq, is_empty, equal_fold, contains, to_lower}
use open_flare.Http.{Headers, header_get, Request}
use open_flare.Config.{WafCondition, WafAction, WafRule, WafConfig}
use open_flare.Url.{query_unescape}
use open_flare.Regexp.{RegexpEngine}
use open_flare.Net.{NetPackage}

pub record Decision : Type 0 where
  pub rule_id : Bytes
  pub action : Bytes
  pub matched : Bool
  pub detail : Bytes

-- The result of a test: whether it matched, and the detail.
abbrev pub Match : Type 0
Match = Bool × Bytes

abbrev no_match : Match
no_match = (false, [])

-- The tests of `matchCondition` are made one after the other, and the first that matches returns.
infixr 30 ◌or_else◌
abbrev pub ◌or_else◌ : Match → Match → Match
(true, d) or_else n = (true, d)
(false, d) or_else n = n

abbrev pub allow : Decision
allow = record { rule_id = []; action = codes "allow"; matched = false; detail = [] }

-- The switch over the action of a rule that matched; `none` goes on with the next rule.
unfoldable pub decide : Bytes → WafRule → Bytes → Option Decision
decide mode rule detail =
    let d : Decision = record {
      rule_id = rule.id;
      action = rule.action.kind;
      matched = true;
      detail = detail;
    } in
    if str_eq rule.action.kind (codes "allow")
    then some d
    else if str_eq rule.action.kind (codes "block")
    then if str_eq mode (codes "enforce") then some d else some (record d { action = codes "log" })
    else if str_eq rule.action.kind (codes "log")
    then some d
    else if str_eq rule.action.kind (codes "bypass_cache")
    then some d
    else none

module _ (rx : RegexpEngine) (net : NetPackage) where
  open rx use {Regex, compile, match_string}
  open net use {Ip, IpNet, split_host_port, parse_ip, parse_cidr, ip_net_contains, ip_string}

  pub record CompiledCondition : Type 0 where
    pub original : WafCondition
    pub path_re : Option Regex
    pub query_re : Option Regex
    pub body_re : Option Regex
    pub header_re : Option Regex
    pub ua_re : Option Regex
    pub ip_net : Option IpNet

  pub record CompiledRule : Type 0 where
    pub config : WafRule
    pub conditions : List CompiledCondition

  pub record Engine : Type 0 where
    pub mode : Bytes
    pub rules : List CompiledRule
    pub max_body_inspect : ℕ

  -- `inl` is the error, with the text that does not compile.
  compile_optional : Bytes → Bytes ⊎ Option Regex
  compile_optional text =
      if is_empty text
      then inr none
      else elim (compile text) [ none ↦ inl text | some re ↦ inr (some re) ]

  parse_optional : Bytes → Bytes ⊎ Option IpNet
  parse_optional text =
      if is_empty text
      then inr none
      else elim (parse_cidr text) [ none ↦ inl text | some n ↦ inr (some n) ]

  -- A do block stops at the first error.
  infixl 5 ◌>>=◌
  abbrev ◌>>=◌ {ℓ κ} : {A : Type ℓ} {B : Type κ} → Bytes ⊎ A → (A → Bytes ⊎ B) → Bytes ⊎ B
  inl e >>= f = inl e
  inr a >>= f = f a

  unfoldable pub compile_condition : WafCondition → Bytes ⊎ CompiledCondition
  unfolding compile_optional parse_optional
  compile_condition cond = do
    path_re ← compile_optional cond.path_regex
    query_re ← compile_optional cond.query_regex
    body_re ← compile_optional cond.body_regex
    header_re ← compile_optional cond.header_regex
    ua_re ← compile_optional cond.user_agent_regex
    ip_net ← parse_optional cond.ip_cidr
    inr (record {
      original = cond;
      path_re = path_re;
      query_re = query_re;
      body_re = body_re;
      header_re = header_re;
      ua_re = ua_re;
      ip_net = ip_net;
    })

  compile_conditions : List WafCondition → Bytes ⊎ List CompiledCondition
  compile_conditions [] = inr []
  compile_conditions (c ∷ cs) = do
    cc ← compile_condition c
    ccs ← compile_conditions cs
    inr (cc ∷ ccs)

  -- The loop over the rules: those that are not enabled are left out.
  compile_rules : List WafRule → Bytes ⊎ List CompiledRule
  compile_rules [] = inr []
  compile_rules (r ∷ rs) =
      let later = compile_rules rs in
      if r.enabled
      then (do
        conditions ← compile_conditions r.match_any
        rest ← later
        inr (record { config = r; conditions = conditions } ∷ rest))
      else later

  -- `NewEngine`; `none` is a nil configuration.
  unfoldable pub new_engine : Option WafConfig → ℕ → Bytes ⊎ Engine
  unfolding compile_rules compile_conditions compile_condition
  new_engine none max_body_inspect =
      inr (record { mode = codes "shadow"; rules = []; max_body_inspect = max_body_inspect })
  new_engine (some cfg) max_body_inspect = do
    rules ← compile_rules cfg.rules
    inr (record { mode = cfg.mode; rules = rules; max_body_inspect = max_body_inspect })

  unfoldable pub extract_ip : Bytes → Option Ip
  extract_ip remote_addr = elim (split_host_port remote_addr) [
    | none ↦ parse_ip remote_addr
    | some (host, port) ↦ parse_ip host
  ]

  match_path : Option Regex → Request → Match
  match_path none r = no_match
  match_path (some re) r =
      if match_string re r.path
      then (true, codes "path_regex matched: " ++ r.path)
      else if match_string re r.raw_path
      then (true, codes "raw_path_regex matched: " ++ r.raw_path)
      else no_match

  abbrev match_decoded : Regex → Bytes → Option Bytes → Match
  match_decoded re raw none = no_match
  match_decoded re raw (some decoded) =
      if not (str_eq decoded raw) && match_string re decoded
      then (true, codes "query_regex matched")
      else no_match

  match_query : Option Regex → Request → Match
  match_query none r = no_match
  match_query (some re) r =
      if match_string re r.raw_query
      then (true, codes "query_regex matched")
      else match_decoded re r.raw_query (query_unescape r.raw_query)

  match_body : ℕ → Option Regex → Bytes → Match
  match_body limit none body = no_match
  match_body limit (some re) body =
      if not (is_nil body) && match_string re (take limit body)
      then (true, codes "body_regex matched")
      else no_match

  match_method : Bytes → Request → Match
  match_method method r =
      if not (is_empty method) && equal_fold r.method method
      then (true, codes "method matched: " ++ r.method)
      else no_match

  match_user_agent : Option Regex → Request → Match
  match_user_agent none r = no_match
  match_user_agent (some re) r =
      if match_string re (header_get r.headers (codes "User-Agent"))
      then (true, codes "user_agent_regex matched")
      else no_match

  match_header_name : Bytes → Request → Match
  match_header_name name r =
      if not (is_empty name) && not (is_empty (header_get r.headers name))
      then (true, codes "header_name matched: " ++ name)
      else no_match

  match_values : Regex → Bytes → List Bytes → Match
  match_values re name [] = no_match
  match_values re name (v ∷ vs) =
      if match_string re (name ++ codes ":" ++ v)
      then (true, codes "header_regex matched: " ++ name ++ codes ":" ++ v)
      else match_values re name vs

  -- The headers in the order of the list; the order of a Go map is not determined.
  match_headers : Option Regex → Headers → Match
  match_headers none h = no_match
  match_headers (some re) [] = no_match
  match_headers (some re) ((name, vs) ∷ h) =
      match_values re name vs or_else match_headers (some re) h

  match_ip : Option IpNet → Option Ip → Match
  match_ip none ip = no_match
  match_ip (some n) none = no_match
  match_ip (some n) (some ip) =
      if ip_net_contains n ip then (true, codes "ip_cidr matched: " ++ ip_string ip) else no_match

  match_content_type : Bytes → Request → Match
  match_content_type content_type r =
      let ct = header_get r.headers (codes "Content-Type") in
      if not (is_empty content_type) && contains (to_lower ct) (to_lower content_type)
      then (true, codes "content_type matched: " ++ ct)
      else no_match

  unfoldable pub match_condition : ℕ → CompiledCondition → Request → Bytes → Option Ip → Match
  unfolding match_path match_query match_body match_method match_user_agent match_header_name
      match_values match_headers match_ip match_content_type
  match_condition limit c r body client_ip =
      match_path c.path_re r
      or_else match_query c.query_re r
      or_else match_body limit c.body_re body
      or_else match_method c.original.method r
      or_else match_user_agent c.ua_re r
      or_else match_header_name c.original.header_name r
      or_else match_headers c.header_re r.headers
      or_else match_ip c.ip_net client_ip
      or_else match_content_type c.original.content_type r

  -- `matchRule`: any condition will do.
  unfoldable pub match_conditions : ℕ → List CompiledCondition → Request → Bytes → Option Ip → Match
  match_conditions limit [] r body client_ip = no_match
  match_conditions limit (c ∷ cs) r body client_ip =
      match_condition limit c r body client_ip or_else match_conditions limit cs r body client_ip

  -- The loop over the rules in `Evaluate`.
  unfoldable pub evaluate_rules :
      Bytes → ℕ → List CompiledRule → Request → Bytes → Option Ip → Decision
  evaluate_rules mode limit [] r body client_ip = allow
  evaluate_rules mode limit (rule ∷ rules) r body client_ip =
      let later = evaluate_rules mode limit rules r body client_ip in
      let m = match_conditions limit rule.conditions r body client_ip in
      if m.0 then elim (decide mode rule.config m.1) [ none ↦ later | some d ↦ d ] else later

  unfoldable pub evaluate : Engine → Request → Bytes → Decision
  evaluate e r body =
      evaluate_rules e.mode e.max_body_inspect e.rules r body (extract_ip r.remote_addr)

  -- `GetBlockStatusCode`.
  block_status : List CompiledRule → Bytes → ℤ
  block_status [] rule_id = pos 403
  block_status (rule ∷ rules) rule_id =
      let later = block_status rules rule_id in
      if str_eq rule.config.id rule_id
      then if ltb_ℤ (pos 0) rule.config.action.status_code
        then rule.config.action.status_code
        else pos 403
      else later

  unfoldable pub get_block_status_code : Engine → Bytes → ℤ
  unfolding block_status
  get_block_status_code e rule_id = block_status e.rules rule_id

-- `ReadBodyForInspection`: the body for the WAF, and the request with its stream replaced. `none` in
-- the first place of the stream is a nil body; a read of the stream does not fail here.
unfoldable pub read_body_for_inspection : Request → ℕ → Bytes × Request
read_body_for_inspection r max_bytes = elim r.body [
  | none ↦ ([], r)
  | some stream ↦
      let body = take (suc max_bytes) stream in
      (
        if ltb max_bytes (length body) then take max_bytes body else body,
        record r { body = some body },
      )
]
