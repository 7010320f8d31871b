-- ===== src/Tests/Policy.antt =====
-- Instances of the theorems on the cache policy.
use open_flare.Prelude.{◌≡◌, ◌*◌, ◌↔◌, refl, true, false, [], ◌∷◌, arith, inl}
use open_flare.Prelude.Int.{pos}
use open_flare.Text.{codes, index, to_lower}
use open_flare.Http.{Headers}
use open_flare.Config.{CacheConfig, CacheRule}
use open_flare.Cache.Policy.{
  Policy, new_policy, parse_cc_directive, is_response_storable, is_request_cacheable, determine_ttl,
}
use open_flare.Cache.Policy.Directive.{value_from, parse_cc_directive-value}
use open_flare.Cache.Policy.Eligible.{
  IsStorable, IsCacheable, is_response_storable_iff, is_request_cacheable_iff,
}
use open_flare.Cache.Policy.Ttl.{IsTtl, determine_ttl-IsTtl}
use open_flare.Tests.Samples.{plain_regexp, get_request}

abbrev cfg : CacheConfig
cfg = record {
  enabled = true;
  max_entries = pos 2;
  max_bytes = pos 100;
  default_ttl_seconds = pos 30;
  respect_origin_cc = true;
  bypass_on_cookie = true;
  bypass_on_authorization = true;
  never_store_on_set_cookie = true;
  debug_headers = false;
}

abbrev static_rule : CacheRule
static_rule = record {
  id = codes "static";
  path_prefix = codes "/static/";
  path_exact = [];
  path_regex = [];
  methods = codes "GET" ∷ [];
  cache = record { eligible = true; ttl_seconds = pos 60 };
}

abbrev pub policy : Policy plain_regexp
policy = new_policy plain_regexp cfg (static_rule ∷ [])

abbrev max_age_headers : Headers
max_age_headers = (codes "Cache-Control", codes "public, max-age=15" ∷ []) ∷ []

parse_cc_directive-value_example :
    parse_cc_directive (codes "public, Max-Age=15, x") (codes "max-age=")
    ≡ pos (value_from 0 (codes "15") * 1000000000)
unfolding index to_lower value_from
parse_cc_directive-value_example =
    parse_cc_directive-value (codes "public, Max-Age=15, x") (codes "max-age=") (codes "15")
      (codes ", x") 8 refl refl (ground arith) (inl refl) (ground arith) (ground arith)

is_response_storable_iff_example :
    ((is_response_storable cfg 200 max_age_headers).0 ≡ true) ↔ IsStorable cfg 200 max_age_headers
is_response_storable_iff_example = is_response_storable_iff cfg 200 max_age_headers

is_request_cacheable_iff_example :
    ((is_request_cacheable plain_regexp policy (get_request (codes "/static/a") [])).0 ≡ true)
    ↔ IsCacheable plain_regexp policy (get_request (codes "/static/a") [])
is_request_cacheable_iff_example =
    is_request_cacheable_iff plain_regexp policy (get_request (codes "/static/a") [])

determine_ttl-IsTtl_example :
    IsTtl plain_regexp policy
      (codes "/a")
      max_age_headers
      (determine_ttl plain_regexp policy (codes "/a") max_age_headers)
determine_ttl-IsTtl_example = determine_ttl-IsTtl plain_regexp policy (codes "/a") max_age_headers
