-- ===== src/Tests/Config.antt =====
-- An instance of the theorem on loading a configuration.
use open_flare.Prelude.{◌≡◌, ◌↔◌, none, some, true, false, [], ◌∷◌}
use open_flare.Prelude.Int.{pos}
use open_flare.Text.{codes}
use open_flare.Config.{RootConfig, ConfigError, validate}
use open_flare.Config.Laws.{IsUsable}
use open_flare.Config.Errors.{Explains, validate_iff}

-- A file that names one upstream and the token of the admin API, and leaves the rest out.
abbrev pub file : RootConfig
file = record {
  server = record {
    listen_addr = [];
    admin_listen_addr = [];
    read_timeout_ms = pos 0;
    write_timeout_ms = pos 0;
    idle_timeout_ms = pos 0;
    max_header_bytes = pos 0;
    graceful_shutdown_timeout_ms = pos 0;
  };
  upstreams =
      record {
        name = codes "main";
        base_url = codes "http://origin";
        connect_timeout_ms = pos 0;
        response_header_timeout_ms = pos 0;
        max_idle_conns = pos 0;
        max_idle_conns_per_host = pos 0;
      }
      ∷ [];
  routing = record { default_upstream = codes "main" };
  security = record {
    trust_x_forwarded_for = false;
    max_body_inspect_bytes = pos 0;
    max_request_body_bytes = pos 0;
  };
  cache = record {
    enabled = true;
    max_entries = pos 0;
    max_bytes = pos 0;
    default_ttl_seconds = pos 0;
    respect_origin_cc = true;
    bypass_on_cookie = true;
    bypass_on_authorization = true;
    never_store_on_set_cookie = true;
    debug_headers = true;
  };
  admin_api = record { enabled = true; auth_token = codes "secret" };
  logging = record { level = []; format = [] };
}

-- The file without the token.
abbrev unguarded : RootConfig
unguarded = record file { admin_api = record { enabled = true; auth_token = [] } }

validate_iff_example :
    ((validate unguarded ≡ none) ↔ IsUsable unguarded)
    × ((e : ConfigError) → validate unguarded ≡ some e → Explains unguarded e)
validate_iff_example = validate_iff unguarded
