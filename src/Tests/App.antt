-- ===== src/Tests/App.antt =====
-- Instances of the theorems on the start of the program.
use open_flare.Prelude.{◌≤◌, false, ◌≡◌, ◌⊎◌, refl, true, List, [], none, some, inr, length}
use open_flare.Prelude.Int.{pos}
use open_flare.Text.{Bytes, codes, str_eq}
use open_flare.Http.{Request}
use open_flare.Config.{RootConfig, apply_defaults, load}
use open_flare.Config.Files.{
  read_and_parse, load_config, load_waf_config, load_cache_rules_config, load_rate_limit_config,
}
use open_flare.Cache.Backend.{MemoryBackend, new_memory_backend}
use open_flare.Cache.Policy.{new_policy}
use open_flare.RateLimit.{new_limiter}
use open_flare.Proxy.Replies.{Reply}
use open_flare.Proxy.Setup.{find_upstream, new_handler}
use open_flare.Waf.{new_engine}
use open_flare.Server.{new_public_server, new_admin_server, new_transport}
use open_flare.Admin.{Decoder, Answer, serve_admin}
use open_flare.Admin.Laws.{HasToken}
use open_flare.App.{
  Environment, App, root_config, waf_config, rate_limit_config, cache_rules, start_handler,
  start_app,
}
use open_flare.App.Laws.{Outcome, start_app-Outcome}
use open_flare.App.Shutdown.{
  RunState, stopped, returned, start, Reach, begin, next, listen_public, listen_admin, signal,
  take_signal, shut_public, shut_admin,
}
use open_flare.App.Shutdown.Servers.{is_closed, is_admin_closed, IsReported}
use open_flare.App.Shutdown.Sound.{Reach-IsShut}
use open_flare.App.{RunError}
use open_flare.App.Serving.{Arrival, serve_all, start_app-serves}
use open_flare.Tests.Samples.{plain_regexp, plain_net, counting}
use open_flare.Tests.Config.{file}

-- Every file decodes to the sample configuration, and to no rules.
abbrev environment : Environment Bytes
environment = record {
  getenv = λ name. [];
  read_file = λ path. some path;
  yaml = record {
    root = λ text. some file;
    waf = λ text. none;
    cache_rules = λ text. none;
    rate_limit = λ text. none;
  };
  parse_url = λ text. some text;
}

start_app-Outcome_example :
    Outcome environment plain_regexp plain_net counting
      (start_app plain_regexp plain_net counting environment)
start_app-Outcome_example = start_app-Outcome environment plain_regexp plain_net counting

abbrev cfg : RootConfig
cfg = apply_defaults file

abbrev app : App plain_regexp plain_net counting Bytes
app = record {
  cfg = cfg;
  proxy_handler = record {
    cfg = cfg;
    cache_backend = new_memory_backend cfg.cache.max_entries cfg.cache.max_bytes;
    cache_policy = new_policy plain_regexp cfg.cache [];
    waf_engine = some (record { mode = codes "shadow"; rules = []; max_body_inspect = 65536 });
    rate_limiter = some (new_limiter counting none);
  };
  target_url = codes "http://origin";
  transport = new_transport (record {
    name = codes "main";
    base_url = codes "http://origin";
    connect_timeout_ms = pos 0;
    response_header_timeout_ms = pos 0;
    max_idle_conns = pos 0;
    max_idle_conns_per_host = pos 0;
  });
  admin_token = codes "secret";
  public_server = new_public_server cfg.server;
  admin_server = new_admin_server cfg.server;
  waf_mode = codes "shadow";
}

started : start_app plain_regexp plain_net counting environment ≡ inr app
unfolding start_app root_config waf_config rate_limit_config cache_rules load_config load_waf_config
    load_cache_rules_config load_rate_limit_config read_and_parse load new_engine new_handler
    find_upstream str_eq start_handler
started = refl

start_app-serves_example :
    ((arrivals : List Arrival)
      → (replies : List Reply) × (serve_all plain_regexp plain_net counting
            (λ s. s)
            arrivals
            app.proxy_handler
          ≡ some replies)
        × (length replies ≡ length arrivals))
    × (cfg.admin_api.enabled ≡ true
        → (json : Decoder) (r : Request) (m : MemoryBackend)
        → HasToken (codes "secret") r
          ⊎ (serve_admin (codes "secret") json r m ≡ (Answer.unauthorized, m)))
unfolding apply_defaults
start_app-serves_example =
    start_app-serves plain_regexp plain_net counting (λ s. s) environment app started refl

abbrev run_states : RunState → RunState
run_states s = record s {
  public = stopped;
  admin = some stopped;
  signalled = true;
  phase = returned none;
}

-- Both servers start, a signal arrives, and both are shut down.
shut_reached : Reach file (run_states (start file))
unfolding start
shut_reached =
    next
      (next
        (next (next (next (next begin (listen_public refl)) (listen_admin refl)) signal)
          (take_signal refl refl))
        (shut_public refl))
      (shut_admin refl)

Reach-IsShut_example :
    (length (run_states (start file)).errors ≤ 2)
    × (file.admin_api.enabled ≡ false → (run_states (start file)).admin ≡ none)
    × ((run_states (start file)).phase ≡ returned none
        → (is_closed (run_states (start file)).public ≡ true)
          × (is_admin_closed (run_states (start file)).admin ≡ true))
    × ((e : RunError)
        → (run_states (start file)).phase ≡ returned (some e)
        → IsReported (run_states (start file)).public (run_states (start file)).admin e)
Reach-IsShut_example = Reach-IsShut file (run_states (start file)) shut_reached
