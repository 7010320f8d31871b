-- ===== src/Server.antt =====
-- internal/server/server.go and internal/upstream/transport.go: the settings and the routes of the two
-- servers, and the transport to the origin. The pattern that a request matches is chosen by the
-- multiplexer of net/http.
use open_flare.Prelude.{Bool, false, List, [], ◌∷◌}
use open_flare.Prelude.Int.{ℤ, pos}
use open_flare.Text.{Bytes, codes}
use open_flare.Config.{ServerConfig, UpstreamConfig, duration, second}
use open_flare.Config.Durations.{
  read_timeout, write_timeout, idle_timeout, connect_timeout, response_header_timeout,
}

-- What a pattern is registered with; `chain` is the middleware around the proxy.
pub data Target : Type 0 where
  chain metrics admin_api health : Target

pub record HttpServer : Type 0 where
  pub addr : Bytes
  pub routes : List (Bytes × Target)
  pub read_timeout : ℤ
  pub write_timeout : ℤ
  pub idle_timeout : ℤ
  pub max_header_bytes : ℤ

unfoldable pub new_public_server : ServerConfig → HttpServer
unfolding read_timeout write_timeout idle_timeout
new_public_server cfg = record {
  addr = cfg.listen_addr;
  routes = (codes "/metrics", metrics) ∷ (codes "/", chain) ∷ [];
  read_timeout = read_timeout cfg;
  write_timeout = write_timeout cfg;
  idle_timeout = idle_timeout cfg;
  max_header_bytes = cfg.max_header_bytes;
}

unfoldable pub new_admin_server : ServerConfig → HttpServer
unfolding read_timeout write_timeout idle_timeout
new_admin_server cfg = record {
  addr = cfg.admin_listen_addr;
  routes =
      (codes "/admin/", admin_api) ∷ (codes "/metrics", metrics) ∷ (codes "/healthz", health) ∷ [];
  read_timeout = read_timeout cfg;
  write_timeout = write_timeout cfg;
  idle_timeout = idle_timeout cfg;
  max_header_bytes = cfg.max_header_bytes;
}

-- `http.Transport`, with its dialer.
pub record Transport : Type 0 where
  pub dial_timeout : ℤ
  pub keep_alive : ℤ
  pub response_header_timeout : ℤ
  pub max_idle_conns : ℤ
  pub max_idle_conns_per_host : ℤ
  pub idle_conn_timeout : ℤ
  pub tls_handshake_timeout : ℤ
  pub expect_continue_timeout : ℤ
  pub force_attempt_http2 : Bool

unfoldable pub new_transport : UpstreamConfig → Transport
unfolding connect_timeout response_header_timeout duration
new_transport cfg = record {
  dial_timeout = connect_timeout cfg;
  keep_alive = duration (pos 30) second;
  response_header_timeout = response_header_timeout cfg;
  max_idle_conns = cfg.max_idle_conns;
  max_idle_conns_per_host = cfg.max_idle_conns_per_host;
  idle_conn_timeout = duration (pos 90) second;
  tls_handshake_timeout = duration (pos 10) second;
  expect_continue_timeout = duration (pos 1) second;
  force_attempt_http2 = false;
}
