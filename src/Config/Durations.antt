-- ===== src/Config/Durations.antt =====
-- internal/config/config.go: the durations of the server and of an upstream, and when their int64
-- nanoseconds are the milliseconds of the file.
use open_flare.Prelude.Int.{ℤ}
use open_flare.Config.{ServerConfig, UpstreamConfig, duration, millisecond}

unfoldable pub read_timeout : ServerConfig → ℤ
read_timeout s = duration s.read_timeout_ms millisecond

unfoldable pub write_timeout : ServerConfig → ℤ
write_timeout s = duration s.write_timeout_ms millisecond

unfoldable pub idle_timeout : ServerConfig → ℤ
idle_timeout s = duration s.idle_timeout_ms millisecond

unfoldable pub graceful_shutdown_timeout : ServerConfig → ℤ
graceful_shutdown_timeout s = duration s.graceful_shutdown_timeout_ms millisecond

unfoldable pub connect_timeout : UpstreamConfig → ℤ
connect_timeout u = duration u.connect_timeout_ms millisecond

unfoldable pub response_header_timeout : UpstreamConfig → ℤ
response_header_timeout u = duration u.response_header_timeout_ms millisecond
