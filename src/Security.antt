-- ===== src/Security.antt =====
-- internal/security/headers.go: the forwarding headers of a request on its way to the origin.
pub mod Laws
use open_flare.Prelude.{Bool, true, false, ◌++◌, if◌then◌else◌, none, some}
use open_flare.Text.{Bytes, codes, is_empty}
use open_flare.Http.{Headers, header_get, header_set, Request}
use open_flare.Net.{NetPackage}

unfoldable pub client_ip : NetPackage → Bytes → Bytes
client_ip net remote_addr = elim (net.split_host_port remote_addr) [
  | none ↦ remote_addr
  | some (host, port) ↦ host
]

-- The new value of `X-Forwarded-For`.
unfoldable pub forwarded_for : Bool → Bytes → Bytes → Bytes
forwarded_for trust_xff existing ip =
    if trust_xff then if is_empty existing then ip else existing ++ (codes ", " ++ ip) else ip

-- `SetForwardedHeaders`.
unfoldable pub set_forwarded_headers : NetPackage → Request → Bool → Request
unfolding forwarded_for
set_forwarded_headers net r trust_xff =
    let ip = client_ip net r.remote_addr in
    let existing = header_get r.headers (codes "X-Forwarded-For") in
    let h = header_set r.headers (codes "X-Forwarded-For") (forwarded_for trust_xff existing ip) in
    record r {
      headers =
          header_set h (codes "X-Forwarded-Proto") (if r.tls then codes "https" else codes "http");
    }
