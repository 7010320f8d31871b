-- ===== src/Net.antt =====
-- What the proxy takes of the package `net`: the split of an address, and IP addresses and networks,
-- whose types and tests are parameters.
use open_flare.Prelude.{Bool, Option}
use open_flare.Text.{Bytes}

pub record NetPackage : Type 1 where
  pub Ip : Type 0
  pub IpNet : Type 0
  pub split_host_port : Bytes → Option (Bytes × Bytes)
  pub parse_ip : Bytes → Option Ip
  pub parse_cidr : Bytes → Option IpNet
  pub ip_net_contains : IpNet → Ip → Bool
  pub ip_string : Ip → Bytes
