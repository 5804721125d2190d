-- ===== src/Engine/State.antt =====
-- The state of `AuthoritativeEngine`, of the statistics that it counts in, and the context of a
-- query. Notifications that are sent and exports that are written are kept in order.
use simple_dnsd.Base.{ℕ, ◌+◌, ◌%◌, ◌^◌, Bool, List, Bytes}
use simple_dnsd.Name.{DnsName}
use simple_dnsd.Config.{DnsConfig}
use simple_dnsd.Tsig.{TsigKey}
use simple_dnsd.Engine.Cache.{PacketCache}
use simple_dnsd.Engine.Limiter.{ResponseRateLimiter}

pub record QueryContext : Type 0 where
  pub peer_host : Bytes
  pub peer_port : ℕ
  pub tcp : Bool
  pub raw : Bytes

pub record ServerStats : Type 0 where
  pub queries : ℕ
  pub answers : ℕ
  pub nxdomain : ℕ
  pub refused : ℕ
  pub axfr : ℕ
  pub updates : ℕ
  pub cache_hits : ℕ
  pub cache_misses : ℕ
  pub truncated : ℕ
  pub tcp_sessions : ℕ

-- `fetch_add(1)` on a 64-bit counter.
abbrev pub count_up : ℕ → ℕ
count_up n = (n + 1) % 2 ^ 64

-- `UdpSocket::sendOnce` of a notification, and `exportBind` of a zone.
pub data Effect : Type 0 where
  send : Bytes → ℕ → Bytes → Effect
  export : DnsName → Effect

pub record Engine (S : Type 0) : Type 0 where
  pub backends : List S
  pub config : DnsConfig
  pub stats : ServerStats
  pub cache : PacketCache
  pub limiter : ResponseRateLimiter
  pub tsig_keys : List TsigKey
  pub effects : List Effect
