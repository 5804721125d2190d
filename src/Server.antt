-- ===== src/Server.antt =====
-- The path of a UDP query through src/simple-dnsd/core/server.cpp: from the packet that is received
-- to the packet that is sent.
pub mod Frame
pub mod Tcp
pub mod Secondary
pub mod Lifecycle
pub mod Sessions
pub mod Traffic
pub mod Udp
use simple_dnsd.Base.{ℕ, false, Option, none, some, if◌then◌else◌, min, Bytes}
use simple_dnsd.Outcome.{Outcome, ok, thrown}
use simple_dnsd.Record.{DnsMessage}
use simple_dnsd.Inet.{Inet}
use simple_dnsd.Message.{encode_message, decode_message}
use simple_dnsd.Backend.{Backend}
use simple_dnsd.Config.{DnsConfig}
use simple_dnsd.Engine.State.{count_up, Engine}
use simple_dnsd.Engine.Handle.{Clocks, handle, with_stats}

-- `kDnsUdpMinSize` is 512.
unfoldable pub udp_limit : DnsConfig → DnsMessage → ℕ
udp_limit config query =
    if query.edns.present then min query.edns.udp_size config.edns_bufsize else 512

module _ {S T : Type 0} (net : Inet) (ops : Backend S T) (hmac : Bytes → Bytes → Bytes) where
  -- The response as it is sent, and the count of those cut short.
  unfoldable pub send_response : Engine S → DnsMessage → DnsMessage → Bytes × Engine S
  unfolding encode_message udp_limit
  send_response e query resp =
      let (wire, truncated) = encode_message resp (udp_limit e.config query) in
      let counted = record (e.stats) { truncated = count_up e.stats.truncated } in
      (wire, (if truncated then with_stats net ops e counted else e))

  -- `handleUdpQuery`: what is sent, `none` where the packet is dropped, or the exception that ends
  -- the thread.
  unfoldable pub handle_udp_query :
      Clocks → Engine S → Bytes → Bytes → ℕ → Outcome (Option Bytes) × Engine S
  unfolding decode_message handle send_response
  handle_udp_query now e packet host port = elim (decode_message net packet) [
    | none ↦ (ok none, e)
    | some query ↦
        (let (answered, e') =
            handle net ops hmac now e query
              (record { peer_host = host; peer_port = port; tcp = false; raw = packet }) in
          elim answered [
            | thrown ↦ (thrown, e')
            | ok resp ↦ (let (wire, e'') = send_response e' query resp in (ok (some wire), e''))
          ])
  ]
