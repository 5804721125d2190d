-- ===== src/Server/Frame.antt =====
-- DNS messages on a TCP stream: `sendDnsMessage` and `recvDnsMessage` of
-- src/simple-dnsd/utils/net.cpp. A stream that is read is the bytes that the peer has sent and that
-- were not read before; where it ends, `recvExact` fails.
pub mod RoundTrip
use simple_dnsd.Base.{
  ℕ, ◌+◌, ◌*◌, ◌/◌, ◌^◌, bit_and, bit_or, Bool, true, false, ◌||◌, Option, none, some, List, [],
  ◌∷◌, ◌++◌, ltb, ◌==◌, if◌then◌else◌, Bytes, length, take, drop,
}

-- The bytes that `sendDnsMessage` writes.
unfoldable pub send_dns_message : Bytes → Bytes
send_dns_message msg = (bit_and (length msg / 2 ^ 8) 0xff) ∷ (bit_and (length msg) 0xff) ∷ msg

-- `recvExact`: the bytes, and what is left of the stream.
unfoldable pub recv_exact : ℕ → Bytes → Option (Bytes × Bytes)
recv_exact size stream =
    if ltb (length stream) size then none else some (take size stream, drop size stream)

unfoldable pub recv_body : ℕ → ℕ → Bytes → Option (Bytes × Bytes)
unfolding recv_exact
recv_body max_size len stream = if len == 0 || ltb max_size len then none else recv_exact len stream

unfoldable pub recv_dns_message : ℕ → Bytes → Option (Bytes × Bytes)
unfolding recv_body
recv_dns_message max_size [] = none
recv_dns_message max_size (hi ∷ []) = none
recv_dns_message max_size (hi ∷ lo ∷ stream) = recv_body max_size (bit_or (hi * 2 ^ 8) lo) stream
