-- ===== src/Server/Frame/RoundTrip.antt =====
-- What is sent on a stream is received from it.
use simple_dnsd.Base.{
  ℕ, ◌*◌, ◌/◌, ◌^◌, ◌≤◌, ◌<◌, ◌≡◌, bit_and, bit_or, some, ◌++◌, Bytes, length, length-append,
  take-length_append, drop-length_append, arith, and-ones, or-shift,
}
use simple_dnsd.Server.Frame.{send_dns_message, recv_exact, recv_body, recv_dns_message}

-- The two bytes of a length below 2 ^ 16 are read as that length.
length_bytes : (n : ℕ) → n < 2 ^ 16 → bit_or (bit_and (n / 2 ^ 8) 0xff * 2 ^ 8) (bit_and n 0xff) ≡ n
length_bytes n h = omega (
  arith,
  and-ones 8 (n / 2 ^ 8),
  and-ones 8 n,
  or-shift 8 (bit_and (n / 2 ^ 8) 0xff) (bit_and n 0xff) (omega (arith, and-ones 8 n)),
)

recv_body-append :
    (max_size : ℕ) (msg rest : Bytes)
    → 0 < length msg
    → length msg ≤ max_size
    → recv_body max_size (length msg) (msg ++ rest) ≡ some (msg, rest)
unfolding recv_body recv_exact
recv_body-append max_size msg rest pos fits =
    ground (arith, length-append msg rest, take-length_append msg rest, drop-length_append msg rest)

-- A message of 1 to 65535 bytes, and no more than the receiver takes, is received as it was sent, and
-- what follows it on the stream is left there.
pub recv_dns_message-send_dns_message :
    (max_size : ℕ) (msg rest : Bytes)
    → 0 < length msg
    → length msg < 2 ^ 16
    → length msg ≤ max_size
    → recv_dns_message max_size (send_dns_message msg ++ rest) ≡ some (msg, rest)
unfolding recv_dns_message send_dns_message
recv_dns_message-send_dns_message max_size msg rest pos short fits =
    rw (length_bytes (length msg) short) (recv_body-append max_size msg rest pos fits)
