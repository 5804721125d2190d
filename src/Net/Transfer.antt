-- ===== src/Net/Transfer.antt =====
-- Bytes over a connection: `recvAll`, `sendAllBytes` and the methods of `TcpConnection` in
-- src/simple-dnsd/utils/net.cpp. The system may take or give less than it is asked for.
pub mod Receive
pub mod Send
use simple_dnsd.Base.{
  ℕ, zero, suc, ◌-◌, ◌*◌, ◌/◌, ◌^◌, bit_and, bit_or, Bool, true, false, ◌||◌, Option, none, some,
  List, [], ◌∷◌, ◌++◌, ltb, ◌==◌, if◌then◌else◌, Bytes, length, drop, get_or,
}
use simple_dnsd.Net.Calls.{Os}
use simple_dnsd.Net.{Socket}

module _ {W : Type 0} (os : Os W) where
  -- The loop of `recvAll`. A round reads a byte at least, so the number of bytes still wanted bounds
  -- the rounds.
  unfoldable pub recv_rounds : ℕ → W → ℕ → ℕ → Option Bytes × W
  recv_rounds zero w fd size = if size == 0 then (some [], w) else (none, w)
  recv_rounds (suc fuel) w fd size =
      let (chunk, w1) = os.recv w fd size in
      let (more, w2) = recv_rounds fuel w1 fd (size - length chunk) in
      if size == 0
      then (some [], w)
      else if length chunk == 0
      then (none, w1)
      else (elim more [ none ↦ none | some bytes ↦ some (chunk ++ bytes) ], w2)

  -- `recvAll`
  unfoldable pub recv_all : W → ℕ → ℕ → Option Bytes × W
  unfolding recv_rounds
  recv_all w fd size = recv_rounds size w fd size

  -- The loop of `sendAllBytes`.
  unfoldable pub send_rounds : ℕ → W → ℕ → Bytes → Bool × W
  send_rounds zero w fd bytes = (length bytes == 0, w)
  send_rounds (suc fuel) w fd bytes =
      let (n, w1) = os.send w fd bytes in
      let rest = send_rounds fuel w1 fd (drop n bytes) in
      if length bytes == 0 then (true, w) else if n == 0 then (false, w1) else rest

  -- `sendAllBytes`
  unfoldable pub send_all_bytes : W → ℕ → Bytes → Bool × W
  unfolding send_rounds
  send_all_bytes w fd bytes = send_rounds (length bytes) w fd bytes

  -- `TcpConnection::recvExact`
  unfoldable pub recv_exactly : W → Socket → ℕ → Option Bytes × W
  unfolding recv_all
  recv_exactly w none size = (none, w)
  recv_exactly w (some fd) size = recv_all w fd size

  unfoldable pub message_length : Bytes → ℕ
  message_length lenbuf = bit_or (get_or lenbuf 0 0 * 2 ^ 8) (get_or lenbuf 1 0)

  unfoldable pub recv_rest : W → Socket → ℕ → ℕ → Option Bytes × W
  unfolding recv_exactly
  recv_rest w sock max_size len =
      if len == 0 || ltb max_size len then (none, w) else recv_exactly w sock len

  -- `TcpConnection::recvDnsMessage`
  unfoldable pub recv_message : W → Socket → ℕ → Option Bytes × W
  unfolding recv_exactly message_length recv_rest
  recv_message w sock max_size =
      let (lenbuf, w1) = recv_exactly w sock 2 in
      elim lenbuf [ none ↦ (none, w1) | some b ↦ recv_rest w1 sock max_size (message_length b) ]

  -- `TcpConnection::sendDnsMessage` on a connection that is open.
  unfoldable pub send_message : W → ℕ → Bytes → Bool × W
  unfolding send_all_bytes
  send_message w fd msg =
      let (sent, w1) =
        send_all_bytes w fd
          ((bit_and (length msg / 2 ^ 8) 0xff) ∷ (bit_and (length msg) 0xff) ∷ []) in
      if sent then send_all_bytes w1 fd msg else (false, w1)
