-- ===== src/Server/Tcp/Session.antt =====
-- A session over a stream of bytes as a session over messages.
use simple_dnsd.Base.{
  ℕ, zero, suc, ◌*◌, ◌^◌, ◌≤◌, ◌<◌, ◌≡◌, refl, ap, bit_or, Bool, false, some, List, [], ◌∷◌, ◌++◌,
  Bytes, length, length-drop, arith, Option-cases, inl, inr,
}
use simple_dnsd.Inet.{Inet}
use simple_dnsd.Backend.{Backend}
use simple_dnsd.Engine.State.{Engine}
use simple_dnsd.Engine.Handle.{Clocks}
use simple_dnsd.Server.Frame.{send_dns_message, recv_exact, recv_body, recv_dns_message}
use simple_dnsd.Server.Tcp.{take_turn, follow, serve}

-- The messages, one behind the other on a stream.
abbrev pub frames : List Bytes → Bytes
frames [] = []
frames (msg ∷ msgs) = send_dns_message msg ++ frames msgs

-- Each message can be sent, and the receiver takes it.
abbrev pub Sendable : ℕ → List Bytes → Type 0
Sendable max_size [] = Unit
Sendable max_size (msg ∷ msgs) =
    (0 < length msg) × (length msg < 2 ^ 16) × (length msg ≤ max_size) × Sendable max_size msgs

recv_body-shorter :
    (max_size len : ℕ) (stream msg rest : Bytes)
    → recv_body max_size len stream ≡ some (msg, rest)
    → length rest ≤ length stream
unfolding recv_body recv_exact
recv_body-shorter max_size len stream msg rest h = ground (arith, length-drop len stream)

pub recv_dns_message-shorter :
    (max_size : ℕ) (stream msg rest : Bytes)
    → recv_dns_message max_size stream ≡ some (msg, rest)
    → length rest < length stream
unfolding recv_dns_message
recv_dns_message-shorter max_size [] msg rest h = absurd (ground arith)
recv_dns_message-shorter max_size (hi ∷ []) msg rest h = absurd (ground arith)
recv_dns_message-shorter max_size (hi ∷ lo ∷ stream) msg rest h =
    omega (arith, recv_body-shorter max_size (bit_or (hi * 2 ^ 8) lo) stream msg rest h)

module _ {S T : Type 0} (net : Inet) (ops : Backend S T) (hmac : Bytes → Bytes → Bytes)
    (max_size : ℕ) (clock : ℕ → Clocks) (accepts : ℕ → Bool) (peer : Bytes) where
  -- The session on messages, which knows nothing of streams.
  pub serve_messages : ℕ → Engine S → List Bytes → List Bytes × Bool × Engine S
  serve_messages k e [] = ([], false, e)
  serve_messages k e (msg ∷ msgs) =
      let (turn, e') = take_turn net ops hmac (clock k) e peer msg in
      follow net ops hmac max_size clock accepts peer k turn e' (serve_messages (suc k) e' msgs)

  -- A session is bounded: once the fuel passes the number of bytes on the stream, more of it changes
  -- nothing, whatever the bytes are.
  pub serve_fuel :
      (f g k : ℕ) (e : Engine S) (stream : Bytes)
      → length stream < f
      → length stream < g
      → serve net ops hmac max_size clock accepts peer f k e stream
        ≡ serve net ops hmac max_size clock accepts peer g k e stream
  unfolding serve
  serve_fuel zero g k e stream p q = absurd (omega arith)
  serve_fuel (suc f) zero k e stream p q = absurd (omega arith)
  serve_fuel (suc f) (suc g) k e stream p q =
      elim (Option-cases (recv_dns_message max_size stream)) [
        | inl h ↦ rw (h, serve) refl
        | inr ((msg, rest), h) ↦
            (let (turn, e') = take_turn net ops hmac (clock k) e peer msg in
              rw (h, serve)
                (ap (λ t. follow net ops hmac max_size clock accepts peer k turn e' t)
                  (serve_fuel f g (suc k) e' rest
                    (omega (arith, recv_dns_message-shorter max_size stream msg rest h))
                    (omega (arith, recv_dns_message-shorter max_size stream msg rest h)))))
      ]
