-- ===== src/Server/Tcp.antt =====
-- `DnsServer::handleTcp` of src/simple-dnsd/core/server.cpp: one TCP session, over the stream of bytes
-- that the peer sends until it closes the connection, falls silent or the server stops. `accepts k` says
-- whether the `k`-th reply can be written, and `clock k` gives the clocks at the `k`-th
-- message; `max_size` is `config_.max_packet_size`.
pub mod Session
use simple_dnsd.Base.{
  ℕ, zero, suc, ◌+◌, Bool, true, false, ◌||◌, Option, none, some, List, [], ◌∷◌, ◌++◌, ◌==◌,
  if◌then◌else◌, Bytes, length,
}
use simple_dnsd.Outcome.{Outcome, ok, thrown}
use simple_dnsd.Text.Number.{stoi, wrap_int}
use simple_dnsd.Record.{Question, DnsMessage}
use simple_dnsd.Record.RrType
use simple_dnsd.Inet.{Inet}
use simple_dnsd.Message.{encode_message, decode_message}
use simple_dnsd.Backend.{Backend}
use simple_dnsd.Engine.State.{QueryContext, count_up, Engine}
use simple_dnsd.Engine.Transfer.{handle_axfr}
use simple_dnsd.Engine.Update.{last_colon}
use simple_dnsd.Engine.Handle.{Clocks, handle, with_stats}
use simple_dnsd.Server.Frame.{recv_dns_message}

-- The host and the port of `conn.peer()`, split at the last colon.
unfoldable pub peer_address : Bytes → Outcome (Bytes × ℕ)
unfolding last_colon stoi
peer_address peer = elim (last_colon peer) [
  | none ↦ ok (peer, 0)
  | some (host, port) ↦ elim (stoi 10 port) [ ok v ↦ ok (host, wrap_int 16 v) | thrown ↦ thrown ]
]

-- The question that the test for a transfer looks at.
abbrev pub asks_transfer : List Question → Bool
asks_transfer [] = false
asks_transfer (q ∷ qs) = q.qtype == RrType.axfr || q.qtype == RrType.ixfr

-- What one message makes of the session: it is left with no reply, by an exception or after a transfer,
-- or it goes on behind a reply.
pub data Turn : Type 0 where
  hang_up abort : Turn
  finish go_on : Bytes → Turn

module _ {S T : Type 0} (net : Inet) (ops : Backend S T) (hmac : Bytes → Bytes → Bytes) where
  -- A transfer goes past `handle`.
  unfoldable pub answer_tcp : Clocks → Engine S → DnsMessage → QueryContext → Turn × Engine S
  unfolding handle handle_axfr encode_message
  answer_tcp now e query ctx =
      let (transferred, stats) = handle_axfr hmac ops now.seconds e query ctx in
      let (answered, e') = handle net ops hmac now e query ctx in
      if asks_transfer query.questions
      then (finish (encode_message transferred 0).0, with_stats net ops e stats)
      else elim answered [ thrown ↦ (abort, e') | ok resp ↦ (go_on (encode_message resp 0).0, e') ]

  unfoldable pub take_turn : Clocks → Engine S → Bytes → Bytes → Turn × Engine S
  unfolding decode_message answer_tcp peer_address
  take_turn now e peer msg = elim (decode_message net msg) [
    | none ↦ (hang_up, e)
    | some query ↦ elim (peer_address peer) [
      | thrown ↦ (abort, e)
      | ok (host, port) ↦
          answer_tcp now e query
            (record { peer_host = host; peer_port = port; tcp = true; raw = msg })
    ]
  ]

  module _ (max_size : ℕ) (clock : ℕ → Clocks) (accepts : ℕ → Bool) (peer : Bytes) where
    -- The replies that are written, whether an exception ends the session, and the engine after it.
    abbrev pub Served : Type 0
    Served = List Bytes × Bool × Engine S

    -- What follows a turn: `rest` is the session behind it.
    unfoldable pub follow : ℕ → Turn → Engine S → Served → Served
    follow k hang_up e rest = ([], false, e)
    follow k abort e rest = ([], true, e)
    follow k (finish reply) e rest = ((if accepts k then reply ∷ [] else []), false, e)
    follow k (go_on reply) e rest =
        if accepts k then (reply ∷ rest.0, rest.1, rest.2) else ([], false, e)

    -- The loop of the session. Each round takes a message off the stream, so the number of its bytes
    -- bounds the rounds.
    unfoldable pub serve : ℕ → ℕ → Engine S → Bytes → Served
    serve zero k e stream = ([], false, e)
    serve (suc fuel) k e stream = elim (recv_dns_message max_size stream) [
      | none ↦ ([], false, e)
      | some (msg, rest) ↦
          (let (turn, e') = take_turn (clock k) e peer msg in
            follow k turn e' (serve fuel (suc k) e' rest))
    ]

    unfoldable pub handle_tcp : Engine S → Bytes → Served
    unfolding serve
    handle_tcp e stream =
        serve (suc (length stream)) 0
          (with_stats net ops e (record (e.stats) { tcp_sessions = count_up e.stats.tcp_sessions }))
          stream
