-- ===== src/Server/Udp.antt =====
-- `DnsServer::udpLoop` of src/simple-dnsd/core/server.cpp. With one worker thread at most it answers each packet
-- itself, in the order in which they come; with more it hands each to a thread of its own.
pub mod Noise
pub mod Workers
use simple_dnsd.Base.{
  ℕ, ◌*◌, ◌%◌, ◌^◌, Bool, true, false, Option, none, some, List, [], ◌∷◌, ◌++◌, ltb, if◌then◌else◌,
  Bytes, length,
}
use simple_dnsd.Outcome.{Outcome, ok, thrown}
use simple_dnsd.Inet.{Inet}
use simple_dnsd.Backend.{Backend}
use simple_dnsd.Engine.State.{Engine}
use simple_dnsd.Engine.Handle.{Clocks}
use simple_dnsd.Net.{SockAddr}
use simple_dnsd.Server.{handle_udp_query}

-- A round of the loop: the clocks, and what `recvFrom` gives, `none` where it fails or runs out of time.
abbrev pub Round : Type 0
Round = Clocks × Option (Bytes × SockAddr)

-- A thread of `workers_`: it answers a packet, or it serves a connection of `tcpLoop`.
pub data Worker : Type 0 where
  answers : Bytes → SockAddr → Worker
  serves : ℕ → Worker

-- A packet's worker joins the others, all of which are waited for and dropped once they are too many.
unfoldable pub add_answer : ℕ → List Worker → Bytes → SockAddr → List Worker
add_answer worker_threads workers packet src =
    let all = workers ++ answers packet src ∷ [] in
    if ltb (worker_threads * 4 % 2 ^ 32) (length all) then [] else all

module _ {S T : Type 0} (net : Inet) (ops : Backend S T) (hmac : Bytes → Bytes → Bytes) where
  -- What is sent and to whom, whether an exception ends the program, and the engine after it.
  abbrev pub Answered : Type 0
  Answered = List (SockAddr × Bytes) × Bool × Engine S

  -- What follows one packet: `rest` is what the loop does behind it.
  unfoldable pub after_query :
      SockAddr → Outcome (Option Bytes) × Engine S → (Engine S → Answered) → Answered
  after_query src (thrown, e) rest = ([], true, e)
  after_query src (ok none, e) rest = rest e
  after_query src (ok (some reply), e) rest = ((src, reply) ∷ (rest e).0, (rest e).1, (rest e).2)

  -- The loop where each packet is answered in its turn, over the rounds until it is stopped.
  unfoldable pub answer_all : Engine S → List Round → Answered
  unfolding handle_udp_query after_query
  answer_all e [] = ([], false, e)
  answer_all e ((now, none) ∷ rounds) = answer_all e rounds
  answer_all e ((now, some (packet, src)) ∷ rounds) =
      after_query src (handle_udp_query net ops hmac now e packet src.host src.port)
        (λ e'. answer_all e' rounds)

  -- `udpLoop`, with the workers that were at hand. What the workers send, and when they call the engine, is not
  -- the loop's: it gives what the loop itself sends and does.
  unfoldable pub udp_loop : ℕ → List Worker → Engine S → List Round → List Worker × Answered
  unfolding handle_udp_query after_query add_answer
  udp_loop worker_threads workers e [] = (workers, ([], false, e))
  udp_loop worker_threads workers e ((now, none) ∷ rounds) =
      udp_loop worker_threads workers e rounds
  udp_loop worker_threads workers e ((now, some (packet, src)) ∷ rounds) =
      elim (ltb 1 worker_threads) [
        | true ↦ udp_loop worker_threads (add_answer worker_threads workers packet src) e rounds
        | false ↦ (
          workers,
          after_query src (handle_udp_query net ops hmac now e packet src.host src.port)
              (λ e'. (udp_loop worker_threads workers e' rounds).1),
        )
      ]

-- A session's worker joins the others.
unfoldable pub add_session : List Worker → ℕ → List Worker
add_session workers c = workers ++ serves c ∷ []

-- The worker comes from either loop.
unfoldable pub add_worker : ℕ → List Worker → Worker → List Worker
unfolding add_answer add_session
add_worker worker_threads workers (answers packet src) =
    add_answer worker_threads workers packet src
add_worker worker_threads workers (serves c) = add_session workers c

unfoldable pub add_workers : ℕ → List Worker → List Worker → List Worker
unfolding add_worker
add_workers worker_threads workers [] = workers
add_workers worker_threads workers (w ∷ ws) =
    add_workers worker_threads (add_worker worker_threads workers w) ws
