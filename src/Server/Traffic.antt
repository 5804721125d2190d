-- ===== src/Server/Traffic.antt =====
-- What the threads of a running server do with descriptors: a round of `tcpLoop`, `apiLoop` and
-- `refreshSecondaries` of src/simple-dnsd/core/server.cpp up to the connection it comes to, what is read and
-- written there, and its end, and NOTIFY of src/simple-dnsd/core/engine.cpp. The calls of all threads are
-- one sequence, in whatever order they come.
pub mod Owned
use simple_dnsd.Base.{
  ℕ, zero, suc, Bool, true, false, Option, none, some, List, [], ◌∷◌, if◌then◌else◌, Bytes,
}
use simple_dnsd.Inet.{Inet}
use simple_dnsd.Net.Calls.{Os}
use simple_dnsd.Net.{
  Socket, SockAddr, close, send_to, recv_from, send_once, accept_connection, connect_to,
}
use simple_dnsd.Server.Sessions.{admits}
use simple_dnsd.Server.Lifecycle.{DnsServer}

-- `accepts_tcp` has the number of sessions that `tcpLoop` reads. A connection ends by its place among those
-- that are open.
pub data Task : Type 0 where
  accepts_tcp : ℕ → Task
  accepts_api : Task
  connects : Bytes → ℕ → Task
  notifies : Bytes → ℕ → Bytes → ℕ → ℕ → Task
  takes_packet : ℕ → ℕ → Task
  sends_packet : Bytes → SockAddr → Task
  waits : ℕ → ℕ → Task
  reads : ℕ → ℕ → Task
  writes : ℕ → Bytes → Task
  ends : ℕ → Task

take_out : ℕ → List ℕ → Option (ℕ × List ℕ)
take_out n [] = none
take_out zero (c ∷ conns) = some (c, conns)
take_out (suc n) (c ∷ conns) = elim (take_out n conns) [
  | none ↦ none
  | some (d, rest) ↦ some (d, c ∷ rest)
]

-- The connections that are open, with the system.
abbrev pub Open : Type 0 → Type 0
Open W = List ℕ × W

module _ {W : Type 0} (os : Os W) where
  -- A connection that is there joins the others.
  unfoldable pub join : List ℕ → Option (ℕ × Bytes) × W → Open W
  join conns (none, w) = (conns, w)
  join conns (some (fd, peer), w) = (fd ∷ conns, w)

  -- `tcpLoop`: one too many is closed as it goes out of scope.
  unfoldable pub join_admitted : Bool → List ℕ → Option (ℕ × Bytes) × W → Open W
  unfolding close
  join_admitted admitted conns (none, w) = (conns, w)
  join_admitted admitted conns (some (fd, peer), w) =
      if admitted then (fd ∷ conns, w) else (conns, (close os w (some fd)).1)

  -- The destructor of a connection.
  unfoldable pub drop_one : W → List ℕ → Option (ℕ × List ℕ) → Open W
  unfolding close
  drop_one w conns none = (conns, w)
  drop_one w conns (some (fd, rest)) = (rest, (close os w (some fd)).1)

  -- The sessions that `stop` waits for, one behind the other.
  unfoldable pub close_all : Open W → W
  unfolding close
  close_all ([], w) = w
  close_all (fd ∷ conns, w) = close_all (conns, (close os w (some fd)).1)

module _ {S W : Type 0} (os : Os W) (net : Inet) (sv : DnsServer S) where
  unfoldable pub run_task : Open W → Task → Open W
  unfolding join join_admitted drop_one take_out admits
  run_task (conns, w) (accepts_tcp count) =
      join_admitted os (admits sv.config.max_tcp_sessions count) conns
        (accept_connection os net w sv.tcp 200)
  run_task (conns, w) accepts_api = join os conns (accept_connection os net w sv.api 200)
  run_task (conns, w) (connects host port) = join os conns (connect_to os net w host port)
  run_task (conns, w) (notifies host port query timeout max_size) =
      (conns, (send_once os net w host port query timeout max_size).1)
  run_task (conns, w) (takes_packet timeout max_size) =
      (conns, (recv_from os net w sv.udp timeout max_size).1)
  run_task (conns, w) (sends_packet bytes dest) = (conns, (send_to os net w sv.udp bytes dest).1)
  run_task (conns, w) (waits fd timeout) = (conns, (os.poll w (some fd) timeout).1)
  run_task (conns, w) (reads fd n) = (conns, (os.recv w fd n).1)
  run_task (conns, w) (writes fd bytes) = (conns, (os.send w fd bytes).1)
  run_task (conns, w) (ends n) = drop_one os w conns (take_out n conns)

  unfoldable pub run_tasks : Open W → List Task → Open W
  unfolding run_task
  run_tasks o [] = o
  run_tasks o (task ∷ tasks) = run_tasks (run_task o task) tasks
