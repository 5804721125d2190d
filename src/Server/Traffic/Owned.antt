-- ===== src/Server/Traffic/Owned.antt =====
-- Which descriptors are open while a server runs.
use simple_dnsd.Base.{
  ℕ, zero, suc, ◌+◌, ◌≤◌, ◌≡◌, refl, inl, inr, Bool, true, false, ◌||◌, Option, none, some, List,
  [], ◌∷◌, ◌==◌, ltb, if◌then◌else◌, Bytes, arith, Option-cases,
}
use simple_dnsd.Inet.{Inet}
use simple_dnsd.Net.Calls.{Os}
use simple_dnsd.Net.{Socket, close, accept_connection, connect_to}
use simple_dnsd.Net.Owned.{
  fd_of, IsTable, Keeps, send_once-is_open, send_to-is_open, recv_from-is_open,
}
use simple_dnsd.Net.Owned.Streams.{accept_connection-Keeps, connect_to-Keeps}
use simple_dnsd.Server.Sessions.{admits}
use simple_dnsd.Server.Lifecycle.{DnsServer}
use simple_dnsd.Server.Lifecycle.Owned.{OwnsSockets}
use simple_dnsd.Server.Traffic.{
  Task, accepts_tcp, accepts_api, connects, notifies, takes_packet, sends_packet, waits, reads,
  writes, ends, take_out, Open, join, join_admitted, drop_one, close_all, run_task, run_tasks,
}

-- How often a descriptor stands among the connections.
abbrev pub times : List ℕ → ℕ → ℕ
times [] g = 0
times (c ∷ conns) g = (if g == c then 1 else 0) + times conns g

-- The connections and what was open before.
abbrev pub with_conns : List ℕ → (ℕ → Bool) → ℕ → Bool
with_conns conns base g = ltb 0 (times conns g) || base g

times-take_out :
    (n : ℕ) (conns : List ℕ) (g : ℕ) {c : ℕ} {rest : List ℕ}
    → take_out n conns ≡ some (c, rest)
    → times conns g ≡ (if g == c then 1 else 0) + times rest g
unfolding take_out
times-take_out n [] g h = absurd (ground arith)
times-take_out zero (c ∷ conns) g h = ground (arith, h)
times-take_out (suc n) (c ∷ conns) g h = elim (Option-cases (take_out n conns)) [
  | inl e ↦ absurd (ground (arith, e, h))
  | inr ((d, rest), e) ↦ ground (arith, e, h, times-take_out n conns g e)
]

module _ {W : Type 0} {os : Os W} {open_in : W → ℕ → Bool} (t : IsTable os open_in)
    (base : ℕ → Bool) (net : Inet) (udp tcp api : Socket) where
  -- What is open is what the three sockets hold, the connections, and what was open before there was a server;
  -- no connection is there twice or was open before.
  abbrev pub OwnsOpen : Open W → Type 0
  OwnsOpen (conns, w) =
      OwnsSockets open_in (with_conns conns base) udp tcp api w
      × ((g : ℕ) → times conns g + (if base g then 1 else 0) ≤ 1)

  -- A call that leaves the table alone.
  same-OwnsOpen :
      (conns : List ℕ) (w w' : W)
      → ((g : ℕ) → open_in w' g ≡ open_in w g)
      → OwnsOpen (conns, w)
      → OwnsOpen (conns, w')
  unfolding OwnsSockets
  same-OwnsOpen conns w w' same o = ((λ g. ground (arith, same g, o.0 g)), o.1)

  new-OwnsOpen :
      (conns : List ℕ) (w w' : W) (fd : ℕ)
      → Keeps open_in w none (some fd, w')
      → OwnsOpen (conns, w)
      → OwnsOpen (fd ∷ conns, w')
  unfolding OwnsSockets
  new-OwnsOpen conns w w' fd new o =
      ((λ g. ground (arith, new g, o.0 g, o.1 g)), (λ g. ground (arith, new g, o.0 g, o.1 g)))

  drop-OwnsOpen :
      (conns rest : List ℕ) (w : W) (fd : ℕ)
      → ((g : ℕ) → times conns g ≡ (if g == fd then 1 else 0) + times rest g)
      → OwnsOpen (conns, w)
      → OwnsOpen (rest, os.close_socket w fd)
  unfolding OwnsSockets
  drop-OwnsOpen conns rest w fd one o = (
    (λ g. ground (arith, one g, t.frees w fd g, o.0 g, o.1 g)),
    (λ g. ground (arith, one g, o.1 g)),
  )

  join-OwnsOpen :
      (conns : List ℕ) (w : W) (p : Option (ℕ × Bytes) × W)
      → Keeps open_in w none (fd_of p.0, p.1)
      → OwnsOpen (conns, w)
      → OwnsOpen (join os conns p)
  unfolding join
  join-OwnsOpen conns w (none, w') new o = same-OwnsOpen conns w w' (λ g. (new g).0) o
  join-OwnsOpen conns w (some (fd, peer), w') new o = new-OwnsOpen conns w w' fd new o

  join_admitted-OwnsOpen :
      (admitted : Bool) (conns : List ℕ) (w : W) (p : Option (ℕ × Bytes) × W)
      → Keeps open_in w none (fd_of p.0, p.1)
      → OwnsOpen (conns, w)
      → OwnsOpen (join_admitted os admitted conns p)
  unfolding join_admitted close
  join_admitted-OwnsOpen admitted conns w (none, w') new o =
      same-OwnsOpen conns w w' (λ g. (new g).0) o
  join_admitted-OwnsOpen true conns w (some (fd, peer), w') new o = new-OwnsOpen conns w w' fd new o
  join_admitted-OwnsOpen false conns w (some (fd, peer), w') new o =
      same-OwnsOpen conns w (os.close_socket w' fd) (λ g. ground (arith, t.frees w' fd g, new g)) o

  drop_one-OwnsOpen :
      (conns : List ℕ) (w : W) (n : ℕ)
      → OwnsOpen (conns, w)
      → OwnsOpen (drop_one os w conns (take_out n conns))
  unfolding drop_one close
  drop_one-OwnsOpen conns w n o = elim (Option-cases (take_out n conns)) [
    | inl e ↦ rw e o
    | inr ((fd, rest), e) ↦ rw e (drop-OwnsOpen conns rest w fd (λ g. times-take_out n conns g e) o)
  ]

  -- Behind the sessions' ends only what was open before there was a server is, beside the three sockets.
  pub close_all-OwnsOpen :
      (conns : List ℕ) (w : W) → OwnsOpen (conns, w) → OwnsOpen ([], close_all os (conns, w))
  unfolding close_all close
  close_all-OwnsOpen [] w o = o
  close_all-OwnsOpen (fd ∷ conns) w o =
      close_all-OwnsOpen conns (os.close_socket w fd)
        (drop-OwnsOpen (fd ∷ conns) conns w fd (λ g. refl) o)

module _ {S W : Type 0} {os : Os W} {open_in : W → ℕ → Bool} (t : IsTable os open_in)
    (base : ℕ → Bool) (net : Inet) (sv : DnsServer S) where
  abbrev pub OwnsAll : Open W → Type 0
  OwnsAll o = OwnsOpen t base net sv.udp sv.tcp sv.api o

  abbrev unchanged :
      (conns : List ℕ) (w w' : W)
      → ((g : ℕ) → open_in w' g ≡ open_in w g)
      → OwnsAll (conns, w)
      → OwnsAll (conns, w')
  unchanged = same-OwnsOpen t base net sv.udp sv.tcp sv.api

  run_task-OwnsAll :
      (conns : List ℕ) (w : W) (task : Task)
      → OwnsAll (conns, w)
      → OwnsAll (run_task os net sv (conns, w) task)
  unfolding run_task
  run_task-OwnsAll conns w (accepts_tcp count) o =
      join_admitted-OwnsOpen t base net sv.udp sv.tcp sv.api
        (admits sv.config.max_tcp_sessions count) conns w (accept_connection os net w sv.tcp 200)
        (accept_connection-Keeps t net w sv.tcp 200) o
  run_task-OwnsAll conns w accepts_api o =
      join-OwnsOpen t base net sv.udp sv.tcp sv.api conns w (accept_connection os net w sv.api 200)
        (accept_connection-Keeps t net w sv.api 200) o
  run_task-OwnsAll conns w (connects host port) o =
      join-OwnsOpen t base net sv.udp sv.tcp sv.api conns w (connect_to os net w host port)
        (connect_to-Keeps t net w host port) o
  run_task-OwnsAll conns w (notifies host port query timeout max_size) o =
      unchanged conns w _ (send_once-is_open t net w host port query timeout max_size) o
  run_task-OwnsAll conns w (takes_packet timeout max_size) o =
      unchanged conns w _ (recv_from-is_open t net w sv.udp timeout max_size) o
  run_task-OwnsAll conns w (sends_packet bytes dest) o =
      unchanged conns w _ (send_to-is_open t net w sv.udp bytes dest) o
  run_task-OwnsAll conns w (waits fd timeout) o =
      unchanged conns w _ (t.after_poll w (some fd) timeout) o
  run_task-OwnsAll conns w (reads fd n) o = unchanged conns w _ (t.after_read w fd n) o
  run_task-OwnsAll conns w (writes fd bytes) o = unchanged conns w _ (t.after_write w fd bytes) o
  run_task-OwnsAll conns w (ends n) o =
      drop_one-OwnsOpen t base net sv.udp sv.tcp sv.api conns w n o

  -- Whatever the threads do, and in whatever order, the sockets and the connections are open and nothing
  -- else is beside what was open before.
  pub run_tasks-OwnsAll :
      (o : Open W) (tasks : List Task) → OwnsAll o → OwnsAll (run_tasks os net sv o tasks)
  unfolding run_tasks
  run_tasks-OwnsAll o [] h = h
  run_tasks-OwnsAll o (task ∷ tasks) h =
      run_tasks-OwnsAll (run_task os net sv o task) tasks (run_task-OwnsAll o.0 o.1 task h)
