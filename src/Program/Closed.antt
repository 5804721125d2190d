-- ===== src/Program/Closed.antt =====
-- The program gives back what it took of the system.
use simple_dnsd.Base.{
  ℕ, ◌+◌, ◌≤◌, arith, ◌≡◌, refl, Bool, true, false, ◌||◌, Option, List, [], Bytes, codes, str_eq,
  if◌then◌else◌,
}
use simple_dnsd.Outcome.{Outcome, ok, thrown}
use simple_dnsd.Inet.{Inet}
use simple_dnsd.Backend.{Backend}
use simple_dnsd.Router.Launch.{Factories}
use simple_dnsd.Config.{DnsConfig}
use simple_dnsd.Net.Calls.{Os}
use simple_dnsd.Net.Owned.{IsTable}
use simple_dnsd.Server.Lifecycle.{DnsServer, new_server, start, stop}
use simple_dnsd.Server.Traffic.{Task, run_tasks, close_all}
use simple_dnsd.Server.Traffic.Owned.{with_conns, run_tasks-OwnsAll, close_all-OwnsOpen}
use simple_dnsd.Server.Lifecycle.Owned.{
  OwnsSockets, Owns, start-Owns, stop-start, stop-Owns, stopped-is_open,
}
use simple_dnsd.Program.{
  Finish, exit, crash, finish_with, Options, default_options, Parsed, ends, runs, parse_args,
  code_of, test_daemon, serve_daemon, run_options, main, live_and_stop,
}

module _ {W : Type 0} (open_in : W → ℕ → Bool) where
  -- Nothing is open beside what was open, unless an exception ended the program.
  abbrev pub IsClosed : W → Finish × W → Type 0
  IsClosed w (exit k, w') = (g : ℕ) → open_in w' g ≡ open_in w g
  IsClosed w (crash, w') = Unit

module _ {S T W : Type 0} {os : Os W} {open_in : W → ℕ → Bool} (t : IsTable os open_in) (net : Inet)
    (ops : Backend S T) (make : Factories S) where
  at_most_one : (b : Bool) → 0 + (if b then 1 else 0) ≤ 1
  at_most_one b = ground arith

  finish_with-IsClosed :
      (made started : Outcome Bool) (w w1 stopped served : W)
      → ((g : ℕ) → open_in stopped g ≡ open_in w g)
      → ((g : ℕ) → open_in served g ≡ open_in w g)
      → IsClosed open_in w (finish_with os net ops make made started w w1 stopped served)
  unfolding finish_with
  finish_with-IsClosed thrown started w w1 stopped served c d = tt
  finish_with-IsClosed (ok made) thrown w w1 stopped served c d = tt
  finish_with-IsClosed (ok made) (ok true) w w1 stopped served c d = d
  finish_with-IsClosed (ok made) (ok false) w w1 stopped served c d = c

  -- The connections of a running server do not outlast it.
  live_and_stop-is_open :
      (base : ℕ → Bool) (sv : DnsServer S) (during after : List Task) (w : W) (g : ℕ)
      → Owns open_in base sv w
      → open_in (live_and_stop os net ops make sv during after w) g ≡ base g
  unfolding live_and_stop
  live_and_stop-is_open base sv during after w g o =
      let ran = run_tasks-OwnsAll t base net sv ([], w) during (o, λ g'. at_most_one (base g')) in
      let (conns, w1) = run_tasks os net sv ([], w) during in
      let stopped = stop-Owns t (with_conns conns base) net sv w1 ran.0 in
      let (sv', w2) = stop os net sv w1 in
      let rest = run_tasks-OwnsAll t base net sv' (conns, w2) after (stopped, ran.1) in
      let (conns', w3) = run_tasks os net sv' (conns, w2) after in
      stopped-is_open t base net sv w1 (close_all os (conns', w3)) g
        (close_all-OwnsOpen t base net sv'.udp sv'.tcp sv'.api conns' w3 rest).0

  serve_daemon-IsClosed :
      (config : DnsConfig) (during after : List Task) (w : W)
      → IsClosed open_in w (serve_daemon os net ops make config during after w)
  unfolding serve_daemon new_server OwnsSockets
  serve_daemon-IsClosed config during after w =
      let (made, sv) = new_server ops make config in
      let (started, sv', w1) = start os net ops sv w in
      finish_with-IsClosed made started w w1 (stop os net sv' w1).1
        (live_and_stop os net ops make sv' during after w1)
        (λ g. stop-start t (open_in w) net ops sv w g (λ g'. (refl, (refl, refl, refl))))
        (λ g.
          live_and_stop-is_open (open_in w) sv' during after w1 g
            (start-Owns t (open_in w) net ops sv w (λ g'. (refl, (refl, refl, refl)))))

  if-IsClosed :
      (w : W) (b : Bool) (p q : Finish × W)
      → IsClosed open_in w p
      → IsClosed open_in w q
      → IsClosed open_in w (if b then p else q)
  if-IsClosed w true p q hp hq = hp
  if-IsClosed w false p q hp hq = hq

  same-IsClosed : (w : W) (finish : Finish) → IsClosed open_in w (finish, w)
  same-IsClosed w (exit k) = λ g. refl
  same-IsClosed w crash = tt

  run_options-IsClosed :
      (o : Options) (during after : List Task) (w : W)
      → IsClosed open_in w (run_options os net ops make o during after w)
  unfolding run_options
  run_options-IsClosed o during after w =
      let c = o.command in
      let tested : Finish × W = (code_of (test_daemon os net ops make o.config), w) in
      let refused : Finish × W = (exit 2, w) in
      let served = serve_daemon os net ops make o.config during after w in
      let is_left =
        str_eq c (codes "stop") || str_eq c (codes "reload") || str_eq c (codes "status") in
      if-IsClosed w (o.test || str_eq c (codes "test")) tested (if is_left then refused else served)
        (same-IsClosed w (code_of (test_daemon os net ops make o.config)))
        (if-IsClosed w is_left refused served (same-IsClosed w (exit 2))
          (serve_daemon-IsClosed o.config during after w))

  parsed-IsClosed :
      (parsed : Parsed) (during after : List Task) (w : W)
      → IsClosed open_in w (elim parsed [
        | ends finish ↦ (finish, w)
        | runs o ↦ run_options os net ops make o during after w
      ])
  parsed-IsClosed (ends finish) during after w = same-IsClosed w finish
  parsed-IsClosed (runs o) during after w = run_options-IsClosed o during after w

  -- On a system whose calls change the table of descriptors as `IsTable` says, whatever its arguments are and
  -- whatever its threads do with sockets and connections before the stop and until they are joined,
  -- connections that are refused and a NOTIFY's socket included, the program that ends with an exit
  -- code has closed every descriptor of a socket that it opened and no other, and only an exception
  -- that nothing catches can leave any open.
  pub main-IsClosed :
      (read_file : Bytes → Option Bytes) (args : List Bytes) (during after : List Task) (w : W)
      → IsClosed open_in w (main os net ops make read_file args during after w)
  unfolding main
  main-IsClosed read_file args during after w =
      parsed-IsClosed (parse_args read_file false default_options args) during after w
