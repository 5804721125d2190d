-- ===== src/Program.antt =====
-- src/main/simple-dnsd.cpp, the program, with the wrapper of src/simple-dnsd/core/daemon.cpp. The files that it
-- reads and the system are parameters; what it prints is left out. Between the start and the stop the
-- main thread only waits for a signal; what the other threads do with sockets and connections, until
-- they are joined, is a parameter, any list of tasks.
pub mod Closed
use simple_dnsd.Base.{
  ℕ, Bool, true, false, not, ◌&&◌, ◌||◌, Option, none, some, List, [], ◌∷◌, ◌==◌, if◌then◌else◌,
  Bytes, codes, str_eq,
}
use simple_dnsd.Outcome.{Outcome, ok, thrown}
use simple_dnsd.Inet.{Inet}
use simple_dnsd.Backend.{Backend}
use simple_dnsd.Router.Launch.{Factories}
use simple_dnsd.Config.{DnsConfig, default_config}
use simple_dnsd.Config.Load.{load_from_file}
use simple_dnsd.Net.Calls.{Os}
use simple_dnsd.Server.Traffic.{Task, run_tasks, close_all}
use simple_dnsd.Server.Lifecycle.{DnsServer, new_server, test_config, start, stop}

-- How the program ends: with a code, or by an exception that nothing catches.
pub data Finish : Type 0 where
  exit : ℕ → Finish
  crash : Finish

pub record Options : Type 0 where
  pub config : DnsConfig
  pub command : Bytes
  pub test : Bool

abbrev pub default_options : Options
default_options = record { config = default_config; command = codes "start"; test = false }

abbrev either : Bytes → Bytes → Bytes → Bool
either arg long short = str_eq arg long || str_eq arg short

abbrev is_command : Bytes → Bool
is_command [] = false
is_command (c ∷ arg) = not (c == b'-')

-- An argument that neither ends the program nor takes another one.
unfoldable pub set_option : Options → Bytes → Options
set_option o arg =
    if either arg (codes "--foreground") (codes "-f")
    then record o { config = record (o.config) { foreground = true } }
    else if either arg (codes "--daemon") (codes "-d")
    then record o { config = record (o.config) { foreground = false } }
    else if str_eq arg (codes "--test-config")
    then record o { test = true }
    else if is_command arg
    then record o { command = arg }
    else o

-- What the arguments come to: an end of the program, or the options it goes on with.
pub data Parsed : Type 0 where
  ends : Finish → Parsed
  runs : Options → Parsed

-- What follows the reading of a configuration file.
unfoldable pub after_load : Outcome Bool × DnsConfig → Options → (Options → Parsed) → Parsed
after_load (thrown, config) o next = ends crash
after_load (ok false, config) o next = ends (exit 1)
after_load (ok true, config) o next = next (record o { config = config })

module _ (read_file : Bytes → Option Bytes) where
  -- The loop over the arguments; `wants_file` says that the one before was `--config`.
  unfoldable pub parse_args : Bool → Options → List Bytes → Parsed
  unfolding set_option load_from_file after_load
  parse_args true o [] = ends (exit 1)
  parse_args false o [] = runs o
  parse_args true o (path ∷ args) =
      after_load (load_from_file o.config (read_file path)) o (λ o'. parse_args false o' args)
  parse_args false o (arg ∷ args) =
      let file = parse_args true o args in
      let rest = parse_args false (set_option o arg) args in
      if either arg (codes "--help") (codes "-h") || either arg (codes "--version") (codes "-v")
      then ends (exit 0)
      else if either arg (codes "--config") (codes "-c")
      then file
      else rest

abbrev code_of : Outcome Bool → Finish
code_of thrown = crash
code_of (ok true) = exit 0
code_of (ok false) = exit 1

module _ {S T W : Type 0} (os : Os W) (net : Inet) (ops : Backend S T) (make : Factories S) where
  -- `DnsDaemon::testConfig`
  unfoldable pub test_daemon : DnsConfig → Outcome Bool
  unfolding new_server test_config
  test_daemon config =
      let (made, sv) = new_server ops make config in
      elim made [ thrown ↦ thrown | ok b ↦ (test_config ops sv).0 ]

  -- The end of the program, given the system before the start, behind it, behind the stop of a server that
  -- did not start, and behind the stop of one that did.
  unfoldable pub finish_with : Outcome Bool → Outcome Bool → W → W → W → W → Finish × W
  finish_with thrown started w w1 stopped served = (crash, w)
  finish_with (ok made) thrown w w1 stopped served = (crash, w1)
  finish_with (ok made) (ok true) w w1 stopped served = (exit 0, served)
  finish_with (ok made) (ok false) w w1 stopped served = (exit 1, stopped)

  -- The stop of a running server, between what its threads do before the sockets are closed and what they do
  -- until they are joined; the connections that are left then are closed.
  unfoldable pub live_and_stop : DnsServer S → List Task → List Task → W → W
  unfolding stop run_tasks close_all
  live_and_stop sv during after w =
      let (conns, w1) = run_tasks os net sv ([], w) during in
      let (sv', w2) = stop os net sv w1 in close_all os (run_tasks os net sv' (conns, w2) after)

  -- The start, the wait and the stop. A server that does not start is destroyed, which stops it as well.
  unfoldable pub serve_daemon : DnsConfig → List Task → List Task → W → Finish × W
  unfolding new_server start stop live_and_stop finish_with
  serve_daemon config during after w =
      let (made, sv) = new_server ops make config in
      let (started, sv', w1) = start os net ops sv w in
      finish_with made started w w1 (stop os net sv' w1).1 (live_and_stop sv' during after w1)

  unfoldable pub run_options : Options → List Task → List Task → W → Finish × W
  unfolding test_daemon serve_daemon
  run_options o during after w =
      let c = o.command in
      if o.test || str_eq c (codes "test")
      then (code_of (test_daemon o.config), w)
      else if str_eq c (codes "stop") || str_eq c (codes "reload") || str_eq c (codes "status")
      then (exit 2, w)
      else serve_daemon o.config during after w

  -- `main`
  unfoldable pub main : (Bytes → Option Bytes) → List Bytes → List Task → List Task → W → Finish × W
  unfolding parse_args run_options
  main read_file args during after w = elim (parse_args read_file false default_options args) [
    | ends finish ↦ (finish, w)
    | runs o ↦ run_options o during after w
  ]
