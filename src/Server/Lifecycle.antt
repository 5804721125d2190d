-- ===== src/Server/Lifecycle.antt =====
-- The life of a `DnsServer` of src/simple-dnsd/core/server.cpp, with the constructor of
-- `AuthoritativeEngine` and the wrapper of src/simple-dnsd/core/daemon.cpp. `W` is the state of the
-- operating system. The router and the counters, which the engine refers to, stand in the engine from the
-- moment it is there; the logger is left out, and so are the workers' threads.
pub mod Idle
pub mod Owned
pub mod Serving
use simple_dnsd.Base.{
  ℕ, Bool, true, false, not, ◌&&◌, ◌||◌, Option, none, some, List, [], ◌∷◌, ◌++◌, if◌then◌else◌,
  Bytes, codes, is_empty,
}
use simple_dnsd.Outcome.{Outcome, ok, thrown}
use simple_dnsd.Inet.{Inet}
use simple_dnsd.StringMap
use simple_dnsd.Name.{parse}
use simple_dnsd.Tsig.{TsigKey}
use simple_dnsd.Tsig.Base64.{decode_base64}
use simple_dnsd.Backend.{Backend}
use simple_dnsd.Router
use simple_dnsd.Router.Launch.{Factories, load_backends}
use simple_dnsd.Config.{DnsConfig}
use simple_dnsd.Config.Validate.{validate}
use simple_dnsd.Engine.State.{ServerStats, Engine}
use simple_dnsd.Engine.Cache.{new_cache}
use simple_dnsd.Net.Calls.{Os}
use simple_dnsd.Net.{
  Socket, close, is_open, bound_port, bind_address, bind_and_listen, drop_privileges,
}

-- What a thread of the server runs.
pub data Loop : Type 0 where
  udp_loop tcp_loop api_loop secondary_loop : Loop

pub record DnsServer (S : Type 0) : Type 0 where
  pub config : DnsConfig
  pub backends : List S
  pub stats : ServerStats
  pub engine : Option (Engine S)
  pub udp : Socket
  pub tcp : Socket
  pub api : Socket
  pub dns_port : ℕ
  pub api_port : ℕ
  pub running : Bool
  pub threads : List Loop

abbrev pub no_stats : ServerStats
no_stats = record {
  queries = 0;
  answers = 0;
  nxdomain = 0;
  refused = 0;
  axfr = 0;
  updates = 0;
  cache_hits = 0;
  cache_misses = 0;
  truncated = 0;
  tcp_sessions = 0;
}

-- The key of the configuration; a secret that is no base 64 counts as far as it was read.
unfoldable pub configured_keys : DnsConfig → List TsigKey
unfolding parse decode_base64
configured_keys config =
    if not (is_empty config.tsig_key_name) && not (is_empty config.tsig_key_secret)
    then (record {
      name = parse config.tsig_key_name;
      algorithm = codes "hmac-sha256.";
      secret = (decode_base64 config.tsig_key_secret).1;
    })
      ∷ []
    else []

module _ {S : Type 0} where
  -- The constructor of `AuthoritativeEngine`.
  unfoldable pub new_engine : List S → DnsConfig → ServerStats → Engine S
  unfolding configured_keys
  new_engine backends config stats = record {
    backends = backends;
    config = config;
    stats = stats;
    cache = new_cache config.cache_size;
    limiter = record { rate = config.rrl_rate; buckets = StringMap.empty };
    tsig_keys = configured_keys config;
    effects = [];
  }

  abbrev pub router_of : DnsServer S → List S
  router_of sv = elim sv.engine [ none ↦ sv.backends | some e ↦ e.backends ]

  abbrev pub stats_of : DnsServer S → ServerStats
  stats_of sv = elim sv.engine [ none ↦ sv.stats | some e ↦ e.stats ]

  unfoldable pub with_backends : DnsServer S → List S → DnsServer S
  with_backends sv backends = elim sv.engine [
    | none ↦ record sv { backends = backends }
    | some e ↦ record sv { engine = some (record e { backends = backends }) }
  ]

  abbrev pub fresh_server : DnsConfig → List S → DnsServer S
  fresh_server config backends = record {
    config = config;
    backends = backends;
    stats = no_stats;
    engine = none;
    udp = none;
    tcp = none;
    api = none;
    dns_port = 0;
    api_port = 0;
    running = false;
    threads = [];
  }

-- A step of `start`: whether it succeeds, with the server and the system behind it.
abbrev pub Step : Type 0 → Type 0 → Type 0
Step S W = Bool × DnsServer S × W

-- `if (!first) { return false; }` and then the rest.
unfoldable pub and_then : {S W : Type 0} → Step S W → (DnsServer S → W → Step S W) → Step S W
and_then (true, sv, w) next = next sv w
and_then (false, sv, w) next = (false, sv, w)

module _ {S T : Type 0} (ops : Backend S T) where
  -- The constructor of `DnsServer`; what `loadBackends` returns is not looked at.
  unfoldable pub new_server : Factories S → DnsConfig → Outcome Bool × DnsServer S
  unfolding load_backends
  new_server make config =
      let (done, backends) = load_backends make config ops [] in
      (done, fresh_server config backends)

  -- `testConfig`
  unfoldable pub test_config : DnsServer S → Outcome Bool × DnsServer S
  unfolding validate Router.initialize with_backends
  test_config sv =
      let (done, backends) = Router.initialize ops (router_of sv) in
      if validate sv.config then (done, with_backends sv backends) else (ok false, sv)

module _ {S W : Type 0} (os : Os W) (net : Inet) where
  unfoldable pub open_udp : DnsServer S → W → Step S W
  unfolding bind_address bound_port
  open_udp sv w =
      let (sock, w') = bind_address os net w sv.udp sv.config.listen_address sv.config.dns_port in
      if is_open os sock
      then (true, record sv { udp = sock; dns_port = bound_port os w' sock }, w')
      else (false, record sv { udp = sock }, w')

  -- The port is the one that UDP got.
  unfoldable pub open_tcp : DnsServer S → W → Step S W
  unfolding bind_and_listen
  open_tcp sv w =
      let (sock, w') = bind_and_listen os net w sv.tcp sv.config.listen_address sv.dns_port in
      (is_open os sock, record sv { tcp = sock }, w')

  unfoldable pub listen_api : DnsServer S → W → Step S W
  unfolding bind_and_listen bound_port
  listen_api sv w =
      let (sock, w') = bind_and_listen os net w sv.api sv.config.api_listen sv.config.api_port in
      if is_open os sock
      then (true, record sv { api = sock; api_port = bound_port os w' sock }, w')
      else (false, record sv { api = sock }, w')

  unfoldable pub open_api : DnsServer S → W → Step S W
  unfolding listen_api
  open_api sv w = if sv.config.enable_api then listen_api sv w else (true, sv, w)

  unfoldable pub leave_root : DnsServer S → W → Step S W
  unfolding drop_privileges
  leave_root sv w = let (done, w') = drop_privileges os w sv.config.service_user in (done, sv, w')

  unfoldable pub run_loops : DnsServer S → W → Step S W
  run_loops sv w =
      let api = (if sv.config.enable_api then api_loop ∷ [] else []) in
      (
        true,
        record sv { running = true; threads = udp_loop ∷ tcp_loop ∷ api ++ secondary_loop ∷ [] },
        w,
      )

  -- `start` behind the engine's construction.
  unfoldable pub open_all : DnsServer S → W → Step S W
  unfolding open_udp open_tcp open_api leave_root run_loops and_then
  open_all sv w =
      and_then (and_then (and_then (and_then (open_udp sv w) open_tcp) open_api) leave_root)
        run_loops

  -- `start` behind the initialisation of the backends, by its outcome.
  unfoldable pub start_with :
      Outcome Bool → List S → DnsServer S → W → Outcome Bool × DnsServer S × W
  unfolding open_all new_engine with_backends
  start_with thrown backends sv w = (thrown, with_backends sv backends, w)
  start_with (ok false) backends sv w = (ok false, with_backends sv backends, w)
  start_with (ok true) backends sv w =
      let engine = new_engine backends sv.config (stats_of sv) in
      let (opened, sv', w') = open_all (record sv { engine = some engine }) w in
      (ok opened, sv', w')

  -- `start`
  unfoldable pub start :
      {T : Type 0} → Backend S T → DnsServer S → W → Outcome Bool × DnsServer S × W
  unfolding start_with Router.initialize
  start ops sv w =
      let (done, backends) = Router.initialize ops (router_of sv) in start_with done backends sv w

  -- `stop` without its joins: what the threads do until they end is in Program.antt.
  unfoldable pub stop : DnsServer S → W → DnsServer S × W
  unfolding close
  stop sv w =
      let (udp, w1) = close os w sv.udp in
      let (tcp, w2) = close os w1 sv.tcp in
      let (api, w3) = close os w2 sv.api in
      (record sv { running = false; udp = udp; tcp = tcp; api = api; threads = [] }, w3)
