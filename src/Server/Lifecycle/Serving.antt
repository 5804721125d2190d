-- ===== src/Server/Lifecycle/Serving.antt =====
-- What `start` promises when it reports success.
use simple_dnsd.Base.{◌≡◌, true, false, List, [], ◌∷◌, some}
use simple_dnsd.Inet.{Inet}
use simple_dnsd.Outcome.{Outcome}
use simple_dnsd.Backend.{Backend}
use simple_dnsd.Router
use simple_dnsd.Engine.State.{Engine}
use simple_dnsd.Net.Calls.{Os}
use simple_dnsd.Net.{is_open}
use simple_dnsd.Server.Lifecycle.{
  Loop, udp_loop, tcp_loop, api_loop, secondary_loop, DnsServer, Step,
}
use simple_dnsd.Server.Lifecycle.Idle.{Idle}

module _ {S W : Type 0} (os : Os W) (net : Inet) where
  -- What the threads of a server need: both DNS sockets, the socket of the API where it is enabled, and
  -- the engine.
  pub record IsReady (sv : DnsServer S) : Type 0 where
    pub udp_open : is_open os sv.udp ≡ true
    pub tcp_open : is_open os sv.tcp ≡ true
    pub api_open : sv.config.enable_api ≡ true → is_open os sv.api ≡ true
    pub has_engine : (e : Engine S) × (sv.engine ≡ some e)

  -- The threads that `start` runs: the loop of the API is one of them just where it is enabled.
  abbrev loops_of : DnsServer S → List Loop
  loops_of sv = elim sv.config.enable_api [
    | true ↦ udp_loop ∷ tcp_loop ∷ api_loop ∷ secondary_loop ∷ []
    | false ↦ udp_loop ∷ tcp_loop ∷ secondary_loop ∷ []
  ]

  -- The server has what its threads need, and they run.
  abbrev pub IsServing : DnsServer S → Type 0
  IsServing sv = IsReady sv × (sv.threads ≡ loops_of sv)

  abbrev When : Step S W → (DnsServer S → Type 0) → Type 0
  When p P = p.0 ≡ true → P p.1

  abbrev HasEngine : DnsServer S → Type 0
  HasEngine sv = (e : Engine S) × (sv.engine ≡ some e)

  abbrev HasUdp : DnsServer S → Type 0
  HasUdp sv = HasEngine sv × (is_open os sv.udp ≡ true)

  abbrev HasTcp : DnsServer S → Type 0
  HasTcp sv = HasUdp sv × (is_open os sv.tcp ≡ true)
