-- ===== src/Server/Lifecycle/Owned.antt =====
-- Which descriptors a server has open, from before it starts until it has stopped.
use simple_dnsd.Base.{
  ℕ, ◌≡◌, inl, inr, Bool, true, false, not, ◌&&◌, ◌||◌, List, none, some, if◌then◌else◌, arith,
  Option-cases, refl,
}
use simple_dnsd.Inet.{Inet}
use simple_dnsd.Outcome.{Outcome, ok, thrown}
use simple_dnsd.Backend.{Backend}
use simple_dnsd.Router
use simple_dnsd.Net.Calls.{Os}
use simple_dnsd.Net.{Socket, close, bind_address, bind_and_listen}
use simple_dnsd.Net.Owned.{
  holds, IsTable, close-is_open, bind_address-Keeps, bind_and_listen-Keeps, drop_privileges-is_open,
}
use simple_dnsd.Server.Lifecycle.{
  DnsServer, Step, and_then, open_udp, open_tcp, listen_api, open_api, leave_root, run_loops,
  open_all, with_backends, new_engine, stats_of, router_of, start_with, start, stop,
}

-- The three sockets hold different descriptors, none of which is among the others that are open.
abbrev pub IsApart : Bool → Bool → Bool → Bool → Type 0
IsApart u t a base =
    ((u && (t || (a || base))) ≡ false) × ((t && (a || base)) ≡ false) × ((a && base) ≡ false)

-- What changes for one descriptor where a socket of the server is replaced.
replace_udp :
    (was now u t a b s : Bool)
    → (was ≡ (u || (t || (a || b)))) × IsApart u t a b
    → (now ≡ (s || (not u && was))) × ((s && (not u && was)) ≡ false)
    → (now ≡ (s || (t || (a || b)))) × IsApart s t a b
replace_udp was now u t a b s o k = ground arith

replace_tcp :
    (was now u t a b s : Bool)
    → (was ≡ (u || (t || (a || b)))) × IsApart u t a b
    → (now ≡ (s || (not t && was))) × ((s && (not t && was)) ≡ false)
    → (now ≡ (u || (s || (a || b)))) × IsApart u s a b
replace_tcp was now u t a b s o k = ground arith

replace_api :
    (was now u t a b s : Bool)
    → (was ≡ (u || (t || (a || b)))) × IsApart u t a b
    → (now ≡ (s || (not a && was))) × ((s && (not a && was)) ≡ false)
    → (now ≡ (u || (t || (s || b)))) × IsApart u t s b
replace_api was now u t a b s o k = ground arith

module _ {W : Type 0} (open_in : W → ℕ → Bool) (base : ℕ → Bool) where
  -- What is open is what the server holds and, beside it, what was open before there was a server.
  unfoldable pub OwnsSockets : Socket → Socket → Socket → W → Type 0
  OwnsSockets udp tcp api w =
      (g : ℕ)
      → (open_in w g ≡ (holds udp g || (holds tcp g || (holds api g || base g))))
        × IsApart (holds udp g) (holds tcp g) (holds api g) (base g)

  abbrev pub Owns : {S : Type 0} → DnsServer S → W → Type 0
  Owns sv w = OwnsSockets sv.udp sv.tcp sv.api w

close-holds :
    {W : Type 0} (os : Os W) (w : W) (sock : Socket) (g : ℕ) → holds (close os w sock).0 g ≡ false
unfolding close
close-holds os w none g = refl
close-holds os w (some fd) g = refl

module _ {W : Type 0} {os : Os W} {open_in : W → ℕ → Bool} (t : IsTable os open_in)
    (base : ℕ → Bool) (net : Inet) {S : Type 0} where
  -- The descriptors after a step.
  abbrev OwnsAfter : Step S W → Type 0
  OwnsAfter p = Owns open_in base p.1 p.2

  if-Owns : (b : Bool) (p q : Step S W) → OwnsAfter p → OwnsAfter q → OwnsAfter (if b then p else q)
  if-Owns true p q hp hq = hp
  if-Owns false p q hp hq = hq

  open_udp-Owns :
      (sv : DnsServer S) (w : W) → Owns open_in base sv w → OwnsAfter (open_udp os net sv w)
  unfolding open_udp OwnsSockets
  open_udp-Owns sv w o =
      let kept : OwnsSockets open_in base
          (bind_address os net w sv.udp sv.config.listen_address sv.config.dns_port).0 sv.tcp sv.api
          (bind_address os net w sv.udp sv.config.listen_address sv.config.dns_port).1 =
        λ g.
          replace_udp _ _ (holds sv.udp g) (holds sv.tcp g) (holds sv.api g) (base g) _ (o g)
            (bind_address-Keeps t net w sv.udp sv.config.listen_address sv.config.dns_port g) in
      if-Owns _ _ _ kept kept

  open_tcp-Owns :
      (sv : DnsServer S) (w : W) → Owns open_in base sv w → OwnsAfter (open_tcp os net sv w)
  unfolding open_tcp OwnsSockets
  open_tcp-Owns sv w o g =
      replace_tcp _ _ (holds sv.udp g) (holds sv.tcp g) (holds sv.api g) (base g) _ (o g)
        (bind_and_listen-Keeps t net w sv.tcp sv.config.listen_address sv.dns_port g)

  listen_api-Owns :
      (sv : DnsServer S) (w : W) → Owns open_in base sv w → OwnsAfter (listen_api os net sv w)
  unfolding listen_api OwnsSockets
  listen_api-Owns sv w o =
      let kept : OwnsSockets open_in base sv.udp sv.tcp
          (bind_and_listen os net w sv.api sv.config.api_listen sv.config.api_port).0
          (bind_and_listen os net w sv.api sv.config.api_listen sv.config.api_port).1 =
        λ g.
          replace_api _ _ (holds sv.udp g) (holds sv.tcp g) (holds sv.api g) (base g) _ (o g)
            (bind_and_listen-Keeps t net w sv.api sv.config.api_listen sv.config.api_port g) in
      if-Owns _ _ _ kept kept

  open_api-Owns :
      (sv : DnsServer S) (w : W) → Owns open_in base sv w → OwnsAfter (open_api os net sv w)
  unfolding open_api
  open_api-Owns sv w o = if-Owns sv.config.enable_api _ _ (listen_api-Owns sv w o) o

  leave_root-Owns :
      (sv : DnsServer S) (w : W) → Owns open_in base sv w → OwnsAfter (leave_root os net sv w)
  unfolding leave_root OwnsSockets
  leave_root-Owns sv w o g =
      ground (arith, drop_privileges-is_open t w sv.config.service_user g, o g)

  and_then-Owns :
      (p : Step S W) (next : DnsServer S → W → Step S W)
      → OwnsAfter p
      → ((sv : DnsServer S) (w : W) → Owns open_in base sv w → OwnsAfter (next sv w))
      → OwnsAfter (and_then p next)
  unfolding and_then
  and_then-Owns (true, sv, w) next o h = h sv w o
  and_then-Owns (false, sv, w) next o h = o

  open_all-Owns :
      (sv : DnsServer S) (w : W) → Owns open_in base sv w → OwnsAfter (open_all os net sv w)
  unfolding open_all run_loops
  open_all-Owns sv w o =
      let p1 = open_udp os net sv w in
      let p2 = and_then p1 (open_tcp os net) in
      let p3 = and_then p2 (open_api os net) in
      let p4 = and_then p3 (leave_root os net) in
      let o2 = and_then-Owns p1 (open_tcp os net) (open_udp-Owns sv w o) open_tcp-Owns in
      let o3 = and_then-Owns p2 (open_api os net) o2 open_api-Owns in
      let o4 = and_then-Owns p3 (leave_root os net) o3 leave_root-Owns in
      and_then-Owns p4 (run_loops os net) o4 (λ sv' w' o'. o')

  with_backends-Owns :
      (sv : DnsServer S) (w : W) (backends : List S)
      → Owns open_in base sv w
      → Owns open_in base (with_backends sv backends) w
  unfolding with_backends
  with_backends-Owns sv w backends o = elim (Option-cases sv.engine) [
    | inl no_engine ↦ rw (with_backends, no_engine) o
    | inr (e, there) ↦ rw (with_backends, there) o
  ]

  start_with-Owns :
      (done : Outcome Bool) (backends : List S) (sv : DnsServer S) (w : W)
      → Owns open_in base sv w
      → Owns open_in base
          (start_with os net done backends sv w).1
          (start_with os net done backends sv w).2
  unfolding start_with
  start_with-Owns thrown backends sv w o = with_backends-Owns sv w backends o
  start_with-Owns (ok false) backends sv w o = with_backends-Owns sv w backends o
  start_with-Owns (ok true) backends sv w o =
      open_all-Owns (record sv { engine = some (new_engine backends sv.config (stats_of sv)) }) w o

  -- `start`, on every way out of it, keeps the count of the descriptors: the ones that are open afterwards are
  -- those that the three sockets of the server hold and those that were open before there was a server,
  -- and no two of these are the same.
  pub start-Owns :
      {T : Type 0} (ops : Backend S T) (sv : DnsServer S) (w : W)
      → Owns open_in base sv w
      → Owns open_in base (start os net ops sv w).1 (start os net ops sv w).2
  unfolding start
  start-Owns ops sv w o =
      let (done, backends) = Router.initialize ops (router_of sv) in
      start_with-Owns done backends sv w o

  -- A server that has stopped holds nothing of what is open.
  pub stopped-is_open :
      (sv : DnsServer S) (w w' : W) (g : ℕ)
      → Owns open_in base (stop os net sv w).0 w'
      → open_in w' g ≡ base g
  unfolding stop OwnsSockets
  stopped-is_open sv w w' g o =
      let w1 = (close os w sv.udp).1 in
      let w2 = (close os w1 sv.tcp).1 in
      ground (
        arith,
        o g,
        close-holds os w sv.udp g,
        close-holds os w1 sv.tcp g,
        close-holds os w2 sv.api g,
      )

  pub stop-Owns :
      (sv : DnsServer S) (w : W)
      → Owns open_in base sv w
      → Owns open_in base (stop os net sv w).0 (stop os net sv w).1
  unfolding stop OwnsSockets
  stop-Owns sv w o g =
      let w1 = (close os w sv.udp).1 in
      let w2 = (close os w1 sv.tcp).1 in
      ground (
        arith,
        o g,
        close-holds os w sv.udp g,
        close-holds os w1 sv.tcp g,
        close-holds os w2 sv.api g,
        close-is_open t w sv.udp g,
        close-is_open t w1 sv.tcp g,
        close-is_open t w2 sv.api g,
      )

  -- A server that is started and then stopped leaves open just the descriptors that were open before there
  -- was a server, whichever step of `start` failed or none, under the system calls' documented
  -- effect on the table of descriptors.
  pub stop-start :
      {T : Type 0} (ops : Backend S T) (sv : DnsServer S) (w : W) (g : ℕ)
      → Owns open_in base sv w
      → open_in (stop os net (start os net ops sv w).1 (start os net ops sv w).2).1 g ≡ base g
  unfolding stop OwnsSockets
  stop-start ops sv w g o =
      let (done, sv', w') = start os net ops sv w in
      stopped-is_open sv' w' (stop os net sv' w').1 g (stop-Owns sv' w' (start-Owns ops sv w o))
