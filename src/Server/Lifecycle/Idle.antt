-- ===== src/Server/Lifecycle/Idle.antt =====
-- Which steps of `start` run a thread.
use simple_dnsd.Base.{
  ◌≡◌, ◌⊎◌, refl, inl, inr, Bool, true, false, List, if◌then◌else◌, Option-cases,
}
use simple_dnsd.Inet.{Inet}
use simple_dnsd.Net.Calls.{Os}
use simple_dnsd.Server.Lifecycle.{
  Loop, DnsServer, Step, and_then, open_udp, open_tcp, listen_api, open_api, leave_root, run_loops,
  open_all, with_backends,
}

module _ {S W : Type 0} (os : Os W) (net : Inet) where
  -- A step that starts no thread: those of the server are as before.
  abbrev pub IsIdle : List Loop → Step S W → Type 0
  IsIdle l p = (p.1.running ≡ false) × (p.1.threads ≡ l)

  abbrev pub Idle : List Loop → DnsServer S → Type 0
  Idle l sv = (sv.running ≡ false) × (sv.threads ≡ l)

  module _ (l : List Loop) where
    if-IsIdle :
        (b : Bool) (p q : Step S W) → IsIdle l p → IsIdle l q → IsIdle l (if b then p else q)
    if-IsIdle true p q hp hq = hp
    if-IsIdle false p q hp hq = hq

    and_then-IsIdle :
        (p : Step S W) (next : DnsServer S → W → Step S W)
        → IsIdle l p
        → ((sv : DnsServer S) (w : W) → Idle l sv → IsIdle l (next sv w))
        → IsIdle l (and_then p next)
    unfolding and_then
    and_then-IsIdle (true, sv, w) next h k = k sv w h
    and_then-IsIdle (false, sv, w) next h k = h

    open_udp-IsIdle : (sv : DnsServer S) (w : W) → Idle l sv → IsIdle l (open_udp os net sv w)
    unfolding open_udp
    open_udp-IsIdle sv w h = if-IsIdle _ _ _ h h

    open_api-IsIdle : (sv : DnsServer S) (w : W) → Idle l sv → IsIdle l (open_api os net sv w)
    unfolding open_api listen_api
    open_api-IsIdle sv w h = if-IsIdle sv.config.enable_api _ _ (if-IsIdle _ _ _ h h) h

    -- The last step runs the threads where every step before it succeeded.
    abbrev pub Follows : Step S W → Type 0
    Follows p = (p.1.running ≡ p.0) × ((p.0 ≡ true) ⊎ (p.1.threads ≡ l))

    and_then-run_loops : (p : Step S W) → IsIdle l p → Follows (and_then p (run_loops os net))
    unfolding and_then run_loops
    and_then-run_loops (true, sv, w) h = (refl, inl refl)
    and_then-run_loops (false, sv, w) h = (h.0, inr h.1)

    pub open_all-Follows : (sv : DnsServer S) (w : W) → Idle l sv → Follows (open_all os net sv w)
    unfolding open_all open_tcp leave_root
    open_all-Follows sv w h =
        let p1 = open_udp os net sv w in
        let p2 = and_then p1 (open_tcp os net) in
        let p3 = and_then p2 (open_api os net) in
        let h2 = and_then-IsIdle p1 (open_tcp os net) (open_udp-IsIdle sv w h) (λ sv' w' h'. h') in
        let h3 = and_then-IsIdle p2 (open_api os net) h2 open_api-IsIdle in
        and_then-run_loops (and_then p3 (leave_root os net))
          (and_then-IsIdle p3 (leave_root os net) h3 (λ sv' w' h'. h'))

  pub with_backends-Idle :
      (sv : DnsServer S) (backends : List S)
      → sv.running ≡ false
      → Idle sv.threads (with_backends sv backends)
  unfolding with_backends
  with_backends-Idle sv backends h = elim (Option-cases sv.engine) [
    | inl no_engine ↦ rw (with_backends, no_engine) (h, refl)
    | inr (e, there) ↦ rw (with_backends, there) (h, refl)
  ]
