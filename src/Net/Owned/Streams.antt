-- ===== src/Net/Owned/Streams.antt =====
-- Which descriptors the connections of src/simple-dnsd/utils/net.cpp leave open.
use simple_dnsd.Base.{inl, inr, ℕ, Bool, none, Bytes, arith, Option-cases}
use simple_dnsd.Inet.{Inet}
use simple_dnsd.Net.Calls.{stream, Address, Os}
use simple_dnsd.Net.{
  Socket, accept_connection, connect_new, find_address, connect_found, connect_to,
}
use simple_dnsd.Net.Owned.{IsTable, Keeps, fd_of}

module _ {W : Type 0} {os : Os W} {is_open : W → ℕ → Bool} (t : IsTable os is_open) where
  -- A connection that is accepted is a new one, and nothing else is open behind the call.
  pub accept_connection-Keeps :
      (net : Inet) (w : W) (sock : Socket) (timeout : ℕ)
      → Keeps is_open w none (
        fd_of (accept_connection os net w sock timeout).0,
        (accept_connection os net w sock timeout).1,
      )
  unfolding accept_connection
  accept_connection-Keeps net w sock timeout g =
      let w1 = (os.poll w sock timeout).1 in
      elim (Option-cases (os.accept w1 sock).0) [
        | inl nobody ↦ ground (arith, nobody, t.after_poll w sock timeout g, t.accepts w1 sock g)
        | inr (got, came) ↦ ground (
          arith,
          came,
          t.after_poll w sock timeout g,
          t.accepts w1 sock g,
          t.free_accepted w1 sock g,
        )
      ]

  connect_new-Keeps :
      (net : Inet) (w : W) (a : Address) → Keeps is_open w none (connect_new os net w a)
  unfolding connect_new
  connect_new-Keeps net w a g =
      let w1 = (os.socket w a.family stream).1 in
      elim (Option-cases (os.socket w a.family stream).0) [
        | inl none_made ↦ ground (arith, none_made, t.adds w a.family stream g)
        | inr (fd, made) ↦ ground (
          arith,
          made,
          t.adds w a.family stream g,
          t.free w a.family stream g,
          t.after_connect w1 fd a g,
          t.frees (os.connect w1 fd a).1 fd g,
        )
      ]

  -- So is a connection that the program makes, and where it cannot be made nothing stays open.
  pub connect_to-Keeps :
      (net : Inet) (w : W) (host : Bytes) (port : ℕ)
      → Keeps is_open w none
          (fd_of (connect_to os net w host port).0, (connect_to os net w host port).1)
  unfolding connect_to connect_found
  connect_to-Keeps net w host port g = elim (Option-cases (find_address os net w host port)) [
    | inl unknown ↦ ground (arith, unknown)
    | inr (a, found) ↦ elim (Option-cases (connect_new os net w a).0) [
      | inl no_one ↦ ground (arith, found, no_one, connect_new-Keeps net w a g)
      | inr (fd, there) ↦ ground (arith, found, there, connect_new-Keeps net w a g)
    ]
  ]
