-- ===== src/Net/Owned.antt =====
-- Which descriptors the sockets of src/simple-dnsd/utils/net.cpp leave open.
pub mod Streams
use simple_dnsd.Base.{
  Option, ℕ, ◌≡◌, refl, inl, inr, Bool, false, not, ◌&&◌, ◌||◌, none, some, ◌==◌, Bytes, codes,
  arith, Option-cases,
}
use simple_dnsd.Inet.{Inet}
use simple_dnsd.Net.Calls.{Family, Kind, datagram, stream, Address, Os}
use simple_dnsd.Net.{
  Socket, SockAddr, close, make_addr, bind_new, bind_address, bind_and_listen, listen_on, send_to,
  recv_from, send_once, drop_privileges,
}

-- Whether a socket object holds a descriptor.
abbrev pub holds : Socket → ℕ → Bool
holds none g = false
holds (some fd) g = g == fd

-- The descriptor of what `accept`, or a connection of the program, comes to.
abbrev pub fd_of {ℓ} : {A : Type ℓ} → Option (ℕ × A) → Socket
fd_of none = none
fd_of (some (fd, a)) = some fd

-- The table of a process's descriptors: `socket` and `accept` add one that was free, `close` frees one, and
-- the other calls leave the table alone.
pub record IsTable {W : Type 0} (os : Os W) (is_open : W → ℕ → Bool) : Type 0 where
  pub adds :
      (w : W) (f : Family) (k : Kind) (g : ℕ)
      → is_open (os.socket w f k).1 g ≡ (holds (os.socket w f k).0 g || is_open w g)
  pub free :
      (w : W) (f : Family) (k : Kind) (g : ℕ) → (holds (os.socket w f k).0 g && is_open w g) ≡ false
  pub frees : (w : W) (fd g : ℕ) → is_open (os.close_socket w fd) g ≡ (not (g == fd) && is_open w g)
  pub after_reuse : (w : W) (fd g : ℕ) → is_open (os.set_reuse w fd) g ≡ is_open w g
  pub after_bind :
      (w : W) (fd : ℕ) (a : Address) (g : ℕ) → is_open (os.bind w fd a).1 g ≡ is_open w g
  pub after_poll :
      (w : W) (sock : Socket) (timeout g : ℕ) → is_open (os.poll w sock timeout).1 g ≡ is_open w g
  pub after_send :
      (w : W) (sock : Socket) (a : Address) (bytes : Bytes) (g : ℕ)
      → is_open (os.send_to w sock a bytes).1 g ≡ is_open w g
  pub after_recv :
      (w : W) (sock : Socket) (max_size g : ℕ)
      → is_open (os.recv_from w sock max_size).1 g ≡ is_open w g
  pub accepts :
      (w : W) (sock : Socket) (g : ℕ)
      → is_open (os.accept w sock).1 g ≡ (holds (fd_of (os.accept w sock).0) g || is_open w g)
  pub free_accepted :
      (w : W) (sock : Socket) (g : ℕ)
      → (holds (fd_of (os.accept w sock).0) g && is_open w g) ≡ false
  pub after_connect :
      (w : W) (fd : ℕ) (a : Address) (g : ℕ) → is_open (os.connect w fd a).1 g ≡ is_open w g
  pub after_read : (w : W) (fd n g : ℕ) → is_open (os.recv w fd n).1 g ≡ is_open w g
  pub after_write :
      (w : W) (fd : ℕ) (bytes : Bytes) (g : ℕ) → is_open (os.send w fd bytes).1 g ≡ is_open w g
  pub after_gid : (w : W) (gid g : ℕ) → is_open (os.set_gid w gid).1 g ≡ is_open w g
  pub after_uid : (w : W) (uid g : ℕ) → is_open (os.set_uid w uid).1 g ≡ is_open w g
  pub after_listen : (w : W) (fd g : ℕ) → is_open (os.listen w fd).1 g ≡ is_open w g

module _ {W : Type 0} (is_open : W → ℕ → Bool) where
  -- What is open afterwards: what the object holds now, which was free, and what was open before, less what
  -- the object held then.
  abbrev pub Keeps : W → Socket → Socket × W → Type 0
  Keeps w sock (sock', w') =
      (g : ℕ)
      → (is_open w' g ≡ (holds sock' g || (not (holds sock g) && is_open w g)))
        × ((holds sock' g && (not (holds sock g) && is_open w g)) ≡ false)

module _ {W : Type 0} {os : Os W} {is_open : W → ℕ → Bool} (t : IsTable os is_open) where
  pub close-is_open :
      (w : W) (sock : Socket) (g : ℕ)
      → is_open (close os w sock).1 g ≡ (not (holds sock g) && is_open w g)
  unfolding close
  close-is_open w none g = refl
  close-is_open w (some fd) g = t.frees w fd g

  close-Keeps : (w : W) (sock : Socket) → Keeps is_open w sock (close os w sock)
  unfolding close
  close-Keeps w none g = (refl, refl)
  close-Keeps w (some fd) g = (t.frees w fd g, refl)

  bind_new-Keeps : (w : W) (k : Kind) (a : Address) → Keeps is_open w none (bind_new os w k a)
  unfolding bind_new close
  bind_new-Keeps w k a g =
      let w1 = (os.socket w a.family k).1 in
      elim (Option-cases (os.socket w a.family k).0) [
        | inl none_made ↦ ground (arith, none_made, t.adds w a.family k g)
        | inr (fd, made) ↦
            (let w2 = os.set_reuse w1 fd in
              let w3 = (os.bind w2 fd a).1 in
              ground (
                arith,
                made,
                t.adds w a.family k g,
                t.free w a.family k g,
                t.after_reuse w1 fd g,
                t.after_bind w2 fd a g,
                t.frees w3 fd g,
              ))
      ]

  -- A new socket behind the one that was closed.
  close-then :
      (w : W) (sock : Socket) (p : Socket × W)
      → Keeps is_open (close os w sock).1 none p
      → Keeps is_open w sock p
  close-then w sock p new g = ground (arith, new g, close-is_open w sock g)

  pub bind_address-Keeps :
      (net : Inet) (w : W) (sock : Socket) (address : Bytes) (port : ℕ)
      → Keeps is_open w sock (bind_address os net w sock address port)
  unfolding bind_address
  bind_address-Keeps net w sock address port g = elim (Option-cases (make_addr net address port)) [
    | inl bad ↦ rw (bind_address, bad) (close-Keeps w sock g)
    | inr (a, good) ↦
        rw (bind_address, good)
          (close-then w sock _ (bind_new-Keeps (close os w sock).1 datagram a) g)
  ]

  listen_on-Keeps : (w : W) (a : Address) → Keeps is_open w none (listen_on os w a)
  unfolding listen_on close
  listen_on-Keeps w a g =
      let w2 = (bind_new os w stream a).1 in
      elim (Option-cases (bind_new os w stream a).0) [
        | inl none_made ↦ ground (arith, none_made, bind_new-Keeps w stream a g)
        | inr (fd, made) ↦ ground (
          arith,
          made,
          bind_new-Keeps w stream a g,
          t.after_listen w2 fd g,
          t.frees (os.listen w2 fd).1 fd g,
        )
      ]

  pub bind_and_listen-Keeps :
      (net : Inet) (w : W) (sock : Socket) (address : Bytes) (port : ℕ)
      → Keeps is_open w sock (bind_and_listen os net w sock address port)
  unfolding bind_and_listen
  bind_and_listen-Keeps net w sock address port g =
      elim (Option-cases (make_addr net address port)) [
        | inl bad ↦ rw (bind_and_listen, bad) (close-Keeps w sock g)
        | inr (a, good) ↦
            rw (bind_and_listen, good)
              (close-then w sock _ (listen_on-Keeps (close os w sock).1 a) g)
      ]

  pub drop_privileges-is_open :
      (w : W) (user : Bytes) (g : ℕ) → is_open (drop_privileges os w user).1 g ≡ is_open w g
  unfolding drop_privileges
  drop_privileges-is_open w user g = elim (Option-cases (os.find_user w user)) [
    | inl unknown ↦ ground (arith, unknown)
    | inr ((uid, gid), known) ↦
        ground (arith, known, t.after_gid w gid g, t.after_uid (os.set_gid w gid).1 uid g)
  ]

  pub send_to-is_open :
      (net : Inet) (w : W) (sock : Socket) (bytes : Bytes) (dest : SockAddr) (g : ℕ)
      → is_open (send_to os net w sock bytes dest).1 g ≡ is_open w g
  unfolding send_to
  send_to-is_open net w sock bytes dest g =
      elim (Option-cases (make_addr net dest.host dest.port)) [
        | inl bad ↦ rw (send_to, bad) refl
        | inr (a, good) ↦ rw (send_to, good) (t.after_send w sock a bytes g)
      ]

  pub recv_from-is_open :
      (net : Inet) (w : W) (sock : Socket) (timeout max_size g : ℕ)
      → is_open (recv_from os net w sock timeout max_size).1 g ≡ is_open w g
  unfolding recv_from
  recv_from-is_open net w sock timeout max_size g = ground (
    arith,
    t.after_poll w sock timeout g,
    t.after_recv (os.poll w sock timeout).1 sock max_size g,
  )

  -- A query that is sent from a socket of its own leaves the same descriptors open as before, whether it
  -- fails at some step or gets its reply.
  pub send_once-is_open :
      (net : Inet) (w : W) (host : Bytes) (port : ℕ) (query : Bytes) (timeout max_size g : ℕ)
      → is_open (send_once os net w host port query timeout max_size).1 g ≡ is_open w g
  unfolding send_once
  send_once-is_open net w host port query timeout max_size g =
      let dest : SockAddr = record { host = host; port = port; ipv6 = false } in
      let (sock, w1) = bind_address os net w none (codes "0.0.0.0") 0 in
      let w2 = (send_to os net w1 sock query dest).1 in
      let w3 = (recv_from os net w2 sock timeout max_size).1 in
      ground (
        arith,
        bind_address-Keeps net w none (codes "0.0.0.0") 0 g,
        send_to-is_open net w1 sock query dest g,
        recv_from-is_open net w2 sock timeout max_size g,
        close-is_open w2 sock g,
        close-is_open w3 sock g,
      )
