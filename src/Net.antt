-- ===== src/Net.antt =====
-- The sockets of src/simple-dnsd/utils/net.cpp. The operating system is a parameter: a state that its calls
-- change. A socket of the program is its descriptor, `none` for INVALID_SOCKET_VALUE.
pub mod Calls
pub mod Transfer
pub mod Owned
use simple_dnsd.Base.{
  ℕ, Bool, true, false, not, ◌&&◌, ◌||◌, Option, none, some, List, [], ◌∷◌, ◌++◌, ◌==◌,
  if◌then◌else◌, Bytes, codes, any_of, is_empty, length, replicate, str_eq,
}
use simple_dnsd.Text.Number.{decimal}
use simple_dnsd.Inet.{Inet}
use simple_dnsd.Net.Calls.{Family, inet4, inet6, Kind, stream, datagram, Address, Os}

-- `socket_t fd_`
abbrev pub Socket : Type 0
Socket = Option ℕ

pub record SockAddr : Type 0 where
  pub host : Bytes
  pub port : ℕ
  pub ipv6 : Bool

abbrev contains : ℕ → Bytes → Bool
contains c s = any_of (λ d. d == c) s

abbrev is_star : Bytes → Bool
is_star address = str_eq address (codes "*")

module _ (net : Inet) where
  abbrev with_port : Family → ℕ → Option Bytes → Option Address
  with_port family port none = none
  with_port family port (some host) = some (record { family = family; host = host; port = port })

  -- `makeAddr`
  unfoldable pub make_addr : Bytes → ℕ → Option Address
  make_addr address port =
      if contains b':' address && not (contains b'.' address)
      then (if str_eq address (codes "::") || is_star address
          then with_port inet6 port (some (replicate 16 0))
          else with_port inet6 port (net.pton6 address))
      else (if str_eq address (codes "0.0.0.0") || is_star address || is_empty address
          then with_port inet4 port (some (replicate 4 0))
          else with_port inet4 port (net.pton4 address))

  -- `fromStorage`
  unfoldable pub from_storage : Address → SockAddr
  from_storage a = elim a.family [
    | inet4 ↦ record { host = net.ntop4 a.host; port = a.port; ipv6 = false }
    | inet6 ↦ record { host = net.ntop6 a.host; port = a.port; ipv6 = true }
  ]

module _ {W : Type 0} (os : Os W) where
  -- `close` of each of the three classes.
  unfoldable pub close : W → Socket → Socket × W
  close w none = (none, w)
  close w (some fd) = (none, os.close_socket w fd)

  abbrev pub is_open : Socket → Bool
  is_open none = false
  is_open (some fd) = true

  -- `boundPort`
  unfoldable pub bound_port : W → Socket → ℕ
  bound_port w none = 0
  bound_port w (some fd) = elim (os.socket_name w fd) [ none ↦ 0 | some a ↦ a.port ]

  -- A new socket bound to an address; one that cannot be bound is closed again.
  unfoldable pub bind_new : W → Kind → Address → Socket × W
  unfolding close
  bind_new w kind a =
      let (made, w1) = os.socket w a.family kind in
      elim made [
        | none ↦ (none, w1)
        | some fd ↦
            (let (bound, w2) = os.bind (os.set_reuse w1 fd) fd a in
              elim bound [ true ↦ (some fd, w2) | false ↦ close w2 (some fd) ])
      ]

  -- A new socket that listens at an address; one that cannot is closed again.
  unfoldable pub listen_on : W → Address → Socket × W
  unfolding close bind_new
  listen_on w a =
      let (bound, w2) = bind_new w stream a in
      elim bound [
        | none ↦ (none, w2)
        | some fd ↦
            (let (listens, w3) = os.listen w2 fd in
              elim listens [ true ↦ (some fd, w3) | false ↦ close w3 (some fd) ])
      ]

  module _ (net : Inet) where
    -- `UdpSocket::bindAddress`; the flag that is returned says that the socket is open.
    unfoldable pub bind_address : W → Socket → Bytes → ℕ → Socket × W
    unfolding close make_addr bind_new
    bind_address w sock address port =
        let (sock1, w1) = close w sock in
        elim (make_addr net address port) [ none ↦ (sock1, w1) | some a ↦ bind_new w1 datagram a ]

    -- `TcpListener::bindAndListen`
    unfoldable pub bind_and_listen : W → Socket → Bytes → ℕ → Socket × W
    unfolding close make_addr listen_on
    bind_and_listen w sock address port =
        let (sock1, w1) = close w sock in
        elim (make_addr net address port) [ none ↦ (sock1, w1) | some a ↦ listen_on w1 a ]

    -- `UdpSocket::sendTo`
    unfoldable pub send_to : W → Socket → Bytes → SockAddr → Bool × W
    unfolding make_addr
    send_to w sock bytes dest = elim (make_addr net dest.host dest.port) [
      | none ↦ (false, w)
      | some a ↦ (let (n, w') = os.send_to w sock a bytes in (n == length bytes, w'))
    ]

    -- `UdpSocket::recvFrom` with a time out that is not negative.
    unfoldable pub recv_from : W → Socket → ℕ → ℕ → Option (Bytes × SockAddr) × W
    unfolding from_storage
    recv_from w sock timeout max_size =
        let (ready, w1) = os.poll w sock timeout in
        let (got, w2) = os.recv_from w1 sock max_size in
        if not ready then (none, w1) else (
          elim got [
            | none ↦ none
            | some (bytes, a) ↦ if is_empty bytes then none else some (bytes, from_storage net a)
          ],
          w2,
        )

    -- `UdpSocket::sendOnce`, whose socket is closed on every way out.
    unfoldable pub send_once : W → Bytes → ℕ → Bytes → ℕ → ℕ → Option Bytes × W
    unfolding bind_address send_to recv_from close
    send_once w host port query timeout max_size =
        let (sock, w1) = bind_address w none (codes "0.0.0.0") 0 in
        let dest : SockAddr = record { host = host; port = port; ipv6 = false } in
        let (sent, w2) = send_to w1 sock query dest in
        let (reply, w3) = recv_from w2 sock timeout max_size in
        if not (is_open sock)
        then (none, w1)
        else if not sent
        then (none, (close w2 sock).1)
        else (elim reply [ none ↦ none | some (bytes, src) ↦ some bytes ], (close w3 sock).1)

    -- `TcpListener::acceptConnection`: the connection and the text of its peer.
    unfoldable pub accept_connection : W → Socket → ℕ → Option (ℕ × Bytes) × W
    unfolding from_storage decimal
    accept_connection w sock timeout =
        let (ready, w1) = os.poll w sock timeout in
        let (got, w2) = os.accept w1 sock in
        if not ready then (none, w1) else (
          elim got [
            | none ↦ none
            | some (fd, a) ↦
                (let peer = from_storage net a in
                  some (fd, peer.host ++ (codes ":" ++ decimal peer.port)))
          ],
          w2,
        )

    -- A new socket connected to an address; one that cannot be connected is closed again.
    unfoldable pub connect_new : W → Address → Socket × W
    connect_new w a =
        let (made, w1) = os.socket w a.family stream in
        elim made [
          | none ↦ (none, w1)
          | some fd ↦
              (let (connected, w2) = os.connect w1 fd a in
                elim connected [ true ↦ (some fd, w2) | false ↦ (none, os.close_socket w2 fd) ])
        ]

    -- The address `connectTo` tries: a host that is no address is looked up.
    unfoldable pub find_address : W → Bytes → ℕ → Option Address
    unfolding make_addr decimal
    find_address w host port = elim (make_addr net host port) [
      | some a ↦ some a
      | none ↦ os.resolve w host (decimal port)
    ]

    unfoldable pub connect_found : W → Option Address → Socket × W
    unfolding connect_new
    connect_found w none = (none, w)
    connect_found w (some a) = connect_new w a

    -- `TcpConnection::connectTo`: the connection and the text of its peer.
    unfoldable pub connect_to : W → Bytes → ℕ → Option (ℕ × Bytes) × W
    unfolding find_address connect_found decimal
    connect_to w host port =
        let (sock, w') = connect_found w (find_address w host port) in
        (elim sock [ none ↦ none | some fd ↦ some (fd, host ++ (codes ":" ++ decimal port)) ], w')

  -- `dropPrivileges`
  unfoldable pub drop_privileges : W → Bytes → Bool × W
  drop_privileges w user =
      if is_empty user || not (os.is_root w) then (true, w) else elim (os.find_user w user) [
        | none ↦ (false, w)
        | some (uid, gid) ↦
            (let (group_set, w1) = os.set_gid w gid in
              let (user_set, w2) = os.set_uid w1 uid in
              if group_set then (user_set, w2) else (false, w1))
      ]
