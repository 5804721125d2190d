-- ===== src/Examples/Sockets.antt =====
-- Sockets and the life of a server.
use simple_dnsd.Base.{
  ℕ, zero, suc, sym, get_or, set, ◌≡◌, refl, Bool, true, false, not, ◌&&◌, ◌||◌, none, some, List,
  [], ◌∷◌, ◌++◌, ◌==◌, Bytes, codes, arith, length, take, drop, min, length-take, take-append-drop,
}
use simple_dnsd.Net.Calls.{Os, inet4}
use simple_dnsd.Server.Traffic.{
  Task, accepts_tcp, accepts_api, connects, notifies, reads, writes, ends,
}
use simple_dnsd.Net.Transfer.{recv_message, send_message}
use simple_dnsd.Net.Transfer.Receive.{IsStream, view, recv_message-recv_dns_message}
use simple_dnsd.Net.Transfer.Send.{IsOutput, IsWritten, send_message-IsWritten}
use simple_dnsd.Net.Owned.{IsTable}
use simple_dnsd.Config.{default_config}
use simple_dnsd.Memory.{MemoryBackend}
use simple_dnsd.Router.Launch.{Factories}
use simple_dnsd.Server.Lifecycle.{DnsServer, fresh_server}
use simple_dnsd.Program.{main}
use simple_dnsd.Program.Closed.{IsClosed, main-IsClosed}
use simple_dnsd.Examples.Data.{no_inet, ops, engine}
use simple_dnsd.Server.Frame.{send_dns_message, recv_dns_message}

-- A system: which descriptors are in use, and the bytes of a connection, which it hands over three at a
-- time.
abbrev System : Type 0
System = List Bool × Bytes

abbrev in_use : System → ℕ → Bool
in_use (table, stream) g = get_or table g false

in_use-append :
    (t : List Bool) (g : ℕ)
    → get_or (t ++ true ∷ []) g false ≡ ((g == length t) || get_or t g false)
in_use-append [] zero = refl
in_use-append [] (suc g) = ground arith
in_use-append (b ∷ t) zero = ground arith
in_use-append (b ∷ t) (suc g) = ground (arith, in_use-append t g)

in_use-past : (t : List Bool) (g : ℕ) → ((g == length t) && get_or t g false) ≡ false
in_use-past [] zero = refl
in_use-past [] (suc g) = ground arith
in_use-past (b ∷ t) zero = ground arith
in_use-past (b ∷ t) (suc g) = ground (arith, in_use-past t g)

in_use-set :
    (t : List Bool) (fd g : ℕ)
    → get_or (set t fd false) g false ≡ (not (g == fd) && get_or t g false)
in_use-set [] fd g = ground arith
in_use-set (b ∷ t) zero zero = refl
in_use-set (b ∷ t) zero (suc g) = ground arith
in_use-set (b ∷ t) (suc fd) zero = ground arith
in_use-set (b ∷ t) (suc fd) (suc g) = ground (arith, in_use-set t fd g)

abbrev toy : Os System
toy = record {
  socket = λ w f k. (some (length w.0), (w.0 ++ true ∷ [], w.1));
  set_reuse = λ w fd. w;
  bind = λ w fd a. (true, w);
  listen = λ w fd. (true, w);
  connect = λ w fd a. (true, w);
  accept = λ w sock. (
    some (length w.0, record { family = inet4; host = 192 ∷ 0 ∷ 2 ∷ 7 ∷ []; port = 5300 }),
    (w.0 ++ true ∷ [], w.1),
  );
  close_socket = λ w fd. (set w.0 fd false, w.1);
  socket_name = λ w fd. none;
  poll = λ w sock timeout. (true, w);
  send_to = λ w sock a bytes. (length bytes, w);
  recv_from = λ w sock max_size. (none, w);
  send = λ w fd bytes. (min 3 (length bytes), (w.0, w.1 ++ take (min 3 (length bytes)) bytes));
  recv = λ w fd n. (take (min n 3) w.1, (w.0, drop (min n 3) w.1));
  resolve = λ w host port. none;
  is_root = λ w. false;
  find_user = λ w user. none;
  set_gid = λ w gid. (true, w);
  set_uid = λ w uid. (true, w);
}

toy-IsStream : IsStream toy 5 (λ w. w.1)
toy-IsStream = record {
  in_order = λ w n. sym (take-append-drop (min n 3) w.1);
  no_more = λ w n. omega (arith, length-take (min n 3) w.1);
  ends = λ w n pos e. omega (arith, length-take (min n 3) w.1, e);
}

toy-IsOutput : IsOutput toy 5 (λ w. w.1)
toy-IsOutput = record { bounded = λ w bytes. omega arith; takes = λ w bytes. refl }

toy-IsTable : IsTable toy in_use
toy-IsTable = record {
  adds = λ w f k g. in_use-append w.0 g;
  free = λ w f k g. in_use-past w.0 g;
  frees = λ w fd g. in_use-set w.0 fd g;
  accepts = λ w sock g. in_use-append w.0 g;
  free_accepted = λ w sock g. in_use-past w.0 g;
  after_connect = λ w fd a g. refl;
  after_read = λ w fd n g. refl;
  after_write = λ w fd bytes g. refl;
  after_reuse = λ w fd g. refl;
  after_bind = λ w fd a g. refl;
  after_poll = λ w sock timeout g. refl;
  after_send = λ w sock a bytes g. refl;
  after_recv = λ w sock max_size g. refl;
  after_gid = λ w gid g. refl;
  after_uid = λ w uid g. refl;
  after_listen = λ w fd g. refl;
}

abbrev message : Bytes
message = 1 ∷ 2 ∷ 3 ∷ 4 ∷ 5 ∷ []

abbrev system : System
system = (true ∷ false ∷ true ∷ [], send_dns_message message ++ 9 ∷ [])

recv_message-recv_dns_message_example :
    view (λ w. w.1) (recv_message toy system (some 5) 512)
    ≡ recv_dns_message 512 (send_dns_message message ++ 9 ∷ [])
recv_message-recv_dns_message_example = recv_message-recv_dns_message toy-IsStream system 512

send_message-IsWritten_example :
    IsWritten (λ w. w.1) system (send_dns_message message) (send_message toy system 5 message)
send_message-IsWritten_example = send_message-IsWritten toy-IsOutput system message

-- The message arrives whole.
received : view (λ w. w.1) (recv_message toy system (some 5) 512) ≡ some (message, 9 ∷ [])
unfolding recv_message send_dns_message
received = refl

abbrev server : DnsServer MemoryBackend
server = fresh_server default_config (engine.backends)

abbrev makers : Factories MemoryBackend
makers = record {
  memory = [];
  bind_file = λ path. [];
  sqlite = λ path. none;
  postgres = λ dsn. none;
  mysql = λ dsn. none;
}

-- A session that is let in, one that is refused, a request, a refresh and a NOTIFY, of which one session
-- outlasts the sockets.
abbrev busy : List Task
busy =
    accepts_tcp 0
    ∷ accepts_tcp 128
    ∷ accepts_api
    ∷ connects (codes "a") 53
    ∷ notifies (codes "a") 53 (1 ∷ []) 200 512
    ∷ ends 0
    ∷ []

abbrev last : List Task
last = reads 5 2 ∷ writes 5 (1 ∷ []) ∷ ends 1 ∷ []

main-IsClosed_example : IsClosed in_use system (
    main toy no_inet ops makers
      (λ path. none)
      (codes "--foreground" ∷ codes "start" ∷ [])
      busy
      last
      system)
main-IsClosed_example =
    main-IsClosed toy-IsTable no_inet ops makers (λ path. none)
      (codes "--foreground" ∷ codes "start" ∷ []) busy last system
