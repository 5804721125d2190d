-- ===== src/Server/Secondary.antt =====
-- `DnsServer::refreshSecondaries` of src/simple-dnsd/core/server.cpp. The network is a parameter: `ask`
-- gives the stream of bytes that a master sends back when a connection to it is made and the request
-- is written, and `none` where either fails.
pub mod Replace
pub mod Fuel
use simple_dnsd.Base.{
  ℕ, zero, suc, ◌+◌, ◌-◌, Bool, true, false, not, ◌&&◌, ◌||◌, Option, none, some, List, [], ◌∷◌,
  ◌++◌, leb, ltb, ◌==◌, if◌then◌else◌, Bytes, length, take, is_empty,
}
use simple_dnsd.Outcome.{Outcome, ok, thrown}
use simple_dnsd.Text.Number.{stoi, wrap_int}
use simple_dnsd.Record.{ResourceRecord, DnsMessage, make_query}
use simple_dnsd.Record.RrType
use simple_dnsd.Inet.{Inet}
use simple_dnsd.Message.{encode_message, decode_message}
use simple_dnsd.Backend.{ZoneKind, native, master, slave, ZoneInfo, Backend}
use simple_dnsd.Router
use simple_dnsd.Config.Load.{cut_at}
use simple_dnsd.Engine.State.{Engine}
use simple_dnsd.Engine.Cache.{invalidate}
use simple_dnsd.Server.Frame.{recv_dns_message}

abbrev pub is_slave : ZoneKind → Bool
is_slave slave = true
is_slave master = false
is_slave native = false

-- The host and the port of `zone.master`, split at the first colon.
unfoldable pub master_address : Bytes → Outcome (Bytes × ℕ)
unfolding cut_at stoi
master_address m = elim (cut_at b':' m) [
  | none ↦ ok (m, 53)
  | some (host, port) ↦ elim (stoi 10 port) [ ok v ↦ ok (host, wrap_int 16 v) | thrown ↦ thrown ]
]

abbrev pub starts_with_soa : List ResourceRecord → Bool
starts_with_soa [] = false
starts_with_soa (rr ∷ rrs) = rr.type == RrType.soa

abbrev pub ends_with_soa : List ResourceRecord → Bool
ends_with_soa [] = false
ends_with_soa (rr ∷ []) = rr.type == RrType.soa
ends_with_soa (rr ∷ rr' ∷ rrs) = ends_with_soa (rr' ∷ rrs)

-- The test that ends the loop over the messages of a transfer.
unfoldable pub is_complete : List ResourceRecord → Bool
is_complete rrs = leb 2 (length rrs) && starts_with_soa rrs && ends_with_soa rrs

-- All but the last record.
abbrev pub but_last : List ResourceRecord → List ResourceRecord
but_last rrs = take (length rrs - 1) rrs

module _ (net : Inet) (max_size : ℕ) where
  -- The loop over the messages. A round takes bytes off the stream, whose number bounds the rounds.
  unfoldable pub collect : ℕ → List ResourceRecord → Bytes → List ResourceRecord
  unfolding recv_dns_message decode_message is_complete
  collect zero rrs stream = rrs
  collect (suc fuel) rrs stream = elim (recv_dns_message max_size stream) [
    | none ↦ rrs
    | some (msg, rest) ↦ elim (decode_message net msg) [
      | none ↦ rrs
      | some parsed ↦
          (let rrs' = rrs ++ parsed.answers in
            let more = collect fuel rrs' rest in if is_complete rrs' then rrs' else more)
    ]
  ]

module _ {S T : Type 0} (ops : Backend S T) where
  delete_names : T → List ResourceRecord → T
  delete_names tx [] = tx
  delete_names tx (rr ∷ rrs) = delete_names (ops.transaction.delete_name tx rr.name).1 rrs

  unfoldable pub add_all : T → List ResourceRecord → T
  add_all tx [] = tx
  add_all tx (rr ∷ rrs) = add_all (ops.transaction.add_record tx rr).1 rrs

  -- The transaction that takes out every name of the zone and writes what was transferred.
  unfoldable pub replace_all : T → List ResourceRecord → List ResourceRecord → T
  unfolding delete_names add_all
  replace_all tx existing rrs = add_all (delete_names tx existing) (but_last rrs)

  -- The zone, once its transfer is there; what `commit` returns is not looked at.
  unfoldable pub write_transfer :
      Engine S → ZoneInfo → List ResourceRecord → Outcome Bool × Engine S
  unfolding Router.begin Router.list_zone Router.commit replace_all
  write_transfer e zone rrs =
      if ltb (length rrs) 2 then (ok true, e) else elim (Router.begin ops e.backends zone) [
        | none ↦ (ok true, e)
        | some (i, b, tx) ↦
            (let existing = Router.list_zone ops e.backends zone in
              let (done, backends) =
                Router.commit ops e.backends (i, b, replace_all tx existing rrs) in
              elim done [
                | thrown ↦ (thrown, record e { backends = backends })
                | ok b ↦ (ok true, record e { backends = backends; cache = invalidate e.cache })
              ])
      ]

  module _ (net : Inet) (max_size : ℕ) (ask : Bytes → ℕ → Bytes → Option Bytes) where
    unfoldable pub refresh_from : Engine S → ZoneInfo → Bytes × ℕ → Outcome Bool × Engine S
    unfolding collect write_transfer make_query encode_message
    refresh_from e zone (host, port) =
        elim (ask host port (encode_message (make_query zone.name RrType.axfr 1 false) 0).0) [
          | none ↦ (ok true, e)
          | some stream ↦
              write_transfer e zone (collect net max_size (suc (length stream)) [] stream)
        ]

    unfoldable pub refresh_zone : Engine S → ZoneInfo → Outcome Bool × Engine S
    unfolding master_address refresh_from
    refresh_zone e zone =
        if not (is_slave zone.kind) || is_empty zone.master
        then (ok true, e)
        else elim (master_address zone.master) [
          | thrown ↦ (thrown, e)
          | ok target ↦ refresh_from e zone target
        ]

    refresh_zones : Engine S → List ZoneInfo → Outcome Bool × Engine S
    unfolding refresh_zone
    refresh_zones e [] = (ok true, e)
    refresh_zones e (zone ∷ zones) =
        let (done, e') = refresh_zone e zone in
        elim done [ thrown ↦ (thrown, e') | ok b ↦ refresh_zones e' zones ]

    -- The zones are listed once, before the first of them is refreshed.
    unfoldable pub refresh_secondaries : Engine S → Outcome Bool × Engine S
    unfolding refresh_zones Router.list_zones
    refresh_secondaries e = refresh_zones e (Router.list_zones ops e.backends)

  module _ (net : Inet) (max_size : ℕ) (ask : ℕ → Bytes → ℕ → Bytes → Option Bytes) where
    -- `secondaryLoop` from its round `k` on, over the rounds until it is stopped; what a master sends
    -- may change from round to round.
    unfoldable pub secondary_loop : ℕ → ℕ → Engine S → Outcome Bool × Engine S
    unfolding refresh_secondaries
    secondary_loop zero k e = (ok true, e)
    secondary_loop (suc rounds) k e =
        let (done, e') = refresh_secondaries net max_size (ask k) e in
        elim done [ thrown ↦ (thrown, e') | ok b ↦ secondary_loop rounds (suc k) e' ]
