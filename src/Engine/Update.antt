-- ===== src/Engine/Update.antt =====
-- `handleUpdate` and `notifySecondaries` of the engine: dynamic updates.
pub mod Guards
use simple_dnsd.Base.{
  ℕ, ◌%◌, ◌^◌, Bool, true, false, not, ◌&&◌, ◌||◌, Option, none, some, List, [], ◌∷◌, ◌++◌, ◌==◌,
  if◌then◌else◌, Bytes, codes, is_empty, any_of,
}
use simple_dnsd.Outcome.{Outcome, ok, thrown, ◌>>=◌}
use simple_dnsd.Text.Number.{stoi, wrap_int}
use simple_dnsd.Name.{DnsName, parse}
use simple_dnsd.Record.{
  ResourceRecord, new_message, new_header, Question, DnsMessage, make_response,
}
use simple_dnsd.Record.RrType
use simple_dnsd.Record.RrClass
use simple_dnsd.Record.Rcode
use simple_dnsd.Record.Opcode
use simple_dnsd.Inet.{Inet}
use simple_dnsd.Rdata.{rdata_to_content}
use simple_dnsd.Message.{encode_message}
use simple_dnsd.Serial.{soa_serial, bump_serial}
use simple_dnsd.Backend.{ZoneInfo, Backend}
use simple_dnsd.Router
use simple_dnsd.Engine.State.{QueryContext, ServerStats, count_up, Engine, Effect, send, export}
use simple_dnsd.Engine.Cache.{invalidate}
use simple_dnsd.Engine.Access.{tsig_key, allowed_update}
use simple_dnsd.Engine.Answer.{with_rcode, target_of}
use simple_dnsd.Engine.Transfer.{bad_signature}

-- The text before the last colon and the text behind it; `none` where there is no colon.
unfoldable pub last_colon : Bytes → Option (Bytes × Bytes)
last_colon [] = none
last_colon (c ∷ s) = elim (last_colon s) [
  | some (host, port) ↦ some (c ∷ host, port)
  | none ↦ if c == b':' then some ([], s) else none
]

-- The host and the port of a target: a colon is looked at only where there is a dot as well.
address_of : Bytes → Outcome (Bytes × ℕ)
unfolding last_colon stoi
address_of ip = elim (last_colon ip) [
  | none ↦ ok (ip, 53)
  | some (host, port) ↦
      if any_of (λ c. c == b'.') ip
      then (do v ← stoi 10 port; ok (host, wrap_int 16 v))
      else ok (ip, 53)
]

-- The loop that sends the notification: the packets sent before a port that does not parse ends it
-- by an exception.
send_all : Bytes → List Bytes → Outcome Bool × List Effect
unfolding address_of
send_all wire [] = (ok true, [])
send_all wire (ip ∷ targets) =
    let (done, sent) = send_all wire targets in
    if is_empty ip then (done, sent) else elim (address_of ip) [
      | thrown ↦ (thrown, [])
      | ok (host, port) ↦ (done, send host port wire ∷ sent)
    ]

module _ {S T : Type 0} (net : Inet) (ops : Backend S T) where
  glue_texts : List ResourceRecord → List Bytes
  unfolding rdata_to_content
  glue_texts [] = []
  glue_texts (g ∷ glue) =
      (if is_empty g.content then (rdata_to_content net g).1 else g).content ∷ glue_texts glue

  ns_addresses : List S → ZoneInfo → List ResourceRecord → List Bytes
  unfolding glue_texts Router.lookup parse rdata_to_content
  ns_addresses backends zone [] = []
  ns_addresses backends zone (rr ∷ ns) =
      glue_texts (Router.lookup ops backends zone (target_of net ops backends rr) RrType.a)
      ++ ns_addresses backends zone ns

  -- The message that `notifySecondaries` sends.
  notify_message : List S → ZoneInfo → DnsMessage
  unfolding Router.lookup
  notify_message backends zone = record new_message {
    header = record new_header { opcode = Opcode.notify; aa = true; id = 1 };
    questions = (record { qname = zone.name; qtype = RrType.soa; qclass = RrClass.in_class }) ∷ [];
    answers = Router.lookup ops backends zone zone.name RrType.soa;
  }

  unfoldable pub notify_secondaries : Engine S → ZoneInfo → Outcome Bool × Engine S
  unfolding ns_addresses notify_message send_all
  notify_secondaries e zone =
      let ns = Router.lookup ops e.backends zone zone.name RrType.ns in
      let targets = (e.config.also_notify ++ zone.also_notify) ++ ns_addresses e.backends zone ns in
      let (done, sent) = send_all (encode_message (notify_message e.backends zone) 0).0 targets in
      (done, record e { effects = e.effects ++ sent })

  -- One record of the update section, written to the transaction.
  unfoldable pub stage : T → ResourceRecord → T
  stage tx rr =
      if rr.rclass == RrClass.any && is_empty rr.rdata
      then (if rr.type == RrType.any
          then (ops.transaction.delete_name tx rr.name).1
          else (ops.transaction.delete_rrset tx rr.name rr.type).1)
      else if rr.rclass == 254
      then (ops.transaction.delete_rrset tx rr.name rr.type).1
      else (ops.transaction.add_record tx rr).1

  unfoldable pub stage_all : T → List ResourceRecord → T
  unfolding stage
  stage_all tx [] = tx
  stage_all tx (rr ∷ rrs) = stage_all (stage tx rr) rrs

  -- The serial is set to one more than that of the first SOA at the zone's name.
  unfoldable pub stage_serial : T → List ResourceRecord → Outcome Bool × T
  unfolding soa_serial bump_serial
  stage_serial tx [] = (ok true, tx)
  stage_serial tx (soa ∷ soas) =
      ops.transaction.set_soa_serial tx (bump_serial (soa_serial net soa))

  -- What follows a commit: the cache is emptied, the secondaries are told, the zone is exported.
  unfoldable pub after_commit : Engine S → ZoneInfo → DnsMessage → Outcome DnsMessage × Engine S
  after_commit e zone resp =
      let (told, e') = notify_secondaries (record e { cache = invalidate e.cache }) zone in
      let exported =
        if e'.config.continuous_export && not (is_empty e'.config.export_dir)
        then record e' { effects = e'.effects ++ export zone.name ∷ [] }
        else e' in
      elim told [ thrown ↦ (thrown, e') | ok b ↦ (ok (with_rcode resp Rcode.no_error), exported) ]

  -- The commit of what is staged, and what follows it.
  unfoldable pub commit_update :
      Engine S → DnsMessage → ZoneInfo → ℕ × S × T → Outcome DnsMessage × Engine S
  unfolding after_commit Router.commit
  commit_update e resp zone staged =
      let (committed, backends') = Router.commit ops e.backends staged in
      let e' = record e { backends = backends' } in
      elim committed [
        | thrown ↦ (thrown, e')
        | ok false ↦ (ok (with_rcode resp Rcode.serv_fail), e')
        | ok true ↦ after_commit e' zone resp
      ]

  unfoldable pub apply_update :
      Engine S → DnsMessage → DnsMessage → ZoneInfo → Outcome DnsMessage × Engine S
  apply_update e query resp zone = elim (Router.begin ops e.backends zone) [
    | none ↦ (ok (with_rcode resp Rcode.serv_fail), e)
    | some (i, b, tx) ↦
        (let soa = Router.lookup ops e.backends zone zone.name RrType.soa in
          let (staged, tx') = stage_serial (stage_all tx query.authority) soa in
          elim staged [ thrown ↦ (thrown, e) | ok done ↦ commit_update e resp zone (i, b, tx') ])
  ]

  module _ (hmac : Bytes → Bytes → Bytes) (now : ℕ) where
    unfoldable pub guarded_update :
        Engine S → DnsMessage → QueryContext → ZoneInfo → Outcome DnsMessage × Engine S
    guarded_update e query ctx zone =
        let resp = make_response query in
        if not (allowed_update e.config e.tsig_keys zone ctx.peer_host query)
        then (ok (with_rcode resp Rcode.refused), e)
        else if bad_signature hmac now e.tsig_keys query
        then (ok (with_rcode resp Rcode.not_auth), e)
        else apply_update e query resp zone

    -- `handleUpdate`; `now` is the system clock in seconds.
    unfoldable pub handle_update :
        Engine S → DnsMessage → QueryContext → Outcome DnsMessage × Engine S
    handle_update e query ctx =
        let resp = make_response query in
        let e' = record e { stats = record (e.stats) { updates = count_up e.stats.updates } } in
        elim query.questions [
          | [] ↦ (ok (with_rcode resp Rcode.form_err), e')
          | q ∷ qs ↦ elim (Router.find_zone ops e.backends q.qname) [
            | none ↦ (ok (with_rcode resp Rcode.not_auth), e')
            | some zone ↦ guarded_update e' query ctx zone
          ]
        ]
