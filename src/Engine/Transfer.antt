-- ===== src/Engine/Transfer.antt =====
-- `handleAxfr` of the engine: zone transfers.
pub mod Envelope
use simple_dnsd.Base.{
  ℕ, Bool, true, false, not, ◌&&◌, ◌||◌, Option, none, some, List, [], ◌∷◌, ◌++◌, ◌==◌,
  if◌then◌else◌, Bytes, is_empty, keep_if,
}
use simple_dnsd.Name.{DnsName, equals}
use simple_dnsd.Record.{ResourceRecord, new_record, Question, DnsMessage, make_response}
use simple_dnsd.Record.RrType
use simple_dnsd.Record.Rcode
use simple_dnsd.Backend.{ZoneInfo, Backend}
use simple_dnsd.Router
use simple_dnsd.Config.{DnsConfig}
use simple_dnsd.Tsig.{TsigKey, verify_message}
use simple_dnsd.Engine.State.{QueryContext, ServerStats, count_up, Engine}
use simple_dnsd.Engine.Access.{tsig_key, allowed_axfr}
use simple_dnsd.Engine.Answer.{with_rcode, with_aa}

-- The last SOA of the list, or the initial record.
unfoldable pub last_soa : ResourceRecord → List ResourceRecord → ResourceRecord
last_soa soa [] = soa
last_soa soa (rr ∷ rrs) = last_soa (if rr.type == RrType.soa then rr else soa) rrs

abbrev pub not_soa : ResourceRecord → Bool
not_soa rr = not (rr.type == RrType.soa)

-- `query.tsig` is there, and it fails: no key of its name, or a signature that does not verify.
abbrev pub bad_signature : (Bytes → Bytes → Bytes) → ℕ → List TsigKey → DnsMessage → Bool
bad_signature hmac now keys query = elim query.tsig [
  | none ↦ false
  | some rr ↦ elim (tsig_key keys rr.name) [
    | none ↦ true
    | some key ↦ not (verify_message hmac now query key)
  ]
]

abbrev pub is_unsigned : DnsMessage → Bool
is_unsigned query = elim query.tsig [ none ↦ true | some rr ↦ false ]

module _ {S T : Type 0} (hmac : Bytes → Bytes → Bytes) (ops : Backend S T) where
  -- The transfer of a zone, from an empty response.
  unfoldable pub transfer : List S → ZoneInfo → DnsMessage → Bool × DnsMessage
  transfer backends zone resp =
      let rrs = Router.list_zone ops backends zone in
      let soa = last_soa new_record rrs in
      let rest = keep_if not_soa rrs in
      if is_empty soa.rdata && is_empty soa.content
      then (false, with_rcode (with_aa resp true) Rcode.serv_fail)
      else (
        true,
        record (with_aa resp true) { answers = ((resp.answers ++ soa ∷ []) ++ rest) ++ soa ∷ [] },
      )

  -- The response to a question, once the zone of that name is found.
  unfoldable pub transfer_found :
      ℕ → Engine S → DnsMessage → QueryContext → ZoneInfo → DnsMessage × ServerStats
  transfer_found now e query ctx zone =
      let resp = make_response query in
      let refused = record (e.stats) { refused = count_up e.stats.refused } in
      let (done, answered) = transfer e.backends zone resp in
      if not (allowed_axfr e.config zone ctx.peer_host) && is_unsigned query
      then (with_rcode resp Rcode.refused, refused)
      else if bad_signature hmac now e.tsig_keys query
      then (with_rcode resp Rcode.not_auth, e.stats)
      else (answered, (if done then record (e.stats) { axfr = count_up e.stats.axfr } else e.stats))

  -- `handleAxfr`: every branch of the source returns a list of one message, which is given here with
  -- the statistics. `now` is the system clock in seconds.
  unfoldable pub handle_axfr : ℕ → Engine S → DnsMessage → QueryContext → DnsMessage × ServerStats
  handle_axfr now e query ctx =
      let resp = make_response query in
      let refused = record (e.stats) { refused = count_up e.stats.refused } in
      elim query.questions [
        | [] ↦ (with_rcode resp Rcode.form_err, e.stats)
        | q ∷ qs ↦
            if not ctx.tcp
            then (with_rcode resp Rcode.form_err, e.stats)
            else elim (Router.find_zone ops e.backends q.qname) [
              | none ↦ (with_rcode resp Rcode.refused, refused)
              | some zone ↦
                  if not (equals zone.name q.qname)
                  then (with_rcode resp Rcode.refused, refused)
                  else transfer_found now e query ctx zone
            ]
      ]
