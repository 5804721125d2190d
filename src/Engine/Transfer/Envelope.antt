-- ===== src/Engine/Transfer/Envelope.antt =====
-- Zone transfers: who gets one, and its form.
use simple_dnsd.Base.{
  is_empty, ℕ, ◌≡◌, refl, true, false, some, List, [], ◌∷◌, ◌++◌, Bytes, keep_if, arith,
  Option-cases, List-cases, ◌⊎◌, inl, inr,
}
use simple_dnsd.Name.{equals}
use simple_dnsd.Record.{ResourceRecord, new_record, Question, DnsMessage, make_response}
use simple_dnsd.Record.RrType
use simple_dnsd.Backend.{ZoneInfo, Backend}
use simple_dnsd.Router
use simple_dnsd.Engine.State.{QueryContext, Engine}
use simple_dnsd.Engine.Access.{allowed_axfr}
use simple_dnsd.Engine.Transfer.{
  last_soa, not_soa, bad_signature, is_unsigned, transfer, transfer_found, handle_axfr,
}

last_soa-cases :
    (soa : ResourceRecord) (rrs : List ResourceRecord)
    → (last_soa soa rrs ≡ soa) ⊎ ((last_soa soa rrs).type ≡ RrType.soa)
unfolding last_soa
last_soa-cases soa [] = inl refl
last_soa-cases soa (rr ∷ rrs) = ground (arith, last_soa-cases rr rrs, last_soa-cases soa rrs)

module _ {S T : Type 0} (hmac : Bytes → Bytes → Bytes) (ops : Backend S T) where
  -- A transfer that is made begins and ends with one and the same record of type SOA, and has between
  -- them the zone's records of every other type, in their order.
  pub transfer_envelope :
      (backends : List S) (zone : ZoneInfo) (query : DnsMessage)
      → (transfer hmac ops backends zone (make_response query)).0 ≡ true
      → (soa : ResourceRecord) × (soa.type ≡ RrType.soa)
        × ((transfer hmac ops backends zone (make_response query)).1.answers
            ≡ soa ∷ (keep_if not_soa (Router.list_zone ops backends zone) ++ soa ∷ []))
  unfolding transfer make_response
  transfer_envelope backends zone query h =
      let rrs = Router.list_zone ops backends zone in
      (
        last_soa new_record rrs,
        elim (last_soa-cases new_record rrs) [ inl e ↦ absurd (ground arith) | inr t ↦ t ],
        ground arith,
      )

  -- What has to hold before any record of a zone is sent by a transfer.
  pub record Granted (now : ℕ) (e : Engine S) (query : DnsMessage) (ctx : QueryContext)
      : Type 0 where
    question : Question
    others : List Question
    zone : ZoneInfo
    asked : query.questions ≡ question ∷ others
    over_tcp : ctx.tcp ≡ true
    found : Router.find_zone ops e.backends question.qname ≡ some zone
    at_apex : equals zone.name question.qname ≡ true
    admitted : (allowed_axfr e.config zone ctx.peer_host ≡ true) ⊎ (is_unsigned query ≡ false)
    verified : bad_signature hmac now e.tsig_keys query ≡ false

  transfer-id :
      (backends : List S) (zone : ZoneInfo) (resp : DnsMessage)
      → (transfer hmac ops backends zone resp).1.header.id ≡ resp.header.id
  unfolding transfer
  transfer-id backends zone resp = ground arith

  pub handle_axfr-id :
      (now : ℕ) (e : Engine S) (query : DnsMessage) (ctx : QueryContext)
      → (handle_axfr hmac ops now e query ctx).0.header.id ≡ query.header.id
  unfolding handle_axfr transfer_found make_response
  handle_axfr-id now e query ctx = elim (List-cases query.questions) [
    | inl none_asked ↦ ground arith
    | inr (q, qs, asked) ↦ elim (Option-cases (Router.find_zone ops e.backends q.qname)) [
      | inl f ↦ ground arith
      | inr (zone, f) ↦ ground (arith, transfer-id e.backends zone (make_response query))
    ]
  ]

  transfer_found-answers :
      (now : ℕ) (e : Engine S) (query : DnsMessage) (ctx : QueryContext) (zone : ZoneInfo)
      → is_empty (transfer_found hmac ops now e query ctx zone).0.answers ≡ false
      → ((allowed_axfr e.config zone ctx.peer_host ≡ true) ⊎ (is_unsigned query ≡ false))
        × (bad_signature hmac now e.tsig_keys query ≡ false)
  unfolding transfer_found make_response
  transfer_found-answers now e query ctx zone h = ground arith

  -- A transfer response that carries a record answers a question over TCP for the apex of a zone the
  -- server has, from a host that `allowedAxfr` admits or with a signature, and the signature, where
  -- there is one, verifies.
  pub handle_axfr-Granted :
      (now : ℕ) (e : Engine S) (query : DnsMessage) (ctx : QueryContext)
      → is_empty (handle_axfr hmac ops now e query ctx).0.answers ≡ false
      → Granted now e query ctx
  unfolding handle_axfr make_response
  handle_axfr-Granted now e query ctx h = elim (List-cases query.questions) [
    | inl none_asked ↦ absurd (ground arith)
    | inr (q, qs, asked) ↦ elim (Option-cases (Router.find_zone ops e.backends q.qname)) [
      | inl f ↦ absurd (ground arith)
      | inr (zone, f) ↦
          (let t = transfer_found-answers now e query ctx zone (ground arith) in
            record {
              question = q;
              others = qs;
              zone = zone;
              asked = asked;
              over_tcp = ground arith;
              found = f;
              at_apex = ground arith;
              admitted = t.0;
              verified = t.1;
            })
    ]
  ]
