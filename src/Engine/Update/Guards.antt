-- ===== src/Engine/Update/Guards.antt =====
-- Who may change a zone by a dynamic update, and what an update leaves alone.
use simple_dnsd.Base.{
  [], ℕ, ◌≡◌, true, false, some, List, ◌∷◌, Bytes, arith, Option-cases, List-cases, ◌⊎◌, inl, inr,
}
use simple_dnsd.Outcome.{ok, Outcome-cases}
use simple_dnsd.Record.{Question, DnsMessage, make_response}
use simple_dnsd.Inet.{Inet}
use simple_dnsd.Backend.{ZoneInfo, Backend}
use simple_dnsd.Router
use simple_dnsd.Engine.State.{QueryContext, Engine, count_up}
use simple_dnsd.Engine.Cache.{invalidate}
use simple_dnsd.Record.RrType
use simple_dnsd.Record.Rcode
use simple_dnsd.Engine.Access.{allowed_update}
use simple_dnsd.Engine.Transfer.{bad_signature}
use simple_dnsd.Engine.Update.{
  stage_all, stage_serial, notify_secondaries, after_commit, commit_update, apply_update,
  guarded_update, handle_update,
}

module _ {S T : Type 0} (net : Inet) (ops : Backend S T) where
  after_commit-id :
      (e : Engine S) (zone : ZoneInfo) (resp answer : DnsMessage)
      → (after_commit net ops e zone resp).0 ≡ ok answer
      → answer.header.id ≡ resp.header.id
  unfolding after_commit
  after_commit-id e zone resp answer h =
      elim (Outcome-cases
        (notify_secondaries net ops (record e { cache = invalidate e.cache }) zone).0) [
          | inl f ↦ absurd (ground arith)
          | inr (b, f) ↦ ground arith
        ]

  commit_update-id :
      (e : Engine S) (resp : DnsMessage) (zone : ZoneInfo) (staged : ℕ × S × T)
      (answer : DnsMessage)
      → (commit_update net ops e resp zone staged).0 ≡ ok answer
      → answer.header.id ≡ resp.header.id
  unfolding commit_update
  commit_update-id e resp zone staged answer h =
      let (committed, backends) = Router.commit ops e.backends staged in
      elim (Outcome-cases committed) [
        | inl g ↦ absurd (ground arith)
        | inr (true, g) ↦
            after_commit-id (record e { backends = backends }) zone resp answer (ground arith)
        | inr (false, g) ↦ ground arith
      ]

  apply_update-id :
      (e : Engine S) (query resp : DnsMessage) (zone : ZoneInfo) (answer : DnsMessage)
      → (apply_update net ops e query resp zone).0 ≡ ok answer
      → answer.header.id ≡ resp.header.id
  unfolding apply_update
  apply_update-id e query resp zone answer h =
      elim (Option-cases (Router.begin ops e.backends zone)) [
        | inl f ↦ ground arith
        | inr ((i, b, tx), f) ↦
            (let soa = Router.lookup ops e.backends zone zone.name RrType.soa in
              let (staged, tx') = stage_serial net ops (stage_all net ops tx query.authority) soa in
              elim (Outcome-cases staged) [
                | inl g ↦ absurd (ground arith)
                | inr (done, g) ↦ commit_update-id e resp zone (i, b, tx') answer (ground arith)
              ])
      ]

  after_commit-empty :
      (e : Engine S) (zone : ZoneInfo) (resp : DnsMessage)
      → (after_commit net ops e zone resp).1.cache.entries ≡ []
  unfolding after_commit notify_secondaries invalidate
  after_commit-empty e zone resp =
      elim (Outcome-cases
        (notify_secondaries net ops (record e { cache = invalidate e.cache }) zone).0) [
          | inl f ↦ ground arith
          | inr (b, f) ↦ ground arith
        ]

  commit_update-empty :
      (e : Engine S) (resp : DnsMessage) (zone : ZoneInfo) (staged : ℕ × S × T)
      (answer : DnsMessage)
      → (commit_update net ops e resp zone staged).0 ≡ ok answer
      → answer.header.rcode ≡ Rcode.no_error
      → (commit_update net ops e resp zone staged).1.cache.entries ≡ []
  unfolding commit_update
  commit_update-empty e resp zone staged answer h r =
      let (committed, backends) = Router.commit ops e.backends staged in
      elim (Outcome-cases committed) [
        | inl g ↦ absurd (ground arith)
        | inr (true, g) ↦
            ground (arith, after_commit-empty (record e { backends = backends }) zone resp)
        | inr (false, g) ↦ absurd (ground arith)
      ]

  apply_update-empty :
      (e : Engine S) (query resp : DnsMessage) (zone : ZoneInfo) (answer : DnsMessage)
      → (apply_update net ops e query resp zone).0 ≡ ok answer
      → answer.header.rcode ≡ Rcode.no_error
      → (apply_update net ops e query resp zone).1.cache.entries ≡ []
  unfolding apply_update
  apply_update-empty e query resp zone answer h r =
      elim (Option-cases (Router.begin ops e.backends zone)) [
        | inl f ↦ absurd (ground arith)
        | inr ((i, b, tx), f) ↦
            (let soa = Router.lookup ops e.backends zone zone.name RrType.soa in
              let (staged, tx') = stage_serial net ops (stage_all net ops tx query.authority) soa in
              elim (Outcome-cases staged) [
                | inl g ↦ absurd (ground arith)
                | inr (done, g) ↦
                    ground
                      (arith, commit_update-empty e resp zone (i, b, tx') answer (ground arith) r)
              ])
      ]

  module _ (hmac : Bytes → Bytes → Bytes) (now : ℕ) where
    -- What has to hold before a zone is changed by an update.
    pub record Admitted (e : Engine S) (query : DnsMessage) (ctx : QueryContext) : Type 0 where
      question : Question
      others : List Question
      zone : ZoneInfo
      asked : query.questions ≡ question ∷ others
      found : Router.find_zone ops e.backends question.qname ≡ some zone
      allowed : allowed_update e.config e.tsig_keys zone ctx.peer_host query ≡ true
      verified : bad_signature hmac now e.tsig_keys query ≡ false

    guarded_update-guards :
        (e : Engine S) (query : DnsMessage) (ctx : QueryContext) (zone : ZoneInfo)
        → ((guarded_update net ops hmac now e query ctx zone).1 ≡ e)
          ⊎ ((allowed_update e.config e.tsig_keys zone ctx.peer_host query ≡ true)
              × (bad_signature hmac now e.tsig_keys query ≡ false))
    unfolding guarded_update
    guarded_update-guards e query ctx zone = ground arith

    -- An update that is not admitted changes nothing but a counter: either the backends, the cache and
    -- what is sent and exported are left as they were, or the question is for a zone the server has,
    -- `allowedUpdate` admits the peer or its key, and the signature, where there is one, verifies.
    pub handle_update-Admitted :
        (e : Engine S) (query : DnsMessage) (ctx : QueryContext)
        → (((handle_update net ops hmac now e query ctx).1.backends ≡ e.backends)
            × ((handle_update net ops hmac now e query ctx).1.cache ≡ e.cache)
            × ((handle_update net ops hmac now e query ctx).1.effects ≡ e.effects))
          ⊎ Admitted e query ctx
    unfolding handle_update
    handle_update-Admitted e query ctx = elim (List-cases query.questions) [
      | inl f ↦ inl (ground arith)
      | inr (q, qs, f) ↦ elim (Option-cases (Router.find_zone ops e.backends q.qname)) [
        | inl g ↦ inl (ground arith)
        | inr (zone, g) ↦
            (let counted = record e {
              stats = record (e.stats) { updates = count_up e.stats.updates };
            } in
              elim (guarded_update-guards counted query ctx zone) [
                | inl same ↦ inl (ground arith)
                | inr (a, v) ↦ inr (record {
                  question = q;
                  others = qs;
                  zone = zone;
                  asked = f;
                  found = g;
                  allowed = a;
                  verified = v;
                })
              ])
      ]
    ]

    guarded_update-id :
        (e : Engine S) (query : DnsMessage) (ctx : QueryContext) (zone : ZoneInfo)
        (answer : DnsMessage)
        → (guarded_update net ops hmac now e query ctx zone).0 ≡ ok answer
        → answer.header.id ≡ query.header.id
    unfolding guarded_update make_response
    guarded_update-id e query ctx zone answer h =
        ground (arith, apply_update-id e query (make_response query) zone answer)

    pub handle_update-id :
        (e : Engine S) (query : DnsMessage) (ctx : QueryContext) (answer : DnsMessage)
        → (handle_update net ops hmac now e query ctx).0 ≡ ok answer
        → answer.header.id ≡ query.header.id
    unfolding handle_update make_response
    handle_update-id e query ctx answer h = elim (List-cases query.questions) [
      | inl f ↦ ground arith
      | inr (q, qs, f) ↦ elim (Option-cases (Router.find_zone ops e.backends q.qname)) [
        | inl g ↦ ground arith
        | inr (zone, g) ↦
            (let counted = record e {
              stats = record (e.stats) { updates = count_up e.stats.updates };
            } in
              guarded_update-id counted query ctx zone answer (ground arith))
      ]
    ]

    guarded_update-empty :
        (e : Engine S) (query : DnsMessage) (ctx : QueryContext) (zone : ZoneInfo)
        (answer : DnsMessage)
        → (guarded_update net ops hmac now e query ctx zone).0 ≡ ok answer
        → answer.header.rcode ≡ Rcode.no_error
        → (guarded_update net ops hmac now e query ctx zone).1.cache.entries ≡ []
    unfolding guarded_update
    guarded_update-empty e query ctx zone answer h r =
        ground (arith, apply_update-empty e query (make_response query) zone answer)

    -- After an update that is answered with success no response is left in the cache.
    pub handle_update-empty :
        (e : Engine S) (query : DnsMessage) (ctx : QueryContext) (answer : DnsMessage)
        → (handle_update net ops hmac now e query ctx).0 ≡ ok answer
        → answer.header.rcode ≡ Rcode.no_error
        → (handle_update net ops hmac now e query ctx).1.cache.entries ≡ []
    unfolding handle_update
    handle_update-empty e query ctx answer h r = elim (List-cases query.questions) [
      | inl f ↦ absurd (ground arith)
      | inr (q, qs, f) ↦ elim (Option-cases (Router.find_zone ops e.backends q.qname)) [
        | inl g ↦ absurd (ground arith)
        | inr (zone, g) ↦
            (let counted = record e {
              stats = record (e.stats) { updates = count_up e.stats.updates };
            } in
              ground (arith, guarded_update-empty counted query ctx zone answer))
      ]
    ]
