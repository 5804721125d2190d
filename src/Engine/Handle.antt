-- ===== src/Engine/Handle.antt =====
-- `handle` and `answerCached` of the engine.
pub mod Identity
use simple_dnsd.Base.{
  ℕ, ◌%◌, ◌^◌, min, Bool, true, false, not, ◌&&◌, ◌||◌, Option, none, some, List, [], ◌∷◌, ◌++◌,
  ltb, ◌==◌, if◌then◌else◌, Bytes, codes,
}
use simple_dnsd.Outcome.{Outcome, ok, thrown}
use simple_dnsd.Name.{to_lower_string}
use simple_dnsd.Record.{ResourceRecord, Question, DnsMessage, make_response}
use simple_dnsd.Record.RrType
use simple_dnsd.Record.RrType.{rr_type_to_string}
use simple_dnsd.Record.Rcode
use simple_dnsd.Record.Opcode
use simple_dnsd.Inet.{Inet}
use simple_dnsd.Message.{encode_message, decode_message}
use simple_dnsd.Backend.{Backend}
use simple_dnsd.Engine.State.{QueryContext, ServerStats, count_up, Engine}
use simple_dnsd.Engine.Cache
use simple_dnsd.Engine.Limiter.{allow}
use simple_dnsd.Engine.Answer.{with_rcode, answer_query}
use simple_dnsd.Engine.Transfer.{handle_axfr}
use simple_dnsd.Engine.Update.{handle_update}

-- The key of a response in the cache.
unfoldable pub cache_key : Question → QueryContext → DnsMessage → Bytes
unfolding to_lower_string rr_type_to_string
cache_key q ctx query =
    to_lower_string true q.qname
    ++ (codes "|"
        ++ (rr_type_to_string q.qtype
            ++ (codes "|"
                ++ ((if ctx.tcp then codes "t" else codes "u")
                    ++ (if query.edns.present then codes "|e" else [])))))

-- The least TTL of the records, OPT records left out; 0 stands for none so far.
least_ttl : ℕ → List ResourceRecord → ℕ
least_ttl ttl [] = ttl
least_ttl ttl (rr ∷ rrs) =
    least_ttl (if rr.type == RrType.opt then ttl else if ttl == 0 then rr.ttl else min ttl rr.ttl)
      rrs

unfoldable pub cache_lifetime : ℕ → DnsMessage → ℕ
unfolding least_ttl
cache_lifetime cache_ttl resp =
    if cache_ttl == 0 then least_ttl (least_ttl 0 resp.answers) resp.authority else cache_ttl

-- The two clocks of the engine: milliseconds of the steady clock, seconds of the system clock.
pub record Clocks : Type 0 where
  pub ms : ℕ
  pub seconds : ℕ

module _ {S T : Type 0} (net : Inet) (ops : Backend S T) where
  -- The entry under the key, decoded; `none` where it is missing, expired or refused.
  abbrev pub cached_message : ℕ → Engine S → Bytes → Option DnsMessage
  cached_message now e key = elim ((Cache.get now e.cache key).0) [
    | none ↦ none
    | some wire ↦ decode_message net wire
  ]

  -- What a fresh response leaves in the cache.
  unfoldable pub remember : ℕ → Engine S → Bytes → DnsMessage → Engine S
  unfolding cache_lifetime encode_message Cache.put
  remember now e key resp =
      let ttl = cache_lifetime e.config.cache_ttl resp in
      if ltb 0 e.config.cache_size
        && (resp.header.rcode == Rcode.no_error || resp.header.rcode == Rcode.nx_domain)
        && ltb 0 ttl
      then record e { cache = Cache.put now e.cache key (encode_message resp 0).0 ttl }
      else e

  abbrev pub with_stats : Engine S → ServerStats → Engine S
  with_stats e stats = record e { stats = stats }

  -- The path past the cache.
  unfoldable pub answer_fresh : ℕ → Engine S → Bytes → DnsMessage → Question → DnsMessage × Engine S
  answer_fresh now e key query q =
      let (resp, stats) = answer_query net ops e.config e.backends e.stats query q in
      (resp, remember now (with_stats e stats) key resp)

  abbrev pub with_id : DnsMessage → ℕ → DnsMessage
  with_id resp id = record resp { header = record (resp.header) { id = id } }

  -- `answerCached`, on the query's first question.
  unfoldable pub answer_cached :
      ℕ → Engine S → DnsMessage → Question → QueryContext → DnsMessage × Engine S
  answer_cached now e query q ctx =
      let key = cache_key q ctx query in
      let looked = record e { cache = (Cache.get now e.cache key).1 } in
      let hit = with_stats looked (record (e.stats) {
        answers = count_up e.stats.answers;
        cache_hits = count_up e.stats.cache_hits;
      }) in
      let missed =
        with_stats looked (record (e.stats) { cache_misses = count_up e.stats.cache_misses }) in
      if ltb 0 e.config.cache_size
      then elim (cached_message now e key) [
        | some cached ↦ (with_id cached query.header.id, hit)
        | none ↦ answer_fresh now missed key query q
      ]
      else answer_fresh now e key query q

  abbrev pub returning : DnsMessage × Engine S → Outcome DnsMessage × Engine S
  returning (resp, e) = (ok resp, e)

  -- The branch of the opcode `Query`.
  unfoldable pub handle_question :
      (Bytes → Bytes → Bytes)
      → Clocks
      → Engine S
      → DnsMessage
      → QueryContext
      → DnsMessage × Engine S
  handle_question hmac now e query ctx = elim query.questions [
    | [] ↦ (with_rcode (make_response query) Rcode.form_err, e)
    | q ∷ qs ↦
        (let (transferred, stats) = handle_axfr hmac ops now.seconds e query ctx in
          if q.qtype == RrType.axfr || q.qtype == RrType.ixfr
          then (transferred, with_stats e stats)
          else answer_cached now.ms e query q ctx)
  ]

  -- `handle`: the response, or the exception that ends it, and the engine after it.
  unfoldable pub handle :
      (Bytes → Bytes → Bytes)
      → Clocks
      → Engine S
      → DnsMessage
      → QueryContext
      → Outcome DnsMessage × Engine S
  handle hmac now e query ctx =
      let counted = with_stats e (record (e.stats) { queries = count_up e.stats.queries }) in
      let (allowed, limiter) = allow now.ms e.limiter ctx.peer_host in
      let e' = record counted { limiter = limiter } in
      let resp = make_response query in
      if not allowed
      then (
        ok (with_rcode resp Rcode.refused),
        with_stats e' (record (e'.stats) { refused = count_up e'.stats.refused }),
      )
      else if query.header.opcode == Opcode.update
      then handle_update net ops hmac now.seconds e' query ctx
      else if query.header.opcode == Opcode.notify
      then (ok (with_rcode resp Rcode.no_error), e')
      else if not (query.header.opcode == Opcode.query)
      then (ok (with_rcode resp Rcode.not_imp), e')
      else returning (handle_question hmac now e' query ctx)
