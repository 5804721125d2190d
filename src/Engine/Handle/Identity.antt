-- ===== src/Engine/Handle/Identity.antt =====
-- Every response of the engine carries the id of its query.
use simple_dnsd.Base.{ℕ, ◌≡◌, ◌∙◌, Bytes, arith, Option-cases, List-cases, inl, inr}
use simple_dnsd.Outcome.{ok}
use simple_dnsd.Record.{Question, DnsMessage, make_response}
use simple_dnsd.Inet.{Inet}
use simple_dnsd.Backend.{Backend}
use simple_dnsd.Engine.State.{QueryContext, Engine, count_up}
use simple_dnsd.Engine.Answer.{answer_query, add_edns, resolve}
use simple_dnsd.Engine.Answer.Branches.{resolve_identity}
use simple_dnsd.Engine.Cache
use simple_dnsd.Engine.Limiter.{allow}
use simple_dnsd.Engine.Update.Guards.{handle_update-id}
use simple_dnsd.Engine.Transfer.Envelope.{handle_axfr-id}
use simple_dnsd.Engine.Handle.{
  Clocks, with_stats, cache_key, cached_message, answer_fresh, answer_cached, handle_question,
  handle,
}

module _ {S T : Type 0} (net : Inet) (ops : Backend S T) (hmac : Bytes → Bytes → Bytes) where
  add_edns-id :
      (resp query : DnsMessage) (size : ℕ) → (add_edns resp query size).header.id ≡ resp.header.id
  unfolding add_edns
  add_edns-id resp query size = ground arith

  answer_fresh-id :
      (now : ℕ) (e : Engine S) (key : Bytes) (query : DnsMessage) (q : Question)
      → (answer_fresh net ops now e key query q).0.header.id ≡ query.header.id
  unfolding answer_fresh answer_query
  answer_fresh-id now e key query q =
      add_edns-id (resolve net ops e.backends query q) query _
      ∙ (resolve_identity net ops e.backends query q).0

  answer_cached-id :
      (now : ℕ) (e : Engine S) (query : DnsMessage) (q : Question) (ctx : QueryContext)
      → (answer_cached net ops now e query q ctx).0.header.id ≡ query.header.id
  unfolding answer_cached
  answer_cached-id now e query q ctx =
      let key = cache_key q ctx query in
      let looked = record e { cache = (Cache.get now e.cache key).1 } in
      let missed =
        with_stats net ops looked
          (record (e.stats) { cache_misses = count_up e.stats.cache_misses }) in
      elim (Option-cases (cached_message net ops now e key)) [
        | inl f ↦
            ground
              (arith, answer_fresh-id now missed key query q, answer_fresh-id now e key query q)
        | inr (cached, f) ↦ ground (arith, answer_fresh-id now e key query q)
      ]

  handle_question-id :
      (now : Clocks) (e : Engine S) (query : DnsMessage) (ctx : QueryContext)
      → (handle_question net ops hmac now e query ctx).0.header.id ≡ query.header.id
  unfolding handle_question make_response
  handle_question-id now e query ctx = elim (List-cases query.questions) [
    | inl f ↦ ground arith
    | inr (q, qs, f) ↦ ground (
      arith,
      handle_axfr-id hmac ops now.seconds e query ctx,
      answer_cached-id now.ms e query q ctx,
    )
  ]

  -- Every response that `handle` gives carries the id of the query it was given, whichever branch
  -- made it: a refusal, an update, a notification, a transfer, the cache or the backends.
  pub handle-id :
      (now : Clocks) (e : Engine S) (query : DnsMessage) (ctx : QueryContext) (resp : DnsMessage)
      → (handle net ops hmac now e query ctx).0 ≡ ok resp
      → resp.header.id ≡ query.header.id
  unfolding handle make_response
  handle-id now e query ctx resp h =
      let counted =
        with_stats net ops e (record (e.stats) { queries = count_up e.stats.queries }) in
      let e' = record counted { limiter = (allow now.ms e.limiter ctx.peer_host).1 } in
      ground (
        arith,
        handle_update-id net ops hmac now.seconds e' query ctx resp,
        handle_question-id now e' query ctx,
      )
