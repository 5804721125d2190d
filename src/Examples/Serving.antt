-- ===== src/Examples/Serving.antt =====
-- The cache, the limiter and the engine.
use simple_dnsd.Base.{
  ℕ, List, Bytes, ◌≤◌, ◌-◌, ◌≡◌, ◌≢◌, ◌⊎◌, refl, true, false, some, [], ◌∷◌, ◌++◌, codes, arith,
  min, is_empty, keep_if,
}
use simple_dnsd.Text.{lower_byte}
use simple_dnsd.Name.{DnsName, equals, parent}
use simple_dnsd.Record.{ResourceRecord, DnsMessage, make_response}
use simple_dnsd.Record.RrType
use simple_dnsd.Backend.{ZoneInfo}
use simple_dnsd.StringMap
use simple_dnsd.Router
use simple_dnsd.Engine.Cache.{new_cache, get, put}
use simple_dnsd.Engine.Cache.Laws.{put-size}
use simple_dnsd.Engine.Limiter.{ResponseRateLimiter}
use simple_dnsd.Engine.Limiter.Laws.{run, calls_of, used, run-Within}
use simple_dnsd.Engine.Answer.{resolve, wild_from}
use simple_dnsd.Engine.Answer.Branches.{resolve-nx_domain, resolve-no_authority}
use simple_dnsd.Engine.Transfer.{transfer, handle_axfr, not_soa}
use simple_dnsd.Engine.Transfer.Envelope.{transfer_envelope, Granted, handle_axfr-Granted}
use simple_dnsd.Engine.Update.{handle_update}
use simple_dnsd.Engine.Update.Guards.{Admitted, handle_update-Admitted}
use simple_dnsd.Engine.Handle.{Clocks, handle}
use simple_dnsd.Engine.Handle.Identity.{handle-id}
use simple_dnsd.Memory.{MemoryBackend}
use simple_dnsd.Engine.State.{Engine}
use simple_dnsd.Examples.Data.{
  open_to_updates, example_com, www, host_sub, no_such, no_inet, no_hmac, zone_info, backends, ops,
  ask, query, peer, engine,
}

put-size_example : StringMap.size (put 1000 (new_cache 2) (codes "k") (7 ∷ []) 2).entries ≤ 2
put-size_example = put-size 1000 2 (new_cache 2) (codes "k") (7 ∷ []) (omega arith)

abbrev limiter : ResponseRateLimiter
limiter = record { rate = 2; buckets = [] }

abbrev two_peers : List (ℕ × Bytes)
two_peers =
    (5000, codes "a")
    ∷ (5010, codes "b")
    ∷ (5100, codes "a")
    ∷ (5200, codes "b")
    ∷ (5999, codes "a")
    ∷ []

run-Within_example :
    run two_peers limiter (codes "a")
    ≡ min (calls_of (codes "a") two_peers) (2 - used 5 limiter (codes "a"))
run-Within_example =
    run-Within 5 two_peers limiter (codes "a") (omega arith) (omega arith)
      (refl, (refl, (refl, (refl, (refl, tt)))))

resolve-nx_domain_example :
    (zone : ZoneInfo) × (Router.find_zone ops backends no_such ≡ some zone)
    × (is_empty (
          wild_from no_inet ops backends
            (query no_such RrType.a)
            (ask no_such RrType.a)
            zone
            (parent no_such).labels)
        ≡ true)
    × (Router.name_exists ops backends zone no_such ≡ false)
    × ((resolve no_inet ops backends (query no_such RrType.a) (ask no_such RrType.a)).header.aa
        ≡ true)
    × ((resolve no_inet ops backends (query no_such RrType.a) (ask no_such RrType.a)).authority
        ≡ Router.lookup ops backends zone zone.name RrType.soa)
unfolding resolve lower_byte Router.find_zone simple_dnsd.Memory.find_zone simple_dnsd.Text.to_lower
    Router.find_delegation simple_dnsd.Memory.list_zones simple_dnsd.Memory.find_delegation
    simple_dnsd.Engine.Answer.answer_in_zone simple_dnsd.Engine.Answer.chase
    simple_dnsd.Memory.lookup simple_dnsd.Engine.Answer.conclude wild_from parent
    simple_dnsd.Memory.name_exists
resolve-nx_domain_example =
    resolve-nx_domain no_inet ops backends (query no_such RrType.a) (ask no_such RrType.a) refl

abbrev referred : DnsMessage
referred = resolve no_inet ops backends (query host_sub RrType.a) (ask host_sub RrType.a)

resolve-no_authority_example :
    (zone : ZoneInfo) × (cut : DnsName) × (Router.find_zone ops backends host_sub ≡ some zone)
    × (Router.find_delegation ops backends zone host_sub ≡ some cut)
    × ((equals cut host_sub ≡ false) ⊎ ((RrType.a ≢ RrType.ns) × (RrType.a ≢ RrType.ds)))
    × (referred.answers ≡ [])
    × (referred.authority ≡ Router.lookup ops backends zone cut RrType.ns)
unfolding resolve Router.find_zone Router.find_delegation equals lower_byte
    simple_dnsd.Memory.find_zone simple_dnsd.Text.to_lower simple_dnsd.Memory.list_zones
    simple_dnsd.Memory.find_delegation simple_dnsd.Engine.Answer.refer
    simple_dnsd.Engine.Answer.add_glue Router.lookup simple_dnsd.Memory.lookup
    simple_dnsd.Name.parse
resolve-no_authority_example =
    resolve-no_authority no_inet ops backends (query host_sub RrType.a) (ask host_sub RrType.a) refl
      refl

transfer_envelope_example :
    (soa : ResourceRecord) × (soa.type ≡ RrType.soa)
    × ((transfer no_hmac ops backends zone_info
          (make_response (query example_com RrType.axfr))).1.answers
        ≡ soa ∷ (keep_if not_soa (Router.list_zone ops backends zone_info) ++ soa ∷ []))
unfolding transfer lower_byte simple_dnsd.Engine.Transfer.last_soa Router.list_zone
    simple_dnsd.Memory.list_zones simple_dnsd.Text.to_lower simple_dnsd.Memory.list_zone
transfer_envelope_example =
    transfer_envelope no_hmac ops backends zone_info (query example_com RrType.axfr) refl

handle_axfr-Granted_example : Granted no_hmac ops 9 engine (query example_com RrType.axfr) peer
unfolding handle_axfr lower_byte Router.find_zone simple_dnsd.Memory.find_zone
    simple_dnsd.Text.to_lower simple_dnsd.Engine.Transfer.transfer_found
    simple_dnsd.Engine.Access.allowed_axfr transfer simple_dnsd.Engine.Transfer.last_soa
    Router.list_zone simple_dnsd.Memory.list_zones simple_dnsd.Memory.list_zone make_response
handle_axfr-Granted_example =
    handle_axfr-Granted no_hmac ops 9 engine (query example_com RrType.axfr) peer refl

handle_update-Admitted_example :
    (((handle_update no_inet ops no_hmac 9 engine (query example_com RrType.soa) peer).1.backends
        ≡ engine.backends)
      × ((handle_update no_inet ops no_hmac 9 engine (query example_com RrType.soa) peer).1.cache
          ≡ engine.cache)
      × ((handle_update no_inet ops no_hmac 9 engine (query example_com RrType.soa) peer).1.effects
          ≡ engine.effects))
    ⊎ Admitted no_inet ops no_hmac 9 engine (query example_com RrType.soa) peer
handle_update-Admitted_example =
    handle_update-Admitted no_inet ops no_hmac 9 engine (query example_com RrType.soa) peer

-- The peer may update the zone, and the update section is empty.
abbrev open_engine : Engine MemoryBackend
open_engine = record engine {
  backends = ((codes "example.com.", open_to_updates) ∷ []) ∷ [];
  cache = put 1000 (new_cache 16) (codes "k") (7 ∷ []) 60;
}

abbrev clocks : Clocks
clocks = record { ms = 5000; seconds = 9 }

abbrev answered : DnsMessage
answered = resolve no_inet ops engine.backends (query www RrType.a) (ask www RrType.a)

handle-id_example : answered.header.id ≡ 77
unfolding handle lower_byte simple_dnsd.Engine.Limiter.allow resolve
    simple_dnsd.Engine.Handle.handle_question Router.find_zone
    simple_dnsd.Engine.Handle.answer_cached simple_dnsd.Memory.find_zone get
    simple_dnsd.Text.to_lower simple_dnsd.Engine.Handle.answer_fresh Router.find_delegation
    simple_dnsd.Engine.Answer.answer_query
handle-id_example =
    handle-id no_inet ops no_hmac clocks engine (query www RrType.a) peer answered refl
