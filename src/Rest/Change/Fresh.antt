-- ===== src/Rest/Change/Fresh.antt =====
-- What the changes of the REST interface do to the packet cache.
use simple_dnsd.Base.{
  ℕ, ◌≡◌, refl, ap, ◌∙◌, ◌==◌, Bool, true, false, none, some, [], Bytes, codes, arith, Option-cases,
  inl, inr,
}
use simple_dnsd.Outcome.{Outcome, ok, thrown, Outcome-cases}
use simple_dnsd.Name.{DnsName}
use simple_dnsd.Record.{ResourceRecord}
use simple_dnsd.Inet.{Inet}
use simple_dnsd.Backend.{ZoneInfo, Backend}
use simple_dnsd.Router
use simple_dnsd.Engine.State.{Engine}
use simple_dnsd.Engine.Cache.{invalidate}
use simple_dnsd.Rest.Json.{JsonLib}
use simple_dnsd.Rest.Change.{
  HttpResponse, new_zone_of, post_rrsets, fill_zone, made, create_from, create_zone, staged_patch,
  commit_patch, patch_zone,
}

abbrev code_of : Outcome HttpResponse → ℕ
code_of thrown = 0
code_of (ok r) = r.code

-- A response has one code.
other_code :
    {A : Type 0} (o : Outcome HttpResponse) (r : HttpResponse) (c : ℕ)
    → o ≡ ok r
    → (code_of o == c) ≡ false
    → r.code ≡ c
    → A
other_code o r c h n k =
    let p : code_of o ≡ r.code = ap (λ (t : Outcome HttpResponse). code_of t) h in
    absurd (ground arith)

module _ {J S T : Type 0} (json : JsonLib J) (net : Inet) (ops : Backend S T) where
  -- What a response to a PATCH says of the engine it leaves.
  abbrev pub Told : Engine S → HttpResponse → Engine S → Type 0
  Told e r e' = (r.code ≡ 200 → e'.cache.entries ≡ []) × (r.code ≡ 400 → e' ≡ e)

  commit_patch-Told :
      (e : Engine S) (zname : DnsName) (zone : ZoneInfo) (staged : ℕ × S × T) (r : HttpResponse)
      → (commit_patch json net ops e zname zone staged).0 ≡ ok r
      → Told e r (commit_patch json net ops e zname zone staged).1
  unfolding commit_patch invalidate
  commit_patch-Told e zname zone staged r h =
      elim (Outcome-cases (Router.commit ops e.backends staged).0) [
        | inl f ↦ absurd (ground arith)
        | inr (true, f) ↦
            rw (commit_patch, f) (λ k. refl, other_code _ r 400 (rw (commit_patch, f) at h) refl)
        | inr (false, f) ↦
            rw (commit_patch, f)
              (
                other_code _ r 200 (rw (commit_patch, f) at h) refl,
                other_code _ r 400 (rw (commit_patch, f) at h) refl,
              )
      ]

  -- A PATCH that is answered with 200 leaves an empty cache, and one that is answered with 400 leaves
  -- the engine as it was.
  pub patch_zone-Told :
      (e : Engine S) (zname : DnsName) (zone : ZoneInfo) (body : Bytes) (r : HttpResponse)
      → (patch_zone json net ops e zname zone body).0 ≡ ok r
      → Told e r (patch_zone json net ops e zname zone body).1
  unfolding patch_zone
  patch_zone-Told e zname zone body r h = elim (Option-cases (json.parse body)) [
    | inl f ↦ rw (patch_zone, f) (other_code _ r 200 (rw (patch_zone, f) at h) refl, λ k. refl)
    | inr (root, f) ↦ elim (Option-cases (Router.begin ops e.backends zone)) [
      | inl g ↦
          rw (patch_zone, f, g) (other_code _ r 200 (rw (patch_zone, f, g) at h) refl, λ k. refl)
      | inr ((i, b, tx), g) ↦ elim (Outcome-cases (staged_patch json net ops e zone root tx)) [
        | inl k ↦ absurd (ground arith)
        | inr (tx', k) ↦
            rw (patch_zone, f, g, k)
              (commit_patch-Told e zname zone (i, b, tx') r (rw (patch_zone, f, g, k) at h))
      ]
    ]
  ]

  fill_zone-cache :
      (e : Engine S) (z created : ZoneInfo) (root : J)
      → (fill_zone json net ops e z created root).1.cache ≡ e.cache
  unfolding fill_zone
  fill_zone-cache e z created root = elim (Outcome-cases (json.member root (codes "rrsets"))) [
    | inl f ↦ rw (fill_zone, f) refl
    | inr (none, f) ↦ rw (fill_zone, f) refl
    | inr (some rrsets, f) ↦ elim (Option-cases (Router.begin ops e.backends created)) [
      | inl g ↦ rw (fill_zone, f, g) refl
      | inr ((i, b, tx), g) ↦
          elim (Outcome-cases (post_rrsets json net ops z tx (json.items rrsets))) [
            | inl k ↦ rw (fill_zone, f, g, k) refl
            | inr (tx', k) ↦ rw (fill_zone, f, g, k) refl
          ]
    ]
  ]

  made-cache :
      (z : ZoneInfo) (p : Outcome Bool × Engine S) → (made json net ops z p).1.cache ≡ p.1.cache
  unfolding made
  made-cache z (thrown, e) = refl
  made-cache z (ok b, e) = refl

  create_from-cache :
      (e : Engine S) (root : J) (z : ZoneInfo) (soa : ResourceRecord)
      → (create_from json net ops e root (z, soa)).1.cache ≡ e.cache
  unfolding create_from
  create_from-cache e root z soa =
      let (done, backends) = Router.create_zone ops e.backends z soa in
      let e' = record e { backends = backends } in
      elim (Outcome-cases (Router.create_zone ops e.backends z soa).0) [
        | inl f ↦ rw (create_from, f) refl
        | inr (false, f) ↦ rw (create_from, f) refl
        | inr (true, f) ↦ elim (Option-cases (Router.find_zone ops backends z.name)) [
          | inl g ↦ rw (create_from, f, g) refl
          | inr (created, g) ↦
              rw (create_from, f, g)
                (made-cache created (fill_zone json net ops e' z created root)
                  ∙ fill_zone-cache e' z created root)
        ]
      ]

  -- A POST of a zone never empties the cache: whether the zone is made or not, what was cached before
  -- is what is cached after.
  pub create_zone-cache :
      (e : Engine S) (body : Bytes) → (create_zone json net ops e body).1.cache ≡ e.cache
  unfolding create_zone
  create_zone-cache e body = elim (Option-cases (json.parse body)) [
    | inl f ↦ rw (create_zone, f) refl
    | inr (root, f) ↦ elim (Outcome-cases (new_zone_of json net root)) [
      | inl g ↦ rw (create_zone, f, g) refl
      | inr ((z, soa), g) ↦ rw (create_zone, f, g) (create_from-cache e root z soa)
    ]
  ]
