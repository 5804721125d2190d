-- ===== src/Rest/Change.antt =====
-- The requests of src/simple-dnsd/api/rest.cpp that change zones: POST of a zone and PATCH of its records.
pub mod Fresh
use simple_dnsd.Base.{
  ℕ, Bool, true, false, Option, none, some, List, [], ◌∷◌, ◌++◌, ◌==◌, if◌then◌else◌, Bytes, codes,
  str_eq,
}
use simple_dnsd.Outcome.{Outcome, ok, thrown, ◌>>=◌}
use simple_dnsd.Text.{to_lower}
use simple_dnsd.Name.{DnsName, parse, to_string}
use simple_dnsd.Record.{ResourceRecord, new_record}
use simple_dnsd.Record.RrType
use simple_dnsd.Record.RrType.{rr_type_from_string}
use simple_dnsd.Inet.{Inet}
use simple_dnsd.Rdata.{content_to_rdata}
use simple_dnsd.Backend.{ZoneInfo, new_zone, Backend}
use simple_dnsd.Router
use simple_dnsd.Engine.State.{Engine}
use simple_dnsd.Engine.Cache.{invalidate}
use simple_dnsd.Engine.Update.{stage_serial}
use simple_dnsd.Rest.Json.{JsonLib, get_string, get_uint, member_items, zone_to_json}

pub record HttpResponse : Type 0 where
  pub code : ℕ
  pub status : Bytes
  pub body : Bytes
  pub type : Bytes

abbrev pub reply : ℕ → Bytes → Bytes → HttpResponse
reply code status body = record {
  code = code;
  status = status;
  body = body;
  type = codes "application/json";
}

-- What a handler leaves: its response, or an exception, and the engine.
abbrev pub Handled : Type 0 → Type 0
Handled S = Outcome HttpResponse × Engine S

module _ {J : Type 0} (json : JsonLib J) (net : Inet) where
  -- The loop over the records of a set.
  rrs_of : DnsName → ℕ → ℕ → List J → Outcome (List ResourceRecord)
  unfolding content_to_rdata
  rrs_of name type ttl [] = ok []
  rrs_of name type ttl (rec ∷ recs) = do
    content ← get_string json rec (codes "content") []
    filled ←
        content_to_rdata net
          (record new_record { name = name; type = type; ttl = ttl; content = content })
    rrs ← rrs_of name type ttl recs
    ok (filled.1 ∷ rrs)

  set_records : DnsName → ℕ → ℕ → J → Outcome (List ResourceRecord)
  unfolding rrs_of
  set_records name type ttl rrset = do
    recs ← member_items json rrset (codes "records")
    rrs_of name type ttl recs

  -- The content that the first record of a set of type SOA has, or the content so far.
  first_content : Bytes → J → Outcome Bytes
  first_content so_far rrset = do
    type ← get_string json rrset (codes "type") []
    elim (str_eq type (codes "SOA")) [
      | false ↦ ok so_far
      | true ↦ (do
        records ← json.member rrset (codes "records")
        elim records [
          | none ↦ ok so_far
          | some v ↦
              if json.nothing_in v
              then ok so_far
              else (json.at_zero v >>= λ rec. get_string json rec (codes "content") so_far)
        ])
    ]

  soa_content : Bytes → List J → Outcome Bytes
  unfolding first_content
  soa_content so_far [] = ok so_far
  soa_content so_far (rrset ∷ rrsets) = first_content so_far rrset >>= λ c. soa_content c rrsets

  abbrev default_soa : DnsName → Bytes
  unfolding to_string
  default_soa name =
      codes "ns."
      ++ (to_string false name
          ++ (codes " hostmaster." ++ (to_string false name ++ codes " 1 10800 3600 604800 3600")))

  -- The zone and the SOA record of a POST.
  unfoldable pub new_zone_of : J → Outcome (ZoneInfo × ResourceRecord)
  unfolding soa_content parse to_string content_to_rdata
  new_zone_of root = do
    name ← get_string json root (codes "name") []
    rrsets ← member_items json root (codes "rrsets")
    content ← soa_content (default_soa (parse name)) rrsets
    filled ←
        content_to_rdata net
          (record new_record { name = parse name; type = RrType.soa; content = content })
    ok (record new_zone { name = parse name }, filled.1)

  module _ {S T : Type 0} (ops : Backend S T) where
    add_rrs : T → List ResourceRecord → T
    add_rrs tx [] = tx
    add_rrs tx (rr ∷ rrs) = add_rrs (ops.transaction.add_record tx rr).1 rrs

    -- A set of a POST; an unknown type and a SOA are passed over.
    post_rrset : ZoneInfo → T → J → Outcome T
    unfolding set_records add_rrs rr_type_from_string parse to_string
    post_rrset z tx rrset = do
      word ← get_string json rrset (codes "type") (codes "A")
      elim (rr_type_from_string word) [
        | none ↦ ok tx
        | some type ↦ if type == RrType.soa then ok tx else (do
          name ← get_string json rrset (codes "name") (to_string true z.name)
          ttl ← get_uint json rrset (codes "ttl") 3600
          rrs ← set_records (parse name) type ttl rrset
          ok (add_rrs tx rrs))
      ]

    post_rrsets : ZoneInfo → T → List J → Outcome T
    unfolding post_rrset
    post_rrsets z tx [] = ok tx
    post_rrsets z tx (rrset ∷ rrsets) = post_rrset z tx rrset >>= λ t. post_rrsets z t rrsets

    -- The records of a zone that has just been made; what `commit` returns is not looked at.
    fill_zone : Engine S → ZoneInfo → ZoneInfo → J → Outcome Bool × Engine S
    unfolding post_rrsets Router.begin Router.commit
    fill_zone e z created root = elim (json.member root (codes "rrsets")) [
      | thrown ↦ (thrown, e)
      | ok none ↦ (ok true, e)
      | ok (some rrsets) ↦ elim (Router.begin ops e.backends created) [
        | none ↦ (ok true, e)
        | some (i, b, tx) ↦ elim (post_rrsets z tx (json.items rrsets)) [
          | thrown ↦ (thrown, e)
          | ok tx' ↦
              (let (done, backends) = Router.commit ops e.backends (i, b, tx') in
                (done, record e { backends = backends }))
        ]
      ]
    ]

    abbrev made : ZoneInfo → Outcome Bool × Engine S → Handled S
    unfolding zone_to_json
    made z (thrown, e) = (thrown, e)
    made z (ok b, e) = (ok (reply 201 (codes "Created") (zone_to_json net ops e.backends z)), e)

    create_from : Engine S → J → ZoneInfo × ResourceRecord → Handled S
    unfolding fill_zone Router.create_zone Router.find_zone zone_to_json
    create_from e root (z, soa) =
        let (done, backends) = Router.create_zone ops e.backends z soa in
        let e' = record e { backends = backends } in
        elim done [
          | thrown ↦ (thrown, e')
          | ok false ↦ (ok (reply 409 (codes "Conflict") (codes "{\"error\":\"zone exists\"}")), e')
          | ok true ↦ elim (Router.find_zone ops backends z.name) [
            | none ↦ made z (ok true, e')
            | some created ↦ made created (fill_zone e' z created root)
          ]
        ]

    abbrev pub bad_json : HttpResponse
    bad_json = reply 400 (codes "Bad Request") (codes "{\"error\":\"invalid json\"}")

    -- POST to the zones.
    unfoldable pub create_zone : Engine S → Bytes → Handled S
    unfolding create_from new_zone_of
    create_zone e body = elim (json.parse body) [
      | none ↦ (ok bad_json, e)
      | some root ↦ elim (new_zone_of root) [
        | thrown ↦ (thrown, e)
        | ok made ↦ create_from e root made
      ]
    ]

    -- A set of a PATCH.
    patch_rrset : ZoneInfo → T → J → Outcome T
    unfolding set_records rr_type_from_string parse to_string to_lower
    patch_rrset zone tx rrset = do
      word ← get_string json rrset (codes "type") (codes "A")
      elim (rr_type_from_string word) [
        | none ↦ ok tx
        | some type ↦ (do
          name ← get_string json rrset (codes "name") (to_string true zone.name)
          change ← get_string json rrset (codes "changetype") (codes "REPLACE")
          elim (str_eq (to_lower change) (codes "delete")) [
            | true ↦ ok (ops.transaction.delete_rrset tx (parse name) type).1
            | false ↦ (do
              ttl ← get_uint json rrset (codes "ttl") 3600
              rrs ← set_records (parse name) type ttl rrset
              ok (ops.transaction.replace_rrset tx (parse name) type rrs).1)
          ])
      ]

    patch_rrsets : ZoneInfo → T → List J → Outcome T
    unfolding patch_rrset
    patch_rrsets zone tx [] = ok tx
    patch_rrsets zone tx (rrset ∷ rrsets) =
        patch_rrset zone tx rrset >>= λ t. patch_rrsets zone t rrsets

    abbrev settled_stage : Outcome Bool × T → Outcome T
    settled_stage (thrown, tx) = thrown
    settled_stage (ok b, tx) = ok tx

    -- What is committed: the sets, and the serial of the zone.
    staged_patch : Engine S → ZoneInfo → J → T → Outcome T
    unfolding patch_rrsets stage_serial Router.lookup
    staged_patch e zone root tx = do
      rrsets ← member_items json root (codes "rrsets")
      tx' ← patch_rrsets zone tx rrsets
      settled_stage
          (stage_serial net ops tx' (Router.lookup ops e.backends zone zone.name RrType.soa))

    abbrev updated_zone : ZoneInfo → Option ZoneInfo → ZoneInfo
    updated_zone zone none = zone
    updated_zone zone (some z) = z

    commit_patch : Engine S → DnsName → ZoneInfo → ℕ × S × T → Handled S
    unfolding Router.commit Router.find_zone zone_to_json
    commit_patch e zname zone staged =
        let (done, backends) = Router.commit ops e.backends staged in
        let e' = record e { backends = backends } in
        let shown = updated_zone zone (Router.find_zone ops backends zname) in
        elim done [
          | thrown ↦ (thrown, e')
          | ok false ↦ (ok (reply 500 (codes "Error") (codes "{\"error\":\"commit failed\"}")), e')
          | ok true ↦ (
            ok (reply 200 (codes "OK") (zone_to_json net ops backends shown)),
            record e' { cache = invalidate e'.cache },
          )
        ]

    -- PATCH of a zone.
    unfoldable pub patch_zone : Engine S → DnsName → ZoneInfo → Bytes → Handled S
    unfolding staged_patch commit_patch Router.begin
    patch_zone e zname zone body = elim (json.parse body) [
      | none ↦ (ok bad_json, e)
      | some root ↦ elim (Router.begin ops e.backends zone) [
        | none ↦ (ok (reply 500 (codes "Error") (codes "{\"error\":\"no transaction\"}")), e)
        | some (i, b, tx) ↦ elim (staged_patch e zone root tx) [
          | thrown ↦ (thrown, e)
          | ok tx' ↦ commit_patch e zname zone (i, b, tx')
        ]
      ]
    ]
