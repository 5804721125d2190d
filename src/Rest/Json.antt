-- ===== src/Rest/Json.antt =====
-- The JSON of src/simple-dnsd/api/rest.cpp: what the program writes, and what it asks of the JSON library.
use simple_dnsd.Base.{
  ℕ, Bool, true, false, Option, none, some, List, [], ◌∷◌, ◌++◌, if◌then◌else◌, Bytes, codes,
}
use simple_dnsd.Outcome.{Outcome, ok, ◌>>=◌}
use simple_dnsd.Text.Number.{decimal}
use simple_dnsd.Name.{to_string}
use simple_dnsd.Record.{ResourceRecord}
use simple_dnsd.Record.RrType.{rr_type_to_string}
use simple_dnsd.Inet.{Inet}
use simple_dnsd.Serial.{with_text}
use simple_dnsd.Backend.{ZoneKind, native, master, slave, ZoneInfo, Backend}
use simple_dnsd.Router
use simple_dnsd.Engine.State.{ServerStats}
use simple_dnsd.Rest.Text.{json_escape}

-- `Json::Value`, a parameter. Asking a value for what it cannot give throws; `items` are what a loop
-- over the value goes through, and `nothing_in` is `empty()`.
pub record JsonLib (J : Type 0) : Type 0 where
  pub parse : Bytes → Option J
  pub member : J → Bytes → Outcome (Option J)
  pub items : J → List J
  pub nothing_in : J → Bool
  pub at_zero : J → Outcome J
  pub as_string : J → Outcome Bytes
  pub as_uint : J → Outcome ℕ

module _ {J : Type 0} (json : JsonLib J) where
  -- `get(key, default).asString()`
  abbrev pub get_string : J → Bytes → Bytes → Outcome Bytes
  get_string j key d = json.member j key >>= λ o. elim o [ none ↦ ok d | some v ↦ json.as_string v ]

  -- `get(key, default).asUInt()`
  abbrev pub get_uint : J → Bytes → ℕ → Outcome ℕ
  get_uint j key d = json.member j key >>= λ o. elim o [ none ↦ ok d | some v ↦ json.as_uint v ]

  -- The loop over a member that is asked for by `isMember` first.
  abbrev pub member_items : J → Bytes → Outcome (List J)
  member_items j key =
      json.member j key >>= λ o. elim o [ none ↦ ok [] | some v ↦ ok (json.items v) ]

abbrev kind_json : ZoneKind → Bytes
kind_json slave = codes "Slave"
kind_json master = codes "Master"
kind_json native = codes "Native"

module _ (net : Inet) where
  record_json : ResourceRecord → Bytes
  unfolding to_string rr_type_to_string decimal json_escape
  record_json rr =
      codes "{\"name\":\""
      ++ (to_string true rr.name
          ++ (codes "\",\"type\":\""
              ++ (rr_type_to_string rr.type
                  ++ (codes "\",\"ttl\":"
                      ++ (decimal rr.ttl
                          ++ (codes ",\"records\":[{\"content\":\""
                              ++ (json_escape (with_text net rr).content
                                  ++ codes "\",\"disabled\":false}]}")))))))

  records_json : Bool → List ResourceRecord → Bytes
  unfolding record_json
  records_json first [] = []
  records_json first (rr ∷ rrs) =
      (if first then [] else codes ",") ++ (record_json rr ++ records_json false rrs)

  unfoldable pub zone_to_json : {S T : Type 0} → Backend S T → List S → ZoneInfo → Bytes
  unfolding Router.list_zone records_json to_string
  zone_to_json ops backends z =
      codes "{\"id\":\""
      ++ (to_string false z.name
          ++ (codes "\",\"name\":\""
              ++ (to_string true z.name
                  ++ (codes "\",\"kind\":\""
                      ++ (kind_json z.kind
                          ++ (codes "\",\"rrsets\":["
                              ++ (records_json true (Router.list_zone ops backends z)
                                  ++ codes "]}")))))))

listed_json : Bool → List ZoneInfo → Bytes
unfolding to_string
listed_json first [] = []
listed_json first (z ∷ zones) =
    (if first then [] else codes ",")
    ++ (codes "{\"id\":\""
        ++ (to_string false z.name
            ++ (codes "\",\"name\":\""
                ++ (to_string true z.name
                    ++ (codes "\",\"kind\":\"Native\"}" ++ listed_json false zones)))))

unfoldable pub zones_json : List ZoneInfo → Bytes
unfolding listed_json
zones_json zones = codes "[" ++ (listed_json true zones ++ codes "]")

unfoldable pub stats_json : ServerStats → Bytes
unfolding decimal
stats_json st =
    codes "{\"queries\":"
    ++ (decimal st.queries
        ++ (codes ",\"answers\":"
            ++ (decimal st.answers
                ++ (codes ",\"nxdomain\":"
                    ++ (decimal st.nxdomain
                        ++ (codes ",\"refused\":"
                            ++ (decimal st.refused
                                ++ (codes ",\"axfr\":"
                                    ++ (decimal st.axfr
                                        ++ (codes ",\"updates\":"
                                            ++ (decimal st.updates
                                                ++ (codes ",\"cache_hits\":"
                                                    ++ (decimal st.cache_hits
                                                        ++ (codes ",\"cache_misses\":"
                                                            ++ (decimal st.cache_misses
                                                            ++ codes "}")))))))))))))))
