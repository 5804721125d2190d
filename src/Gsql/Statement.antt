-- ===== src/Gsql/Statement.antt =====
-- The statements that src/simple-dnsd/backend/gsql.cpp writes: literals, and the conditions on a
-- record's zone, name and type.
use simple_dnsd.Base.{ℕ, ◌+◌, false, [], ◌∷◌, ◌++◌, ◌==◌, if◌then◌else◌, Bytes, codes}
use simple_dnsd.Text.Number.{decimal}
use simple_dnsd.Name.{DnsName, to_lower_string}
use simple_dnsd.Record.{ResourceRecord}
use simple_dnsd.Record.RrType.{rr_type_to_string}
use simple_dnsd.Inet.{Inet}
use simple_dnsd.Serial.{with_text}
use simple_dnsd.Backend.{ℤ, pos, negsuc, ZoneInfo}

abbrev pub apostrophe : ℕ
apostrophe = 39

-- The loop of `q`: an apostrophe is doubled.
unfoldable pub doubled : Bytes → Bytes
doubled [] = []
doubled (c ∷ s) =
    let rest = doubled s in if c == apostrophe then apostrophe ∷ apostrophe ∷ rest else c ∷ rest

unfoldable pub q : Bytes → Bytes
unfolding doubled
q s = apostrophe ∷ (doubled s ++ apostrophe ∷ [])

-- `std::to_string` of a signed number.
unfoldable pub signed : ℤ → Bytes
unfolding decimal
signed (pos n) = decimal n
signed (negsuc n) = b'-' ∷ decimal (n + 1)

-- `q(name.toLowerString(false))`
unfoldable pub q_name : DnsName → Bytes
unfolding q to_lower_string
q_name name = q (to_lower_string false name)

unfoldable pub in_zone : ZoneInfo → Bytes
unfolding signed
in_zone zone = codes " FROM records WHERE domain_id=" ++ signed zone.id

unfoldable pub insert_record : Inet → ZoneInfo → ResourceRecord → Bytes
unfolding signed q_name q rr_type_to_string decimal
insert_record net zone rr =
    codes "INSERT INTO records(domain_id,name,type,content,ttl,prio,disabled,auth) VALUES("
    ++ (signed zone.id
        ++ (codes ","
            ++ (q_name rr.name
                ++ (codes ","
                    ++ (q (rr_type_to_string rr.type)
                        ++ (codes ","
                            ++ (q (with_text net rr).content
                                ++ (codes ","
                                    ++ (decimal rr.ttl
                                        ++ (codes ","
                                            ++ (decimal rr.prio ++ codes ",0,1)")))))))))))

unfoldable pub delete_named : ZoneInfo → DnsName → Bytes
unfolding in_zone q_name
delete_named zone name = codes "DELETE" ++ (in_zone zone ++ (codes " AND name=" ++ q_name name))

unfoldable pub delete_typed : ZoneInfo → DnsName → ℕ → Bytes
unfolding delete_named q rr_type_to_string
delete_typed zone name type =
    delete_named zone name ++ (codes " AND type=" ++ q (rr_type_to_string type))

unfoldable pub delete_records : ZoneInfo → Bytes
unfolding in_zone
delete_records zone = codes "DELETE" ++ in_zone zone

unfoldable pub delete_domain : ZoneInfo → Bytes
unfolding signed
delete_domain zone = codes "DELETE FROM domains WHERE id=" ++ signed zone.id

abbrev pub domain_columns : Bytes
domain_columns = codes "SELECT id,name,master,last_check,type,notified_serial,account FROM domains"

abbrev pub record_columns : Bytes
record_columns = codes "SELECT content,ttl,prio,type,domain_id,disabled,name,auth"
