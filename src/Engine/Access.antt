-- ===== src/Engine/Access.antt =====
-- Who may do what: `ipAllowed`, `tsigKey`, `allowedAxfr` and `allowedUpdate`.
use simple_dnsd.Base.{
  Bool, true, false, ◌||◌, Option, none, some, List, [], ◌∷◌, ◌++◌, ◌==◌, if◌then◌else◌, Bytes,
  codes, str_eq, length, take, any_of, find_if,
}
use simple_dnsd.Name.{DnsName, equals}
use simple_dnsd.Record.{DnsMessage, ResourceRecord}
use simple_dnsd.Backend.{ZoneInfo}
use simple_dnsd.Config.{DnsConfig}
use simple_dnsd.Tsig.{TsigKey}

-- The text before the first slash; `none` where there is no slash.
before_slash : Bytes → Option Bytes
before_slash [] = none
before_slash (c ∷ s) =
    let rest = before_slash s in
    if c == b'/' then some [] else elim rest [ none ↦ none | some net ↦ some (c ∷ net) ]

abbrev pub in_net : Bytes → Option Bytes → Bool
in_net ip none = false
in_net ip (some net) = str_eq ip net || str_eq (take (length net) ip) net

abbrev pub item_allows : Bytes → Bytes → Bool
unfolding before_slash
item_allows ip item =
    str_eq item (codes "*")
    || str_eq item (codes "any")
    || str_eq item ip
    || in_net ip (before_slash item)

unfoldable pub ip_allowed : List Bytes → Bytes → Bool
unfolding before_slash
ip_allowed list ip = any_of (λ item. item_allows ip item) list

unfoldable pub tsig_key : List TsigKey → DnsName → Option TsigKey
unfolding equals
tsig_key keys name = find_if (λ k. equals k.name name) keys

abbrev pub add_tsig_key : List TsigKey → TsigKey → List TsigKey
add_tsig_key keys key = keys ++ key ∷ []

unfoldable pub allowed_axfr : DnsConfig → ZoneInfo → Bytes → Bool
unfolding ip_allowed
allowed_axfr config zone peer = ip_allowed config.allow_axfr peer || ip_allowed zone.allow_axfr peer

-- The message has a TSIG record that names a known key.
abbrev pub knows_key : List TsigKey → Option ResourceRecord → Bool
knows_key keys none = false
knows_key keys (some rr) = elim (tsig_key keys rr.name) [ none ↦ false | some k ↦ true ]

unfoldable pub allowed_update : DnsConfig → List TsigKey → ZoneInfo → Bytes → DnsMessage → Bool
unfolding ip_allowed tsig_key
allowed_update config keys zone peer query =
    ip_allowed zone.allow_update peer
    || ip_allowed config.allow_axfr peer
    || knows_key keys query.tsig
