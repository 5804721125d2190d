-- ===== src/Engine/Answer.antt =====
-- `answerQuery` of the engine, and the helpers that it writes sections with.
pub mod Branches
use simple_dnsd.Base.{
  ℕ, zero, suc, ◌%◌, ◌^◌, Bool, true, false, not, ◌&&◌, ◌||◌, Option, none, some, List, [], ◌∷◌,
  ◌++◌, ◌==◌, if◌then◌else◌, Bytes, codes, length, is_empty, map,
}
use simple_dnsd.Name.{DnsName, root, parse, equals, is_subdomain_of, wildcard, parent, rest_of}
use simple_dnsd.Record.{
  ResourceRecord, new_record, Question, DnsHeader, DnsMessage, EdnsInfo, make_response,
}
use simple_dnsd.Record.RrType
use simple_dnsd.Record.Rcode
use simple_dnsd.Inet.{Inet}
use simple_dnsd.Rdata.{rdata_to_content}
use simple_dnsd.Backend.{ZoneInfo, Backend}
use simple_dnsd.Router
use simple_dnsd.Config.{DnsConfig}
use simple_dnsd.Engine.State.{ServerStats, count_up}

-- HINFO, by its number.
unfoldable pub make_hinfo : DnsName → ResourceRecord
make_hinfo name = record new_record {
  name = name;
  type = 13;
  ttl = 3600;
  content = codes "\"RFC8482\" \"\"";
  rdata = 7 ∷ (codes "RFC8482" ++ 0 ∷ []);
}

unfoldable pub add_edns : DnsMessage → DnsMessage → ℕ → DnsMessage
add_edns resp query udp_size = if not query.edns.present then resp else record resp {
  additional =
      resp.additional
      ++ (record new_record { name = root; type = RrType.opt; rclass = udp_size; ttl = 0 }) ∷ [];
  edns = record (resp.edns) { present = true; udp_size = udp_size };
}

abbrev pub with_rcode : DnsMessage → ℕ → DnsMessage
with_rcode resp rcode = record resp { header = record (resp.header) { rcode = rcode } }

abbrev pub with_aa : DnsMessage → Bool → DnsMessage
with_aa resp aa = record resp { header = record (resp.header) { aa = aa } }

abbrev pub owned_by : DnsName → ResourceRecord → ResourceRecord
owned_by owner rr = record rr { name = owner }

abbrev pub in_zone : ZoneInfo → DnsName → Bool
in_zone zone n = is_subdomain_of n zone.name || equals n zone.name

module _ {S T : Type 0} (net : Inet) (ops : Backend S T) (backends : List S) where
  -- The name that the text of a record's data gives, filled in from its wire form where it is empty.
  abbrev pub target_of : ResourceRecord → DnsName
  target_of rr = parse (if is_empty rr.content then (rdata_to_content net rr).1 else rr).content

  unfoldable pub add_soa : DnsMessage → ZoneInfo → DnsMessage
  unfolding Router.lookup
  add_soa resp zone = record resp {
    authority = resp.authority ++ Router.lookup ops backends zone zone.name RrType.soa;
  }

  unfoldable pub add_glue : DnsMessage → ZoneInfo → List ResourceRecord → DnsMessage
  unfolding Router.lookup is_subdomain_of equals
  add_glue resp zone [] = resp
  add_glue resp zone (ns ∷ nsset) =
      let target = target_of ns in
      let a = Router.lookup ops backends zone target RrType.a in
      let aaaa = Router.lookup ops backends zone target RrType.aaaa in
      add_glue
        (if not (in_zone zone target)
          then resp
          else record resp { additional = (resp.additional ++ a) ++ aaaa })
        zone nsset

  module _ (query : DnsMessage) (q : Question) (zone : ZoneInfo) where
    -- The loop over the CNAME chain, with the hops that are left: the flag says that the source
    -- returns the message from inside the loop.
    unfoldable pub chase : ℕ → DnsMessage → DnsName → Bool × DnsMessage
    unfolding Router.lookup add_glue is_subdomain_of equals parse
    chase zero resp name = (false, resp)
    chase (suc hops) resp name =
        let cname = Router.lookup ops backends zone name RrType.cname in
        let match = Router.lookup ops backends zone name q.qtype in
        let followed = record resp { answers = resp.answers ++ cname } in
        let target : DnsName = elim cname [ [] ↦ name | cn ∷ cns ↦ target_of cn ] in
        let next = chase hops followed target in
        let matched = record resp { answers = resp.answers ++ match } in
        if not (q.qtype == RrType.cname) && not (is_empty cname)
        then (if not (in_zone zone target) then (true, followed) else next)
        else if not (is_empty match)
        then (
          true,
          (if q.qtype == RrType.ns || q.qtype == RrType.mx
              then add_glue matched zone match
              else matched),
        )
        else (false, resp)

    -- What the wildcard below `parent` gives, with its owner set to the name that was asked for.
    unfoldable pub synthesised : DnsName → List ResourceRecord
    unfolding Router.lookup wildcard
    synthesised above =
        let wild = Router.lookup ops backends zone (wildcard above) q.qtype in
        let wild_cname = Router.lookup ops backends zone (wildcard above) RrType.cname in
        map (owned_by q.qname) (if is_empty wild then wild_cname else wild)

    -- The loop towards the zone's own name, over the labels of `parent`.
    unfoldable pub wild_from : List Bytes → List ResourceRecord
    unfolding synthesised is_subdomain_of equals
    wild_from [] = synthesised root
    wild_from (l ∷ labels) =
        let at : DnsName = record { labels = l ∷ labels } in
        let here = synthesised at in
        let above = wild_from labels in
        if not (in_zone zone at)
        then []
        else if not (is_empty here)
        then here
        else if equals at zone.name
        then []
        else above

    -- What follows the loops where neither of them returned: `wild` is what the wildcards gave.
    unfoldable pub conclude : DnsMessage → List ResourceRecord → DnsMessage
    unfolding Router.name_exists add_soa
    conclude chased wild =
        if not (is_empty wild)
        then record chased { answers = chased.answers ++ wild }
        else if Router.name_exists ops backends zone q.qname
        then add_soa chased zone
        else add_soa (with_rcode chased Rcode.nx_domain) zone

    -- The answer from inside the zone, where no delegation lies on the way.
    unfoldable pub answer_in_zone : DnsMessage → DnsMessage
    answer_in_zone resp =
        let chased = chase 8 resp q.qname in
        let wild = wild_from (parent q.qname).labels in
        if q.qtype == RrType.any
        then record resp { answers = resp.answers ++ make_hinfo q.qname ∷ [] }
        else if chased.0
        then chased.1
        else conclude chased.1 wild

    -- The referral to the name servers of a delegated name.
    unfoldable pub refer : DnsMessage → DnsName → DnsMessage
    unfolding Router.lookup add_glue
    refer resp cut =
        let ns = Router.lookup ops backends zone cut RrType.ns in
        let resp' = with_aa resp false in
        add_glue (record resp' { authority = resp'.authority ++ ns }) zone ns

  -- A delegation above the name that is asked for, or at it where its own NS or DS is not asked for.
  abbrev pub refers : Question → DnsName → Bool
  refers q cut =
      not (equals cut q.qname)
      || (equals cut q.qname && not (q.qtype == RrType.ns) && not (q.qtype == RrType.ds))

  -- `answerQuery` up to the OPT record and the statistics, which end every branch.
  unfoldable pub resolve : DnsMessage → Question → DnsMessage
  unfolding make_response
  resolve query q =
      let resp = make_response query in
      elim (Router.find_zone ops backends q.qname) [
        | none ↦ with_rcode resp Rcode.refused
        | some zone ↦ elim (Router.find_delegation ops backends zone q.qname) [
          | none ↦ answer_in_zone query q zone (with_aa resp true)
          | some cut ↦
              if refers q cut
              then refer query q zone resp cut
              else answer_in_zone query q zone (with_aa resp true)
        ]
      ]

-- The counter that the branch of the response adds to.
abbrev pub tally : DnsMessage → ServerStats → ServerStats
tally resp stats =
    if resp.header.rcode == Rcode.refused
    then record stats { refused = count_up stats.refused }
    else if resp.header.rcode == Rcode.nx_domain
    then record stats { nxdomain = count_up stats.nxdomain }
    else record stats { answers = count_up stats.answers }

module _ {S T : Type 0} (net : Inet) (ops : Backend S T) (config : DnsConfig) where
  unfoldable pub answer_query :
      List S → ServerStats → DnsMessage → Question → DnsMessage × ServerStats
  unfolding resolve add_edns
  answer_query backends stats query q =
      let resp = resolve net ops backends query q in
      (add_edns resp query (config.edns_bufsize % 2 ^ 16), tally resp stats)
