-- ===== src/Engine/Answer/Branches.antt =====
-- What a response says, branch by branch of `answerQuery`.
use simple_dnsd.Base.{
  ℕ, zero, suc, ◌≡◌, ◌≢◌, refl, true, false, not, some, List, [], ◌∷◌, ◌++◌, is_empty,
  if◌then◌else◌, arith, Option-cases, Bool-cases, ◌⊎◌, inl, inr,
}
use simple_dnsd.Name.{DnsName, parent, equals}
use simple_dnsd.Record.{ResourceRecord, Question, DnsMessage, make_response}
use simple_dnsd.Record.RrType
use simple_dnsd.Record.Rcode
use simple_dnsd.Inet.{Inet}
use simple_dnsd.Backend.{ZoneInfo, Backend}
use simple_dnsd.Router
use simple_dnsd.Engine.Answer.{
  with_aa, in_zone, target_of, add_soa, add_glue, chase, wild_from, conclude, answer_in_zone, refer,
  refers, resolve,
}

module _ {S T : Type 0} (net : Inet) (ops : Backend S T) (backends : List S) where
  -- Glue goes into the additional section alone.
  add_glue-fields :
      (resp : DnsMessage) (zone : ZoneInfo) (nsset : List ResourceRecord)
      → ((add_glue net ops backends resp zone nsset).header ≡ resp.header)
        × ((add_glue net ops backends resp zone nsset).answers ≡ resp.answers)
        × ((add_glue net ops backends resp zone nsset).authority ≡ resp.authority)
        × ((add_glue net ops backends resp zone nsset).questions ≡ resp.questions)
  unfolding add_glue
  add_glue-fields resp zone [] = (refl, refl, refl, refl)
  add_glue-fields resp zone (ns ∷ nsset) =
      let target = target_of net ops backends ns in
      let a = Router.lookup ops backends zone target RrType.a in
      let aaaa = Router.lookup ops backends zone target RrType.aaaa in
      let next =
        if not (in_zone zone target)
        then resp
        else record resp { additional = (resp.additional ++ a) ++ aaaa } in
      ground (arith, add_glue-fields next zone nsset)

  module _ (query : DnsMessage) (q : Question) (zone : ZoneInfo) where
    -- The chain of CNAMEs goes into the answers, with glue beside it.
    pub chase-fields :
        (hops : ℕ) (resp : DnsMessage) (name : DnsName)
        → ((chase net ops backends query q zone hops resp name).1.header ≡ resp.header)
          × ((chase net ops backends query q zone hops resp name).1.authority ≡ resp.authority)
          × ((chase net ops backends query q zone hops resp name).1.questions ≡ resp.questions)
    unfolding chase
    chase-fields zero resp name = (refl, refl, refl)
    chase-fields (suc hops) resp name =
        let cname = Router.lookup ops backends zone name RrType.cname in
        let match = Router.lookup ops backends zone name q.qtype in
        let followed = record resp { answers = resp.answers ++ cname } in
        let matched = record resp { answers = resp.answers ++ match } in
        let target : DnsName = elim cname [
          | [] ↦ name
          | cn ∷ cns ↦ target_of net ops backends cn
        ] in
        ground (arith, chase-fields hops followed target, add_glue-fields matched zone match)

    -- The fields of a response that identify its query, and its claim of authority.
    abbrev SameHead : DnsMessage → DnsMessage → Type 0
    SameHead a b =
        (a.header.id ≡ b.header.id)
        × (a.header.qr ≡ b.header.qr)
        × (a.header.opcode ≡ b.header.opcode)
        × (a.header.rd ≡ b.header.rd)
        × (a.header.aa ≡ b.header.aa)
        × (a.questions ≡ b.questions)

    conclude-fields :
        (chased : DnsMessage) (wild : List ResourceRecord)
        → SameHead (conclude net ops backends query q zone chased wild) chased
    unfolding conclude add_soa
    conclude-fields chased wild = ground arith

    conclude-nx_domain :
        (chased : DnsMessage) (wild : List ResourceRecord)
        → chased.header.rcode ≡ Rcode.no_error
        → (conclude net ops backends query q zone chased wild).header.rcode ≡ Rcode.nx_domain
        → (is_empty wild ≡ true)
          × (Router.name_exists ops backends zone q.qname ≡ false)
          × ((conclude net ops backends query q zone chased wild).authority
              ≡ chased.authority ++ Router.lookup ops backends zone zone.name RrType.soa)
    unfolding conclude add_soa
    conclude-nx_domain chased wild e h = ground arith

    answer_in_zone-fields :
        (resp : DnsMessage) → SameHead (answer_in_zone net ops backends query q zone resp) resp
    unfolding answer_in_zone
    answer_in_zone-fields resp =
        let chased = (chase net ops backends query q zone 8 resp q.qname).1 in
        let wild = wild_from net ops backends query q zone (parent q.qname).labels in
        ground (arith, chase-fields 8 resp q.qname, conclude-fields chased wild)

    answer_in_zone-nx_domain :
        (resp : DnsMessage)
        → resp.header.rcode ≡ Rcode.no_error
        → resp.authority ≡ []
        → (answer_in_zone net ops backends query q zone resp).header.rcode ≡ Rcode.nx_domain
        → (is_empty (wild_from net ops backends query q zone (parent q.qname).labels) ≡ true)
          × (Router.name_exists ops backends zone q.qname ≡ false)
          × ((answer_in_zone net ops backends query q zone resp).authority
              ≡ Router.lookup ops backends zone zone.name RrType.soa)
    unfolding answer_in_zone
    answer_in_zone-nx_domain resp e f h =
        let chased = (chase net ops backends query q zone 8 resp q.qname).1 in
        let wild = wild_from net ops backends query q zone (parent q.qname).labels in
        ground (arith, chase-fields 8 resp q.qname, conclude-nx_domain chased wild)

    refer-fields :
        (resp : DnsMessage) (cut : DnsName)
        → ((refer net ops backends query q zone resp cut).header ≡ (with_aa resp false).header)
          × ((refer net ops backends query q zone resp cut).answers ≡ resp.answers)
          × ((refer net ops backends query q zone resp cut).authority
              ≡ resp.authority ++ Router.lookup ops backends zone cut RrType.ns)
          × ((refer net ops backends query q zone resp cut).questions ≡ resp.questions)
    unfolding refer
    refer-fields resp cut =
        let ns = Router.lookup ops backends zone cut RrType.ns in
        add_glue-fields (record (with_aa resp false) { authority = resp.authority ++ ns }) zone ns

  -- Every response of `answerQuery` carries the identity of its query: the id, the opcode, the flag RD
  -- and the questions, with the flag QR set.
  pub resolve_identity :
      (query : DnsMessage) (q : Question)
      → ((resolve net ops backends query q).header.id ≡ query.header.id)
        × ((resolve net ops backends query q).header.qr ≡ true)
        × ((resolve net ops backends query q).header.opcode ≡ query.header.opcode)
        × ((resolve net ops backends query q).header.rd ≡ query.header.rd)
        × ((resolve net ops backends query q).questions ≡ query.questions)
  unfolding resolve make_response
  resolve_identity query q = elim (Option-cases (Router.find_zone ops backends q.qname)) [
    | inl e ↦ ground arith
    | inr (zone, e) ↦ elim (Option-cases (Router.find_delegation ops backends zone q.qname)) [
      | inl f ↦
          ground (arith, answer_in_zone-fields query q zone (with_aa (make_response query) true))
      | inr (cut, f) ↦ ground (
        arith,
        answer_in_zone-fields query q zone (with_aa (make_response query) true),
        refer-fields query q zone (make_response query) cut,
      )
    ]
  ]

  -- NXDOMAIN is answered with authority, and only where a zone is found for the name, the name does
  -- not exist in it, and the search for a wildcard gives nothing; the zone's SOA records are the
  -- authority section.
  pub resolve-nx_domain :
      (query : DnsMessage) (q : Question)
      → (resolve net ops backends query q).header.rcode ≡ Rcode.nx_domain
      → (zone : ZoneInfo) × (Router.find_zone ops backends q.qname ≡ some zone)
        × (is_empty (wild_from net ops backends query q zone (parent q.qname).labels) ≡ true)
        × (Router.name_exists ops backends zone q.qname ≡ false)
        × ((resolve net ops backends query q).header.aa ≡ true)
        × ((resolve net ops backends query q).authority
            ≡ Router.lookup ops backends zone zone.name RrType.soa)
  unfolding resolve make_response
  resolve-nx_domain query q h = elim (Option-cases (Router.find_zone ops backends q.qname)) [
    | inl e ↦ absurd (ground arith)
    | inr (zone, e) ↦ elim (Option-cases (Router.find_delegation ops backends zone q.qname)) [
      | inl f ↦
          (let r = with_aa (make_response query) true in
            let n = answer_in_zone-nx_domain query q zone r refl refl (ground arith) in
            (zone, e, n.0, n.1, ground (arith, answer_in_zone-fields query q zone r), ground arith))
      | inr (cut, f) ↦ elim (Bool-cases (refers net ops backends q cut)) [
        | inl away ↦ absurd (ground (arith, refer-fields query q zone (make_response query) cut))
        | inr stays ↦
            (let r = with_aa (make_response query) true in
              let n = answer_in_zone-nx_domain query q zone r refl refl (ground arith) in
              (
                zone,
                e,
                n.0,
                n.1,
                ground (arith, answer_in_zone-fields query q zone r),
                ground arith,
              ))
      ]
    ]
  ]

  refers-true :
      (q : Question) (cut : DnsName)
      → refers net ops backends q cut ≡ true
      → (equals cut q.qname ≡ false) ⊎ ((q.qtype ≢ RrType.ns) × (q.qtype ≢ RrType.ds))
  refers-true q cut h = ground arith

  -- A response with NOERROR that claims no authority is a referral: a zone is found for the name and a
  -- delegation in it, which lies above the name, or at it where neither NS nor DS is asked for; no
  -- answer is given, and the authority section is the delegation's NS set.
  pub resolve-no_authority :
      (query : DnsMessage) (q : Question)
      → (resolve net ops backends query q).header.aa ≡ false
      → (resolve net ops backends query q).header.rcode ≡ Rcode.no_error
      → (zone : ZoneInfo) × (cut : DnsName) × (Router.find_zone ops backends q.qname ≡ some zone)
        × (Router.find_delegation ops backends zone q.qname ≡ some cut)
        × ((equals cut q.qname ≡ false) ⊎ ((q.qtype ≢ RrType.ns) × (q.qtype ≢ RrType.ds)))
        × ((resolve net ops backends query q).answers ≡ [])
        × ((resolve net ops backends query q).authority
            ≡ Router.lookup ops backends zone cut RrType.ns)
  unfolding resolve make_response
  resolve-no_authority query q a h = elim (Option-cases (Router.find_zone ops backends q.qname)) [
    | inl e ↦ absurd (ground arith)
    | inr (zone, e) ↦
        (let inside = answer_in_zone-fields query q zone (with_aa (make_response query) true) in
          elim (Option-cases (Router.find_delegation ops backends zone q.qname)) [
            | inl f ↦ absurd (ground (arith, inside))
            | inr (cut, f) ↦ elim (Bool-cases (refers net ops backends q cut)) [
              | inl away ↦
                  (let r = refer-fields query q zone (make_response query) cut in
                    (zone, cut, e, f, refers-true q cut away, ground (arith, r), ground (arith, r)))
              | inr stays ↦ absurd (ground (arith, inside))
            ]
          ])
  ]
