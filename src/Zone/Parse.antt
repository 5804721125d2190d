-- ===== src/Zone/Parse.antt =====
-- `parseZoneText` and `parseZoneFile`. The file system is a parameter: the bytes of a file, or
-- `none` where it cannot be opened.
use simple_dnsd.Base.{
  ℕ, zero, suc, ◌+◌, ◌%◌, ◌^◌, Bool, true, false, not, ◌&&◌, ◌||◌, Option, none, some, List, [],
  ◌∷◌, ◌++◌, ltb, ◌==◌, if◌then◌else◌, Bytes, codes, str_eq, is_empty, length, get_or, set, take,
}
use simple_dnsd.Outcome.{Outcome, ok, ◌>>=◌}
use simple_dnsd.Text.{trim, to_lower, split_ws, join}
use simple_dnsd.Text.Number.{stoul}
use simple_dnsd.Name.{DnsName, to_string}
use simple_dnsd.Record.{ResourceRecord, new_record}
use simple_dnsd.Record.RrType
use simple_dnsd.Record.RrType.{rr_type_from_string}
use simple_dnsd.Inet.{Inet}
use simple_dnsd.Rdata.{content_to_rdata}
use simple_dnsd.Zone.Lexer.{
  is_abs_name, qualify_name, strip_comments, tokenize, flatten_parens, looks_like_ttl,
  looks_like_class, lines,
}

-- The texts of `result.error`, with the line, the token or the path that they name.
pub data ParseError : Type 0 where
  origin_missing ttl_missing include_missing missing_type : ℕ → ParseError
  unknown_type bad_rdata : Bytes → ℕ → ParseError
  cannot_open : Bytes → ParseError
  -- The fuel for `$INCLUDE` of the model ran out; the source has no bound on it.
  too_deep : ParseError

pub data ZoneParseResult : Type 0 where
  parsed : List ResourceRecord → ZoneParseResult
  failed : ParseError → ZoneParseResult

-- The variables of the loop over the lines.
pub record ParseState : Type 0 where
  pub current_origin : DnsName
  pub last_owner : DnsName
  pub ttl : ℕ
  pub records : List ResourceRecord

pub data Line : Type 0 where
  continue : ParseState → Line
  stop : ParseError → Line

-- `static_cast<uint32_t>(std::stoul(s))`
to_u32 : Bytes → Outcome ℕ
unfolding stoul
to_u32 s = do v ← stoul s; ok (v % 2 ^ 32)

-- The TTL in front of the tokens, if one stands there.
take_ttl : ℕ → List Bytes → Outcome (ℕ × List Bytes)
unfolding to_u32 looks_like_ttl
take_ttl ttl [] = ok (ttl, [])
take_ttl ttl (t ∷ toks) =
    if looks_like_ttl t then (do v ← to_u32 t; ok (v, toks)) else ok (ttl, t ∷ toks)

drop_class : List Bytes → List Bytes
unfolding looks_like_class
drop_class [] = []
drop_class (t ∷ toks) = if looks_like_class t then toks else t ∷ toks

abbrev at_sign : Bytes
at_sign = codes "@"

-- A relative name among the parts is qualified.
qualify_part : DnsName → ℕ → List Bytes → List Bytes
unfolding is_abs_name qualify_name to_string
qualify_part origin i parts =
    let p = get_or parts i [] in
    if ltb i (length parts) && not (is_abs_name p) && not (str_eq p at_sign)
    then set parts i (to_string true (qualify_name p origin))
    else parts

abbrev host_index : ℕ → ℕ
host_index type = if type == RrType.mx then 1 else if type == RrType.srv then 3 else 0

abbrev names_host : ℕ → Bool
names_host type =
    type == RrType.ns
    || type == RrType.cname
    || type == RrType.ptr
    || type == RrType.mx
    || type == RrType.soa
    || type == RrType.srv

-- The names in the content of a record, made absolute.
qualify_content : DnsName → ℕ → Bytes → Bytes
unfolding qualify_part split_ws join to_string
qualify_content origin type content =
    let parts = split_ws content in
    let hosts = qualify_part origin (host_index type) parts in
    let mailbox = if type == RrType.soa then qualify_part origin 1 hosts else hosts in
    let apex =
      if str_eq (get_or mailbox 0 []) at_sign
      then set mailbox 0 (to_string true origin)
      else mailbox in
    if names_host type && not (is_empty parts) then join apex (codes " ") else content

-- The first token is the owner of the record.
abbrev is_owner : Bytes → Bool
unfolding looks_like_ttl looks_like_class rr_type_from_string
is_owner t =
    str_eq t at_sign
    || (not (looks_like_ttl t)
        && not (looks_like_class t)
        && elim (rr_type_from_string t) [ none ↦ true | some type ↦ false ])

module _ (net : Inet) where
  -- The record of a line, whose type and content stand in `toks`.
  parse_typed : ParseState → ℕ → DnsName → ℕ → List Bytes → Outcome Line
  unfolding qualify_content rr_type_from_string content_to_rdata
  parse_typed s lineno owner ttl [] = ok (stop (missing_type lineno))
  parse_typed s lineno owner ttl (t ∷ toks) = elim (rr_type_from_string t) [
    | none ↦ ok (stop (unknown_type t lineno))
    | some type ↦ (do
      (done, rr) ← content_to_rdata net (record new_record {
        name = owner;
        type = type;
        ttl = ttl;
        content = qualify_content s.current_origin type (join toks (codes " "));
      })
      ok (
          if done
          then continue (record s { records = s.records ++ rr ∷ [] })
          else stop (bad_rdata rr.content lineno)))
  ]

  parse_record : ParseState → ℕ → DnsName → List Bytes → Outcome Line
  unfolding parse_typed take_ttl drop_class
  parse_record s lineno owner toks = do
    (ttl, toks') ← take_ttl s.ttl toks
    (ttl', toks'') ← take_ttl ttl (drop_class toks')
    parse_typed s lineno owner ttl' toks''

  parse_owned : ParseState → ℕ → Bytes → List Bytes → Outcome Line
  unfolding parse_record qualify_name
  parse_owned s lineno t toks =
      let owner = qualify_name t s.current_origin in
      if is_owner t
      then parse_record (record s { last_owner = owner }) lineno owner toks
      else parse_record s lineno s.last_owner (t ∷ toks)

  parse_origin : ParseState → ℕ → List Bytes → Line
  unfolding qualify_name
  parse_origin s lineno [] = stop (origin_missing lineno)
  parse_origin s lineno (n ∷ toks) =
      continue (record s { current_origin = qualify_name n s.current_origin })

  parse_ttl : ParseState → ℕ → List Bytes → Outcome Line
  unfolding to_u32
  parse_ttl s lineno [] = ok (stop (ttl_missing lineno))
  parse_ttl s lineno (v ∷ toks) = do ttl ← to_u32 v; ok (continue (record s { ttl = ttl }))

  -- A path relative to the directory of the file.
  include_path : Bytes → Bytes → Bytes
  include_path base_dir path =
      if not (str_eq (take 1 path) (codes "/")) && not (is_empty base_dir)
      then base_dir ++ (codes "/" ++ path)
      else path

  module _ (include : Bytes → DnsName → ℕ → Outcome ZoneParseResult) (base_dir : Bytes) where
    parse_include : ParseState → ℕ → List Bytes → Outcome Line
    unfolding include_path qualify_name
    parse_include s lineno [] = ok (stop (include_missing lineno))
    parse_include s lineno (path ∷ toks) =
        let origin : DnsName = elim toks [
          | [] ↦ s.current_origin
          | n ∷ rest ↦ qualify_name n s.current_origin
        ] in
        do
          result ← include (include_path base_dir path) origin s.ttl
          ok (elim result [
            | failed e ↦ stop e
            | parsed rrs ↦ continue (record s { records = s.records ++ rrs })
          ])

    unfoldable pub parse_tokens : ParseState → ℕ → List Bytes → Outcome Line
    unfolding parse_origin parse_ttl parse_include parse_owned to_lower
    parse_tokens s lineno [] = ok (continue s)
    parse_tokens s lineno (t ∷ toks) =
        if str_eq (to_lower t) (codes "$origin")
        then ok (parse_origin s lineno toks)
        else if str_eq (to_lower t) (codes "$ttl")
        then parse_ttl s lineno toks
        else if str_eq (to_lower t) (codes "$include")
        then parse_include s lineno toks
        else parse_owned s lineno t toks

    unfoldable pub parse_lines : ParseState → ℕ → List Bytes → Outcome ZoneParseResult
    unfolding parse_tokens tokenize strip_comments trim
    parse_lines s lineno [] = ok (parsed s.records)
    parse_lines s lineno (raw ∷ rest) = do
      line ← parse_tokens s (lineno + 1) (tokenize (trim (strip_comments raw)))
      elim line [ stop e ↦ ok (failed e) | continue s' ↦ parse_lines s' (lineno + 1) rest ]

    unfoldable pub parse_zone_text : Bytes → DnsName → ℕ → Outcome ZoneParseResult
    unfolding parse_lines lines flatten_parens
    parse_zone_text text origin default_ttl =
        parse_lines
          (record { current_origin = origin; last_owner = origin; ttl = default_ttl; records = [] })
          0 (lines (flatten_parens text))

  -- The text before the last slash or backslash, "." where there is none.
  dir_from : Bytes → Option Bytes
  dir_from [] = none
  dir_from (c ∷ s) = elim (dir_from s) [
    | some dir ↦ some (c ∷ dir)
    | none ↦ if c == b'/' || c == b'\\' then some [] else none
  ]

  abbrev directory : Bytes → Bytes
  unfolding dir_from
  directory path = elim (dir_from path) [ none ↦ codes "." | some dir ↦ dir ]

  -- `parseZoneFile`; `depth` bounds how deep files include one another.
  unfoldable pub parse_zone_file :
      (Bytes → Option Bytes) → ℕ → Bytes → DnsName → ℕ → Outcome ZoneParseResult
  unfolding parse_zone_text dir_from
  parse_zone_file read zero path origin default_ttl = ok (failed too_deep)
  parse_zone_file read (suc depth) path origin default_ttl =
      let include = parse_zone_file read depth in
      elim (read path) [
        | none ↦ ok (failed (cannot_open path))
        | some text ↦ parse_zone_text include (directory path) text origin default_ttl
      ]
