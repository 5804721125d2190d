-- ===== src/Rdata/Pack.antt =====
-- `contentToRdata`: the text of a record's data to its wire form. A call of `std::stoi` or
-- `std::stoul` outside a `try` may end it by an exception.
use simple_dnsd.Base.{
  ℕ, zero, suc, ◌-◌, ◌%◌, ◌^◌, Bool, true, false, not, ◌&&◌, ◌||◌, Option, none, some, List, [],
  ◌∷◌, ◌++◌, leb, ◌==◌, if◌then◌else◌, Bytes, codes, length, take, drop, is_empty, str_eq, min,
}
use simple_dnsd.Outcome.{Outcome, ok, ◌>>=◌, catch_with}
use simple_dnsd.Text.{split_ws, join}
use simple_dnsd.Text.Number.{stoi, stoul, wrap_int}
use simple_dnsd.Name.{parse}
use simple_dnsd.Wire.{put16, put32, to_u8, encode_name}
use simple_dnsd.Record.{ResourceRecord}
use simple_dnsd.Record.RrType
use simple_dnsd.Inet.{Inet, c_str}
use simple_dnsd.Rdata.Unpack.{rdata_to_content}

-- What the call returns, with the record as it leaves it.
abbrev pub Packed : Type 0
Packed = Outcome (Bool × ResourceRecord)

abbrev accept : ResourceRecord → Bytes → Packed
accept rr out = ok (true, record rr { rdata = out })

abbrev reject : ResourceRecord → Packed
reject rr = ok (false, rr)

unfoldable pub encode_domain_rdata : Bytes → Bytes → Bool × Bytes
unfolding encode_name parse
encode_domain_rdata out name =
    let (done, out', _) = encode_name out (parse name) none false in (done, out')

accept_if : ResourceRecord → Bool × Bytes → Packed
accept_if rr (true, out) = accept rr out
accept_if rr (false, out) = reject rr

pack_address : ResourceRecord → Option Bytes → Packed
pack_address rr none = reject rr
pack_address rr (some out) = accept rr out

-- `prio = stoi(parts[0]); host = parts[1];` in a `try` that keeps the values before it.
mx_parts : ResourceRecord → List Bytes → ℕ × Bytes
unfolding stoi
mx_parts rr (p ∷ h ∷ parts) =
    catch_with (rr.prio, rr.content) (do v ← stoi 10 p; ok (wrap_int 16 v, h))
mx_parts rr _ = (rr.prio, rr.content)

pack_mx : ResourceRecord → Packed
unfolding mx_parts split_ws put16 encode_domain_rdata accept_if
pack_mx rr =
    let (prio, host) = mx_parts rr (split_ws rr.content) in
    accept_if (record rr { prio = prio }) (encode_domain_rdata (put16 [] prio) host)

-- The five numbers of an SOA.
put_numbers : Bytes → List Bytes → Outcome Bytes
unfolding stoul put32
put_numbers out [] = ok out
put_numbers out (p ∷ parts) = do v ← stoul p; put_numbers (put32 out (v % 2 ^ 32)) parts

pack_soa_names : ResourceRecord → Bool × Bytes → Bytes → List Bytes → Packed
unfolding put_numbers encode_domain_rdata
pack_soa_names rr (false, out) rname parts = reject rr
pack_soa_names rr (true, out) rname parts =
    let (done, out') = encode_domain_rdata out rname in
    if done then (do out'' ← put_numbers out' parts; accept rr out'') else reject rr

pack_soa : ResourceRecord → List Bytes → Packed
unfolding pack_soa_names
pack_soa rr (mname ∷ rname ∷ serial ∷ refresh ∷ retry ∷ expire ∷ minimum ∷ parts) =
    pack_soa_names rr (encode_domain_rdata [] mname) rname
      (serial ∷ refresh ∷ retry ∷ expire ∷ minimum ∷ [])
pack_soa rr _ = reject rr

ends_by_quote : Bytes → Bool
ends_by_quote [] = false
ends_by_quote (c ∷ s) = if is_empty s then c == b'"' else ends_by_quote s

-- `text.substr(1, text.size() - 2)` where the text stands in quotes.
unfoldable pub strip_quotes : Bytes → Bytes
unfolding ends_by_quote
strip_quotes [] = []
strip_quotes (c ∷ s) =
    if leb 1 (length s) && c == b'"' && ends_by_quote s then take (length s - 1) s else c ∷ s

-- The character strings of a TXT record; a round takes one byte or more, so the text's length is
-- fuel enough.
txt_strings : ℕ → Bytes → Bytes → Bytes
txt_strings zero out text = out
txt_strings (suc fuel) out text =
    let n = min 255 (length text) in
    let rest = txt_strings fuel (out ++ (to_u8 n ∷ take n text)) (drop n text) in
    if is_empty text then out else rest

pack_txt : ResourceRecord → Packed
unfolding txt_strings strip_quotes
pack_txt rr =
    let text = strip_quotes rr.content in
    accept rr (if is_empty text then 0 ∷ [] else txt_strings (length text) [] text)

pack_srv_fields : ResourceRecord → ℕ → ℕ → ℕ → Bytes → Packed
unfolding put16 encode_domain_rdata accept_if
pack_srv_fields rr prio weight port target =
    accept_if (record rr { prio = prio })
      (encode_domain_rdata (put16 (put16 (put16 [] prio) weight) port) target)

pack_srv : ResourceRecord → List Bytes → Packed
unfolding pack_srv_fields stoi
pack_srv rr (p ∷ w ∷ q ∷ t ∷ []) = do
  prio ← stoi 10 p
  weight ← stoi 10 w
  port ← stoi 10 q
  pack_srv_fields rr (wrap_int 16 prio) (wrap_int 16 weight) (wrap_int 16 port) t
pack_srv rr (w ∷ q ∷ t ∷ []) = do
  weight ← stoi 10 w
  port ← stoi 10 q
  pack_srv_fields rr rr.prio (wrap_int 16 weight) (wrap_int 16 port) t
pack_srv rr _ = reject rr

pack_caa : ResourceRecord → List Bytes → Packed
unfolding strip_quotes stoi join
pack_caa rr (f ∷ tag ∷ v ∷ vs) = do
  flag ← stoi 10 f
  let val = strip_quotes (join (v ∷ vs) (codes " "))
  accept rr (wrap_int 8 flag ∷ to_u8 (length tag) ∷ (tag ++ val))
pack_caa rr _ = reject rr

-- The bytes that pairs of hexadecimal digits spell.
hex_pairs : Bytes → Outcome Bytes
unfolding stoi
hex_pairs (a ∷ b ∷ hex) = do v ← stoi 16 (a ∷ b ∷ []); out ← hex_pairs hex; ok (wrap_int 8 v ∷ out)
hex_pairs _ = ok []

concat : List Bytes → Bytes
concat [] = []
concat (p ∷ parts) = p ++ concat parts

pack_hex : ResourceRecord → List Bytes → Packed
unfolding hex_pairs concat
pack_hex rr (mark ∷ size ∷ parts) =
    let hex = concat parts in
    if length hex % 2 == 0 then (do out ← hex_pairs hex; accept rr out) else reject rr
pack_hex rr _ = reject rr

-- The `default` case: RFC 3597 text, or data that is there already.
pack_unknown : ResourceRecord → Packed
unfolding pack_hex split_ws
pack_unknown rr =
    if not (is_empty rr.rdata)
    then ok (true, rr)
    else if str_eq (take 2 rr.content) (codes "\\#")
    then pack_hex rr (split_ws rr.content)
    else reject rr

module _ (net : Inet) where
  -- The `switch` on the type.
  pack : ResourceRecord → Packed
  unfolding pack_address pack_mx pack_soa pack_txt pack_srv pack_caa pack_unknown accept_if c_str
  pack rr =
      let t = rr.type in
      if t == RrType.a
      then pack_address rr (net.pton4 (c_str rr.content))
      else if t == RrType.aaaa
      then pack_address rr (net.pton6 (c_str rr.content))
      else if t == RrType.ns || t == RrType.cname || t == RrType.ptr
      then accept_if rr (encode_domain_rdata [] rr.content)
      else if t == RrType.mx
      then pack_mx rr
      else if t == RrType.soa
      then pack_soa rr (split_ws rr.content)
      else if t == RrType.txt
      then pack_txt rr
      else if t == RrType.srv
      then pack_srv rr (split_ws rr.content)
      else if t == RrType.caa
      then pack_caa rr (split_ws rr.content)
      else pack_unknown rr

  -- The source's second test repeats the first, so it never holds.
  unfoldable pub content_to_rdata : ResourceRecord → Packed
  unfolding pack rdata_to_content
  content_to_rdata rr =
      if not (is_empty rr.rdata) && is_empty rr.content
      then ok (rdata_to_content net rr)
      else pack rr
