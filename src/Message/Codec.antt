-- ===== src/Message/Codec.antt =====
-- The sections of a message, and the message.
pub mod Size
use simple_dnsd.Base.{
  ℕ, zero, suc, ◌+◌, ◌%◌, ◌/◌, ◌^◌, bit_and, Bool, true, false, not, ◌&&◌, Option, none, some, List,
  [], ◌∷◌, ◌++◌, ltb, ◌==◌, if◌then◌else◌, Bytes, length, take, drop, replicate,
}
use simple_dnsd.Chain.{◌>>=◌}
use simple_dnsd.StringMap
use simple_dnsd.Wire.{put16, put32, get16, get32, to_u8, Compression, encode_name, decode_name}
use simple_dnsd.Record.{ResourceRecord, new_record, Question, new_header, new_edns, DnsMessage}
use simple_dnsd.Record.RrType
use simple_dnsd.Inet.{Inet}
use simple_dnsd.Rdata.{rdata_to_content}
use simple_dnsd.Message.Flags.{encode_flags, decode_flags}

-- The buffer and the compression map, which the encoder writes to; a null pointer is `none`.
abbrev pub Writer : Type 0
Writer = Bytes × Option Compression

-- `encodeRr`: where the name is refused, what was written of it stays.
unfoldable pub encode_rr : Writer → ResourceRecord → Bool × Writer
unfolding encode_name put16 put32
encode_rr (out, compression) rr =
    let (done, named, compression') = encode_name out rr.name compression true in
    if not done
    then (false, (named, compression'))
    else (let head = put32 (put16 (put16 named (rr.type % 2 ^ 16)) (rr.rclass % 2 ^ 16)) rr.ttl in
        (true, (put16 head (length rr.rdata % 2 ^ 16) ++ rr.rdata, compression')))

-- The loops of `writeSections`; the flags that the encoders return are not read.
write_questions : Writer → List Question → Writer
unfolding encode_name put16
write_questions w [] = w
write_questions (out, compression) (q ∷ questions) =
    let (_, named, compression') = encode_name out q.qname compression true in
    write_questions (put16 (put16 named (q.qtype % 2 ^ 16)) (q.qclass % 2 ^ 16), compression')
      questions

write_records : Writer → List ResourceRecord → Writer
unfolding encode_rr
write_records w [] = w
write_records w (rr ∷ rrs) = write_records (encode_rr w rr).1 rrs

write_tsig : Writer → Option ResourceRecord → Writer
unfolding encode_rr
write_tsig w none = w
write_tsig (out, compression) (some rr) = ((encode_rr (out, none) rr).1.0, compression)

-- `writeSections(answers, authority, additional)`, from the empty buffer of twelve bytes.
write_sections : DnsMessage → Bool → Bytes
unfolding write_questions write_records write_tsig
write_sections msg sections =
    let w0 = write_questions (replicate 12 0, some StringMap.empty) msg.questions in
    let w1 = write_records w0 msg.answers in
    let w2 = write_records w1 msg.authority in
    let w3 = write_tsig (write_records w2 msg.additional) msg.tsig in
    if sections then w3.0 else w0.0

abbrev bytes16 : ℕ → Bytes
bytes16 v = to_u8 (v / 2 ^ 8) ∷ to_u8 (bit_and v 0xff) ∷ []

-- A count of the header; a truncated message has none.
abbrev count_of {ℓ} : {A : Type ℓ} → Bool → List A → ℕ
count_of tc l = if tc then 0 else length l % 2 ^ 16

abbrev is_some {ℓ} : {A : Type ℓ} → Option A → Bool
is_some none = false
is_some (some a) = true

-- The bytes 0 to 11.
header_bytes : DnsMessage → Bool → Bytes
unfolding encode_flags
header_bytes msg tc =
    let ar = count_of tc msg.additional in
    let ar' = if not tc && is_some msg.tsig then (ar + 1) % 2 ^ 16 else ar in
    bytes16 msg.header.id
    ++ (bytes16 (encode_flags msg.header tc)
        ++ (bytes16 (length msg.questions % 2 ^ 16)
            ++ (bytes16 (count_of tc msg.answers)
                ++ (bytes16 (count_of tc msg.authority) ++ bytes16 ar'))))

-- The bytes of the message, and the flag `*truncated`.
unfoldable pub encode_message : DnsMessage → ℕ → Bytes × Bool
unfolding write_sections header_bytes
encode_message msg truncate_at =
    let full = write_sections msg true in
    let cut = ltb 0 truncate_at && ltb truncate_at (length full) in
    let out = if cut then write_sections msg false else full in
    let tc = if cut then true else msg.header.tc in (header_bytes msg tc ++ drop 12 out, cut)

read_questions : Bytes → ℕ → ℕ → Option (List Question × ℕ)
unfolding decode_name get16
read_questions inp zero off = some ([], off)
read_questions inp (suc n) off = do
  (qname, o1) ← decode_name inp off
  (t, o2) ← get16 inp o1
  (c, o3) ← get16 inp o2
  (questions, o4) ← read_questions inp n o3
  some ((record { qname = qname; qtype = t; qclass = c }) ∷ questions, o4)

-- The OPT records of the additional section fill `edns` and stay; a TSIG record leaves it.
place_additional : DnsMessage → List ResourceRecord → DnsMessage
place_additional msg [] = msg
place_additional msg (rr ∷ ar) =
    place_additional
      (if rr.type == RrType.opt
        then record msg {
          edns = record {
            present = true;
            udp_size = rr.rclass;
            ext_rcode = bit_and (rr.ttl / 2 ^ 24) 0xff;
            version = bit_and (rr.ttl / 2 ^ 16) 0xff;
            dnssec_ok = not (bit_and rr.ttl 0x8000 == 0);
          };
          additional = msg.additional ++ rr ∷ [];
        }
        else if rr.type == RrType.tsig
        then record msg { tsig = some rr }
        else record msg { additional = msg.additional ++ rr ∷ [] })
      ar

module _ (net : Inet) where
  -- The flag that `rdataToContent` returns is not read.
  unfoldable pub decode_rr : Bytes → ℕ → Option (ResourceRecord × ℕ)
  unfolding decode_name get16 get32 rdata_to_content
  decode_rr inp off = do
    (name, o1) ← decode_name inp off
    (type, o2) ← get16 inp o1
    (rclass, o3) ← get16 inp o2
    (ttl, o4) ← get32 inp o3
    (rdlen, o5) ← get16 inp o4
    if ltb (length inp) (o5 + rdlen)
        then none
        else some (
          (rdata_to_content net (record new_record {
            name = name;
            type = type;
            rclass = rclass;
            ttl = ttl;
            rdata = take rdlen (drop o5 inp);
          })).1,
          o5 + rdlen,
        )

  read_records : Bytes → ℕ → ℕ → Option (List ResourceRecord × ℕ)
  unfolding decode_rr
  read_records inp zero off = some ([], off)
  read_records inp (suc n) off = do
    (rr, o1) ← decode_rr inp off
    (rrs, o2) ← read_records inp n o1
    some (rr ∷ rrs, o2)

  -- `none` for `false`: what a refused message leaves in `msg` is read by no caller.
  unfoldable pub decode_message : Bytes → Option DnsMessage
  unfolding get16 decode_flags read_questions read_records place_additional
  decode_message inp = if ltb (length inp) 12 then none else (do
    (id, o1) ← get16 inp 0
    (flags, o2) ← get16 inp o1
    (qd, o3) ← get16 inp o2
    (an, o4) ← get16 inp o3
    (ns, o5) ← get16 inp o4
    (ar, o6) ← get16 inp o5
    (questions, o7) ← read_questions inp qd o6
    (answers, o8) ← read_records inp an o7
    (authority, o9) ← read_records inp ns o8
    (rest, o10) ← read_records inp ar o9
    some (
        place_additional
          (record {
            header =
                decode_flags
                  (record new_header {
                    id = id;
                    qdcount = qd;
                    ancount = an;
                    nscount = ns;
                    arcount = ar;
                  })
                  flags;
            questions = questions;
            answers = answers;
            authority = authority;
            additional = [];
            edns = new_edns;
            tsig = none;
          })
          rest))
