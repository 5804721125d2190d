-- ===== src/Message/Codec/Size.antt =====
-- How long the bytes of a message are.
use simple_dnsd.Base.{
  ℕ, ◌≤◌, ◌<◌, ◌≡◌, ◌%◌, ◌^◌, Bool, true, false, none, some, Option, List, [], ◌∷◌, ◌++◌, Bytes,
  length, replicate, length-append, length-drop, arith, refl, Bool-cases, ◌&&◌, ◌⊎◌, inl, inr, ltb,
  drop, ap, ◌∙◌,
}
use simple_dnsd.StringMap
use simple_dnsd.Wire.{put16, put32, Compression, encode_name}
use simple_dnsd.Wire.Growth.{length-put16, length-put32, encode_name-grows}
use simple_dnsd.Record.{ResourceRecord, Question, DnsMessage}
use simple_dnsd.Message.Codec.{
  Writer, encode_rr, write_questions, write_records, write_tsig, write_sections, header_bytes,
  encode_message,
}

encode_rr-grows :
    (out : Bytes) (c : Option Compression) (rr : ResourceRecord)
    → length out ≤ length (encode_rr (out, c) rr).1.0
unfolding encode_rr
encode_rr-grows out c rr =
    let named = (encode_name out rr.name c true).1 in
    let t = put16 named (rr.type % 2 ^ 16) in
    let k = put16 t (rr.rclass % 2 ^ 16) in
    let head = put32 k rr.ttl in
    let l = put16 head (length rr.rdata % 2 ^ 16) in
    ground (
      arith,
      encode_name-grows out rr.name c true,
      length-put16 named (rr.type % 2 ^ 16),
      length-put16 t (rr.rclass % 2 ^ 16),
      length-put32 k rr.ttl,
      length-put16 head (length rr.rdata % 2 ^ 16),
      length-append l rr.rdata,
    )

write_questions-grows :
    (out : Bytes) (c : Option Compression) (questions : List Question)
    → length out ≤ length (write_questions (out, c) questions).0
unfolding write_questions
write_questions-grows out c [] = omega arith
write_questions-grows out c (q ∷ questions) =
    let named = (encode_name out q.qname c true).1 in
    let t = put16 named (q.qtype % 2 ^ 16) in
    let k = put16 t (q.qclass % 2 ^ 16) in
    omega (
      arith,
      encode_name-grows out q.qname c true,
      length-put16 named (q.qtype % 2 ^ 16),
      length-put16 t (q.qclass % 2 ^ 16),
      write_questions-grows k (encode_name out q.qname c true).2 questions,
    )

write_records-grows :
    (w : Writer) (rrs : List ResourceRecord) → length w.0 ≤ length (write_records w rrs).0
unfolding write_records
write_records-grows w [] = omega arith
write_records-grows w (rr ∷ rrs) =
    omega (arith, encode_rr-grows w.0 w.1 rr, write_records-grows (encode_rr w rr).1 rrs)

write_tsig-grows :
    (w : Writer) (tsig : Option ResourceRecord) → length w.0 ≤ length (write_tsig w tsig).0
unfolding write_tsig
write_tsig-grows w none = omega arith
write_tsig-grows w (some rr) = encode_rr-grows w.0 none rr

-- The sections stand behind the twelve bytes of the header.
write_sections-header :
    (msg : DnsMessage) (sections : Bool) → 12 ≤ length (write_sections msg sections)
unfolding write_sections
write_sections-header msg sections =
    let w0 = write_questions (replicate 12 0, some StringMap.empty) msg.questions in
    let w1 = write_records w0 msg.answers in
    let w2 = write_records w1 msg.authority in
    let w3 = write_records w2 msg.additional in
    ground (
      arith,
      write_questions-grows (replicate 12 0) (some StringMap.empty) msg.questions,
      write_records-grows w0 msg.answers,
      write_records-grows w1 msg.authority,
      write_records-grows w2 msg.additional,
      write_tsig-grows w3 msg.tsig,
    )

length-header_bytes : (msg : DnsMessage) (tc : Bool) → length (header_bytes msg tc) ≡ 12
unfolding header_bytes
length-header_bytes msg tc = omega arith

abbrev is_cut : DnsMessage → ℕ → Bool
is_cut msg limit = ltb 0 limit && ltb limit (length (write_sections msg true))

encode_message-is_cut :
    (msg : DnsMessage) (limit : ℕ)
    → is_cut msg limit ≡ true
    → encode_message msg limit ≡ (header_bytes msg true ++ drop 12 (write_sections msg false), true)
unfolding encode_message
encode_message-is_cut msg limit e = rw e refl

encode_message-whole :
    (msg : DnsMessage) (limit : ℕ)
    → is_cut msg limit ≡ false
    → encode_message msg limit
      ≡ (header_bytes msg msg.header.tc ++ drop 12 (write_sections msg true), false)
unfolding encode_message
encode_message-whole msg limit e = rw e refl

length-framed :
    (msg : DnsMessage) (tc : Bool) (w : Bytes)
    → 12 ≤ length w
    → length (header_bytes msg tc ++ drop 12 w) ≡ length w
length-framed msg tc w h = omega (
  arith,
  length-append (header_bytes msg tc) (drop 12 w),
  length-header_bytes msg tc,
  length-drop 12 w,
)

-- What a truncated message is: its header with the flag TC, and its questions.
abbrev pub bare : DnsMessage → DnsMessage
bare msg = record msg {
  header = record (msg.header) { tc = true };
  answers = [];
  authority = [];
  additional = [];
  tsig = none;
}

-- Where the sections are left out, the bytes are those of the message that has none.
cut_bytes :
    (msg : DnsMessage)
    → header_bytes msg true ++ drop 12 (write_sections msg false) ≡ (encode_message (bare msg) 0).0
unfolding encode_message header_bytes write_sections write_records write_tsig
cut_bytes msg = refl

-- A message that is not longer than the limit is encoded as without a limit, with the flag unset; a
-- limit of 0 is none. Of one that is longer the bytes are those of the message with TC set and with
-- its questions alone, so without its records and its signature, and the flag says so. The twelve
-- bytes of the header are there in each case.
pub encode_message-cut :
    (msg : DnsMessage) (limit : ℕ)
    → (12 ≤ length (encode_message msg limit).0)
      × (((encode_message msg limit ≡ encode_message msg 0)
            × ((encode_message msg limit).1 ≡ false)
            × ((limit ≡ 0) ⊎ (length (encode_message msg limit).0 ≤ limit)))
          ⊎ (((encode_message msg limit).1 ≡ true)
              × ((encode_message msg limit).0 ≡ (encode_message (bare msg) 0).0)
              × (0 < limit)
              × (limit < length (encode_message msg 0).0)))
encode_message-cut msg limit =
    let full = write_sections msg true in
    let short = write_sections msg false in
    let long = length-framed msg msg.header.tc full (write_sections-header msg true) in
    elim (Bool-cases (is_cut msg limit)) [
      | inl e ↦ (
        ground (
          arith,
          encode_message-is_cut msg limit e,
          length-framed msg true short (write_sections-header msg false),
          write_sections-header msg false,
        ),
        inr (
          ap (λ p. p.1) (encode_message-is_cut msg limit e),
          ap (λ p. p.0) (encode_message-is_cut msg limit e) ∙ cut_bytes msg,
          ground arith,
          ground (arith, encode_message-whole msg 0 refl, long),
        ),
      )
      | inr e ↦ ground (
        arith,
        encode_message-whole msg limit e,
        encode_message-whole msg 0 refl,
        long,
        write_sections-header msg true,
      )
    ]
