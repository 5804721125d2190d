-- ===== src/Message/Header.antt =====
-- The header word: the flags that are written are read back.
use simple_dnsd.Base.{
  ℕ, ◌+◌, ◌*◌, ◌/◌, ◌%◌, ◌^◌, ◌<◌, bit_and, bit_or, or-add, and-ones, and-power, ◌≡◌, refl, ap, ◌∙◌,
  Bool, true, false, if◌then◌else◌, arith,
}
use simple_dnsd.Record.{DnsHeader}
use simple_dnsd.Message.{encode_flags, decode_flags}
use simple_dnsd.Message.Flags.{flag, has_flag}

abbrev digit : Bool → ℕ
digit b = if b then 1 else 0

-- The word as a sum of its fields.
abbrev word : DnsHeader → Bool → ℕ
word h tc =
    digit h.qr * 2 ^ 15
    + h.opcode * 2 ^ 11
    + digit h.aa * 2 ^ 10
    + digit tc * 2 ^ 9
    + digit h.rd * 2 ^ 8
    + digit h.ra * 2 ^ 7
    + digit h.ad * 2 ^ 5
    + digit h.cd * 2 ^ 4
    + h.rcode

digit-lt : (b : Bool) → digit b < 2
digit-lt true = omega arith
digit-lt false = omega arith

flag-digit : (b : Bool) (k mask : ℕ) → mask ≡ 2 ^ k → flag b mask ≡ digit b * 2 ^ k
flag-digit true k mask e = omega (arith, e)
flag-digit false k mask e = omega arith

-- One more field, below those that stand in `x` already.
add_field :
    (k q x y x' y' : ℕ) → x ≡ x' → y ≡ y' → x' ≡ q * 2 ^ k → y' < 2 ^ k → bit_or x y ≡ x' + y'
add_field k q x y x' y' e f g h = rw (e, f) (or-add k q x' y' g h)

encode_flags-word :
    (h : DnsHeader) (tc : Bool) → h.opcode < 16 → h.rcode < 16 → encode_flags h tc ≡ word h tc
unfolding encode_flags
encode_flags-word h tc o r =
    let v0 = digit h.qr * 2 ^ 15 in
    let v1 = v0 + h.opcode * 2 ^ 11 in
    let s1 =
      add_field 15 (digit h.qr) (flag h.qr 0x8000) (h.opcode * 2 ^ 11) v0 (h.opcode * 2 ^ 11)
        (flag-digit h.qr 15 0x8000 refl) refl refl (omega arith) in
    let v2 = v1 + digit h.aa * 2 ^ 10 in
    let x2 = bit_or (bit_or (flag h.qr 0x8000) (h.opcode * 2 ^ 11)) (flag h.aa 0x0400) in
    let s2 : x2 ≡ v2 =
      add_field 11 (v1 / 2 ^ 11) (bit_or (flag h.qr 0x8000) (h.opcode * 2 ^ 11)) (flag h.aa 0x0400)
        v1 (digit h.aa * 2 ^ 10) s1 (flag-digit h.aa 10 0x0400 refl) (omega arith)
        (omega (arith, digit-lt h.aa)) in
    let v3 = v2 + digit tc * 2 ^ 9 in
    let x3 = bit_or (x2) (flag tc 0x0200) in
    let s3 : x3 ≡ v3 =
      add_field 10 (v2 / 2 ^ 10) (x2) (flag tc 0x0200) v2 (digit tc * 2 ^ 9) s2
        (flag-digit tc 9 0x0200 refl) (omega arith) (omega (arith, digit-lt tc)) in
    let v4 = v3 + digit h.rd * 2 ^ 8 in
    let x4 = bit_or (x3) (flag h.rd 0x0100) in
    let s4 : x4 ≡ v4 =
      add_field 9 (v3 / 2 ^ 9) (x3) (flag h.rd 0x0100) v3 (digit h.rd * 2 ^ 8) s3
        (flag-digit h.rd 8 0x0100 refl) (omega arith) (omega (arith, digit-lt h.rd)) in
    let v5 = v4 + digit h.ra * 2 ^ 7 in
    let x5 = bit_or (x4) (flag h.ra 0x0080) in
    let s5 : x5 ≡ v5 =
      add_field 8 (v4 / 2 ^ 8) (x4) (flag h.ra 0x0080) v4 (digit h.ra * 2 ^ 7) s4
        (flag-digit h.ra 7 0x0080 refl) (omega arith) (omega (arith, digit-lt h.ra)) in
    let v6 = v5 + digit h.ad * 2 ^ 5 in
    let x6 = bit_or (x5) (flag h.ad 0x0020) in
    let s6 : x6 ≡ v6 =
      add_field 7 (v5 / 2 ^ 7) (x5) (flag h.ad 0x0020) v5 (digit h.ad * 2 ^ 5) s5
        (flag-digit h.ad 5 0x0020 refl) (omega arith) (omega (arith, digit-lt h.ad)) in
    let v7 = v6 + digit h.cd * 2 ^ 4 in
    let x7 = bit_or (x6) (flag h.cd 0x0010) in
    let s7 : x7 ≡ v7 =
      add_field 5 (v6 / 2 ^ 5) (x6) (flag h.cd 0x0010) v6 (digit h.cd * 2 ^ 4) s6
        (flag-digit h.cd 4 0x0010 refl) (omega arith) (omega (arith, digit-lt h.cd)) in
    let all : bit_or x7 (bit_and h.rcode 0x0f) ≡ word h tc =
      add_field 4 (v7 / 2 ^ 4) x7 (bit_and h.rcode 0x0f) v7 h.rcode s7
        (omega (arith, and-ones 4 h.rcode)) (omega arith) (omega arith) in
    ap (λ (t : ℕ). t % 2 ^ 16) all
    ∙ omega (
      arith,
      digit-lt h.qr,
      digit-lt h.aa,
      digit-lt tc,
      digit-lt h.rd,
      digit-lt h.ra,
      digit-lt h.ad,
      digit-lt h.cd,
    )

has_flag-digit :
    (k w mask : ℕ) (b : Bool)
    → mask ≡ 2 ^ k
    → 0 < mask
    → w / 2 ^ k % 2 ≡ digit b
    → has_flag w mask ≡ b
has_flag-digit k w mask true e p d = rw e (ground (arith, and-power k w))
has_flag-digit k w mask false e p d = rw e (ground (arith, and-power k w))

abbrev DigitsLt : (h : DnsHeader) (tc : Bool) → Type 0
DigitsLt h tc =
    (digit h.qr < 2)
    × (digit h.aa < 2)
    × (digit tc < 2)
    × (digit h.rd < 2)
    × (digit h.ra < 2)
    × (digit h.ad < 2)
    × (digit h.cd < 2)

-- The second word of the header, as it is written for a header whose opcode and response code have
-- four bits, is read back: every flag, the opcode and the response code, and `tc` as truncation set it.
pub decode_flags-encode_flags :
    (h h' : DnsHeader) (tc : Bool)
    → h.opcode < 16
    → h.rcode < 16
    → decode_flags h' (encode_flags h tc) ≡ record h' {
      qr = h.qr;
      opcode = h.opcode;
      aa = h.aa;
      tc = tc;
      rd = h.rd;
      ra = h.ra;
      ad = h.ad;
      cd = h.cd;
      rcode = h.rcode;
    }
unfolding decode_flags
decode_flags-encode_flags h h' tc o r =
    let w = word h tc in
    let d : DigitsLt h tc = (
      digit-lt h.qr,
      digit-lt h.aa,
      digit-lt tc,
      digit-lt h.rd,
      digit-lt h.ra,
      digit-lt h.ad,
      digit-lt h.cd,
    ) in
    rw (encode_flags-word h tc o r) (
      ground (
        arith,
        has_flag-digit 15 w 0x8000 h.qr refl (omega arith) (omega arith),
        and-ones 4 (w / 2 ^ 11),
        has_flag-digit 10 w 0x0400 h.aa refl (omega arith) (omega arith),
        has_flag-digit 9 w 0x0200 tc refl (omega arith) (omega arith),
        has_flag-digit 8 w 0x0100 h.rd refl (omega arith) (omega arith),
        has_flag-digit 7 w 0x0080 h.ra refl (omega arith) (omega arith),
        has_flag-digit 5 w 0x0020 h.ad refl (omega arith) (omega arith),
        has_flag-digit 4 w 0x0010 h.cd refl (omega arith) (omega arith),
        and-ones 4 w,
      ))
