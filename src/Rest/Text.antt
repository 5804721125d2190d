-- ===== src/Rest/Text.antt =====
-- The text helpers of src/simple-dnsd/api/rest.cpp: `jsonEscape`, `urlDecode`, and the parts of a request.
use simple_dnsd.Base.{
  ℕ, ◌+◌, ◌||◌, none, some, List, [], ◌∷◌, ◌++◌, ◌==◌, leb, if◌then◌else◌, Bytes, codes, drop, take,
  length,
}
use simple_dnsd.Outcome.{Outcome, ok, ◌>>=◌}
use simple_dnsd.Text.{to_lower, trim}
use simple_dnsd.Text.Number.{stoi, wrap_int}
use simple_dnsd.Text.Find.{index_of, find_byte, place_of, find, between}
use simple_dnsd.Zone.Lexer.{quote}

unfoldable pub json_escape : Bytes → Bytes
json_escape [] = []
json_escape (ch ∷ s) =
    let rest = json_escape s in if ch == quote || ch == b'\\' then b'\\' ∷ ch ∷ rest else ch ∷ rest

-- `static_cast<char>(std::stoi(…, nullptr, 16))` of two characters.
abbrev hex_pair : ℕ → ℕ → Outcome ℕ
unfolding stoi
hex_pair a b = stoi 16 (a ∷ b ∷ []) >>= λ v. ok (wrap_int 8 v)

abbrev put : ℕ → Outcome Bytes → Outcome Bytes
put c rest = rest >>= λ s. ok (c ∷ s)

unfoldable pub url_decode : Bytes → Outcome Bytes
unfolding stoi
url_decode [] = ok []
url_decode (c ∷ a ∷ b ∷ s) =
    let past = url_decode s in
    let next = url_decode (a ∷ b ∷ s) in
    if c == b'%'
    then (hex_pair a b >>= λ v. put v past)
    else if c == b'+'
    then put b' ' next
    else put c next
url_decode (c ∷ s) = let next = url_decode s in if c == b'+' then put b' ' next else put c next

abbrev pub crlf : Bytes
crlf = 13 ∷ 10 ∷ []

-- The loop that receives a request: it ends at an empty line, at 65536 bytes, or where no more comes.
unfoldable pub receive : List Bytes → Bytes → Bytes
unfolding place_of
receive [] req = req
receive (chunk ∷ chunks) req =
    let more = receive chunks (req ++ chunk) in
    elim (find (crlf ++ crlf) 0 req) [
      | some i ↦ req
      | none ↦ if leb 65536 (length req) then req else more
    ]

-- The path, without what follows a question mark.
unfoldable pub path_of : Bytes → Bytes
unfolding index_of
path_of path = elim (find_byte b'?' 0 path) [ none ↦ path | some i ↦ take i path ]

-- What follows `x-api-key:` up to the end of its line, wherever in the request it stands.
unfoldable pub api_key_of : Bytes → Bytes
unfolding place_of to_lower trim
api_key_of req = elim (find (codes "x-api-key:") 0 (to_lower req)) [
  | none ↦ []
  | some pos ↦ elim (find crlf pos req) [
    | none ↦ trim (drop (pos + 10) req)
    | some last ↦ trim (between (pos + 10) last req)
  ]
]

unfoldable pub body_of : Bytes → Bytes
unfolding place_of
body_of req = elim (find (crlf ++ crlf) 0 req) [ none ↦ [] | some blank ↦ drop (blank + 4) req ]
