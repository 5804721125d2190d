-- ===== src/Zone/Lexer.antt =====
-- Comments, quotes, parentheses and tokens of a master file.
use simple_dnsd.Base.{
  ℕ, ◌+◌, ◌-◌, Bool, false, not, ◌&&◌, ◌||◌, List, [], ◌∷◌, ◌++◌, ltb, ◌==◌, if◌then◌else◌, Bytes,
  codes, str_eq, is_empty, all_of,
}
use simple_dnsd.Text.{is_space, is_digit, to_lower, emit}
use simple_dnsd.Name.{DnsName, parse, qualify}

abbrev pub quote : ℕ
quote = b'"'

-- `isAbsName`
unfoldable pub is_abs_name : Bytes → Bool
is_abs_name [] = false
is_abs_name (c ∷ s) = if is_empty s then c == b'.' else is_abs_name s

unfoldable pub qualify_name : Bytes → DnsName → DnsName
unfolding is_abs_name parse qualify
qualify_name token origin =
    if str_eq token (codes "@")
    then origin
    else if is_abs_name token
    then parse token
    else qualify (parse token) origin

-- The loop of `stripComments`, inside quotes or not.
strip_from : Bool → Bytes → Bytes
strip_from in_quote [] = []
strip_from in_quote (ch ∷ line) =
    let in_quote' = if ch == quote then not in_quote else in_quote in
    let rest = strip_from in_quote' line in if ch == b';' && not in_quote' then [] else ch ∷ rest

unfoldable pub strip_comments : Bytes → Bytes
unfolding strip_from
strip_comments line = strip_from false line

-- The loop of `tokenize`, with the token read so far.
unfoldable pub tokenize_from : Bytes → Bool → Bytes → List Bytes
unfolding is_space
tokenize_from cur in_quote [] = emit cur []
tokenize_from cur in_quote (ch ∷ text) =
    let blank = not (ch == quote) && not in_quote && is_space ch in
    let rest =
      tokenize_from (if blank then [] else cur ++ ch ∷ [])
        (if ch == quote then not in_quote else in_quote) text in
    if blank then emit cur rest else rest

unfoldable pub tokenize : Bytes → List Bytes
unfolding tokenize_from
tokenize text = tokenize_from [] false text

-- The loop of `flattenParens`, with the open parentheses.
unfoldable pub flatten_from : ℕ → Bool → Bytes → Bytes
flatten_from depth in_quote [] = []
flatten_from depth in_quote (ch ∷ text) =
    let in_quote' = if ch == quote then not in_quote else in_quote in
    let opens = not in_quote' && ch == b'(' in
    let closes = not in_quote' && ch == b')' in
    let depth' = if opens then depth + 1 else if closes then depth - 1 else depth in
    let rest = flatten_from depth' in_quote' text in
    if opens || closes || (ch == b'\n' && ltb 0 depth) then b' ' ∷ rest else ch ∷ rest

unfoldable pub flatten_parens : Bytes → Bytes
unfolding flatten_from
flatten_parens text = flatten_from 0 false text

unfoldable pub looks_like_ttl : Bytes → Bool
unfolding is_digit
looks_like_ttl s = not (is_empty s) && all_of is_digit s

unfoldable pub looks_like_class : Bytes → Bool
unfolding to_lower
looks_like_class s =
    let u = to_lower s in
    str_eq u (codes "in")
    || str_eq u (codes "ch")
    || str_eq u (codes "hs")
    || str_eq u (codes "any")

-- The lines that `std::getline` reads: what follows the last newline counts if it is not empty.
lines_from : Bytes → Bytes → List Bytes
lines_from cur [] = emit cur []
lines_from cur (c ∷ text) =
    let rest = lines_from (if c == b'\n' then [] else cur ++ c ∷ []) text in
    if c == b'\n' then cur ∷ rest else rest

unfoldable pub lines : Bytes → List Bytes
unfolding lines_from
lines text = lines_from [] text
