-- ===== src/Text.antt =====
-- The string helpers of src/simple-dnsd/utils/platform.cpp, over byte strings, and the classes of
-- characters that they ask of <cctype> in the "C" locale.
pub mod Find
pub mod Number
pub mod Lower
pub mod Pieces
use simple_dnsd.Base.{
  ℕ, ◌+◌, ◌-◌, Bool, true, false, ◌&&◌, ◌||◌, List, [], ◌∷◌, ◌++◌, map, leb, ◌==◌, if◌then◌else◌,
  Bytes, codes, is_empty, str_eq,
}

-- `std::isspace`: blank, \t \n \v \f \r.
unfoldable pub is_space : ℕ → Bool
is_space c = c == 32 || (leb 9 c && leb c 13)

-- `std::isdigit`
unfoldable pub is_digit : ℕ → Bool
is_digit c = leb b'0' c && leb c b'9'

-- `std::tolower`
unfoldable pub lower_byte : ℕ → ℕ
lower_byte c = if leb b'A' c && leb c b'Z' then c + 32 else c

unfoldable pub to_lower : Bytes → Bytes
to_lower = map lower_byte

trim_front : Bytes → Bytes
trim_front [] = []
trim_front (c ∷ s) = if is_space c then trim_front s else c ∷ s

trim_back : Bytes → Bytes
trim_back [] = []
trim_back (c ∷ s) = let rest = trim_back s in if is_space c && is_empty rest then [] else c ∷ rest

unfoldable pub trim : Bytes → Bytes
unfolding trim_front trim_back is_space
trim value = trim_back (trim_front value)

split_from : ℕ → Bytes → Bytes → List Bytes
split_from delim cur [] = trim cur ∷ []
split_from delim cur (ch ∷ value) =
    let rest = split_from delim (if ch == delim then [] else cur ++ ch ∷ []) value in
    if ch == delim then trim cur ∷ rest else rest

unfoldable pub split : Bytes → ℕ → List Bytes
unfolding split_from trim
split value delim = split_from delim [] value

-- A token that `in >> tok` has read in full.
abbrev pub emit : Bytes → List Bytes → List Bytes
emit [] toks = toks
emit (c ∷ cur) toks = (c ∷ cur) ∷ toks

split_ws_from : Bytes → Bytes → List Bytes
split_ws_from cur [] = emit cur []
split_ws_from cur (ch ∷ value) =
    let rest = split_ws_from (if is_space ch then [] else cur ++ ch ∷ []) value in
    if is_space ch then emit cur rest else rest

unfoldable pub split_ws : Bytes → List Bytes
unfolding split_ws_from is_space
split_ws value = split_ws_from [] value

unfoldable pub parse_bool : Bytes → Bool
unfolding to_lower lower_byte
parse_bool value =
    let lower = to_lower value in
    str_eq lower (codes "1")
    || str_eq lower (codes "true")
    || str_eq lower (codes "yes")
    || str_eq lower (codes "on")

abbrev pub join_rest : List Bytes → Bytes → Bytes
join_rest [] sep = []
join_rest (p ∷ parts) sep = sep ++ (p ++ join_rest parts sep)

unfoldable pub join : List Bytes → Bytes → Bytes
join [] sep = []
join (p ∷ parts) sep = p ++ join_rest parts sep
