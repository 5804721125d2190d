-- ===== src/Zone/NamedConf.antt =====
-- `parseNamedConf` and `writeNamedConf` of src/simple-dnsd/zone/zone.cpp: the zone statements of a
-- BIND `named.conf`.
pub mod Masters
pub mod Fuel
use simple_dnsd.Base.{
  ℕ, zero, suc, ◌+◌, ◌-◌, Bool, true, false, not, ◌&&◌, ◌||◌, Option, none, some, List, [], ◌∷◌,
  ◌++◌, ◌==◌, if◌then◌else◌, Bytes, codes, drop, is_empty, keep_if, length, str_eq,
}
use simple_dnsd.Chain.{◌>>=◌}
use simple_dnsd.Text.{to_lower, split_ws, trim}
use simple_dnsd.Text.Find.{index_of, find_byte, place_of, find, between}
use simple_dnsd.Name.{parse, to_string}
use simple_dnsd.Backend.{ZoneKind, native, master, slave, ZoneInfo, new_zone}
use simple_dnsd.Zone.Lexer.{quote}

pub record NamedZone : Type 0 where
  pub info : ZoneInfo
  pub file : Bytes

-- `pos + 1`, where the position may be `npos`, which is the greatest number of its type.
abbrev pub behind : Option ℕ → ℕ
behind none = 0
behind (some i) = i + 1

abbrev pub or_else : ℕ → Option ℕ → ℕ
or_else d none = d
or_else d (some i) = i

drop_back_semicolon : Bytes → Bytes
drop_back_semicolon [] = []
drop_back_semicolon (c ∷ s) = if is_empty s && c == b';' then [] else c ∷ drop_back_semicolon s

abbrev kind_of_word : List Bytes → ZoneKind
unfolding to_lower drop_back_semicolon
kind_of_word [] = native
kind_of_word (t ∷ ts) =
    let word = drop_back_semicolon (to_lower t) in
    if str_eq word (codes "slave") || str_eq word (codes "secondary") then slave else master

-- The kind that the body of a statement names; the default of a zone where it names none.
unfoldable pub kind_in : Bytes → ZoneKind
unfolding place_of to_lower split_ws drop_back_semicolon
kind_in body = elim (find (codes "type") 0 (to_lower body)) [
  | none ↦ native
  | some pos ↦ kind_of_word (split_ws (drop (pos + 4) body))
]

-- The text between the first two quotes behind the word `file`.
unfoldable pub file_in : Bytes → Bytes
unfolding place_of to_lower index_of
file_in body = elim (find (codes "file") 0 (to_lower body)) [
  | none ↦ []
  | some pos ↦ elim (find_byte quote pos body) [
    | none ↦ []
    | some first ↦ elim (find_byte quote (first + 1) body) [
      | none ↦ []
      | some last ↦ between (first + 1) last body
    ]
  ]
]

-- What stands in braces behind the word `masters`, without its semicolons.
unfoldable pub master_in : Bytes → Bytes
unfolding place_of to_lower index_of trim
master_in body = elim (find (codes "masters") 0 (to_lower body)) [
  | none ↦ []
  | some pos ↦ elim (find_byte b'{' pos body) [
    | none ↦ []
    | some first ↦ elim (find_byte b'}' first body) [
      | none ↦ []
      | some last ↦ trim (keep_if (λ c. not (c == b';')) (between (first + 1) last body))
    ]
  ]
]

-- The zone that a statement with this name and this body is about.
unfoldable pub named_zone : Bytes → Bytes → NamedZone
unfolding parse kind_in file_in master_in
named_zone name body = record {
  info = record new_zone {
    name = parse name;
    kind = kind_in body;
    file = file_in body;
    master = master_in body;
  };
  file = file_in body;
}

-- One round of the loop: the statement that is found from a place on, and the place behind it.
unfoldable pub next_zone : Bytes → ℕ → Option (NamedZone × ℕ)
unfolding place_of to_lower index_of named_zone
next_zone text pos = do
  z ← find (codes "zone") pos (to_lower text)
  q1 ← find_byte quote z text
  q2 ← find_byte quote (q1 + 1) text
  end ← find_byte b'}' (or_else q2 (find_byte b'{' q2 text)) text
  some (
    named_zone (between (q1 + 1) q2 text) (between (behind (find_byte b'{' q2 text)) end text),
    end + 1,
  )

unfoldable pub named_from : ℕ → Bytes → ℕ → List NamedZone
unfolding next_zone
named_from zero text pos = []
named_from (suc fuel) text pos = elim (next_zone text pos) [
  | none ↦ []
  | some (nz, next) ↦ nz ∷ named_from fuel text next
]

-- The loop on the text of the file. A round moves on by a byte at least.
unfoldable pub parse_named_conf : Bytes → List NamedZone
unfolding named_from
parse_named_conf text = named_from (suc (length text)) text 0

-- `parseNamedConf`: a file that cannot be opened has no zones.
unfoldable pub read_named_conf : Option Bytes → List NamedZone
unfolding parse_named_conf
read_named_conf none = []
read_named_conf (some text) = parse_named_conf text

abbrev kind_word : ZoneKind → Bytes
kind_word slave = codes "slave"
kind_word master = codes "master"
kind_word native = codes "master"

abbrev pub file_name : NamedZone → Bytes
unfolding to_string
file_name nz = if is_empty nz.file then to_string false nz.info.name ++ codes ".zone" else nz.file

unfoldable pub write_statement : NamedZone → Bytes
unfolding to_string
write_statement nz =
    codes "zone \""
    ++ (to_string false nz.info.name
        ++ (codes "\" {\n    type "
            ++ (kind_word nz.info.kind
                ++ (codes ";\n    file \""
                    ++ (file_name nz
                        ++ (codes "\";\n"
                            ++ ((if is_empty nz.info.master
                                  then []
                                  else codes "    masters { " ++ (nz.info.master ++ codes "; };\n"))
                                ++ codes "};\n")))))))

unfoldable pub write_named_conf : List NamedZone → Bytes
unfolding write_statement
write_named_conf [] = []
write_named_conf (nz ∷ zones) = write_statement nz ++ write_named_conf zones
