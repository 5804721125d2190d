-- ===== src/Name/Presentation.antt =====
-- The text of a name: what `toString` prints, `parse` reads back, if no label needs an escape.
use mathlib.Core.List.{append-nil, append_assoc}
use simple_dnsd.Base.{
  ℕ, ◌≡◌, refl, ap, ◌∙◌, Bool, true, false, ◌&&◌, ◌||◌, not, List, [], ◌∷◌, ◌++◌, Bytes, arith,
  ◌==◌, is_empty, str_eq, all_of,
}
use simple_dnsd.Text.{is_space, emit, join_rest}
use simple_dnsd.Text.Pieces.{trim_no_space}
use simple_dnsd.Name.{DnsName, root, dot, parse_from, drop_back_dot, parse, to_string}

-- A byte that `parse` takes as it stands: no dot, no backslash, no white space.
abbrev pub plain_byte : ℕ → Bool
plain_byte c = not (c == b'.') && not (c == b'\\') && not (is_space c)

abbrev pub plain_label : Bytes → Bool
plain_label l = not (is_empty l) && all_of plain_byte l

-- A name whose text needs no escape.
abbrev pub IsPlain : DnsName → Type 0
IsPlain n = all_of plain_label n.labels ≡ true

-- Reading one plain label in front of the end of the text or of a dot.
parse_from-label_end :
    (l cur : Bytes) → all_of plain_byte l ≡ true → parse_from cur l ≡ emit (cur ++ l) []
unfolding parse_from
parse_from-label_end [] cur h = rw append-nil
parse_from-label_end (c ∷ []) cur h = ground arith
parse_from-label_end (c ∷ d ∷ l) cur h =
    ground (arith, parse_from-label_end (d ∷ l) (cur ++ c ∷ []), append_assoc cur (c ∷ []) (d ∷ l))

parse_from-label_dot :
    (l cur : Bytes) (d : ℕ) (rest : Bytes)
    → all_of plain_byte l ≡ true
    → parse_from cur (l ++ (b'.' ∷ d ∷ rest)) ≡ emit (cur ++ l) (parse_from [] (d ∷ rest))
unfolding parse_from
parse_from-label_dot [] cur d rest h = rw append-nil
parse_from-label_dot (c ∷ []) cur d rest h = ground arith
parse_from-label_dot (c ∷ e ∷ l) cur d rest h =
    ground (
      arith,
      parse_from-label_dot (e ∷ l) (cur ++ c ∷ []) d rest,
      append_assoc cur (c ∷ []) (e ∷ l),
    )

plain_label_cases : (l : Bytes) → plain_label l ≡ true → (d : ℕ) × (m : Bytes) × (l ≡ d ∷ m)
plain_label_cases [] h = cc
plain_label_cases (d ∷ m) h = (d, m, refl)

abbrev all_plain : List Bytes → Bool
all_plain = all_of plain_label

parse_from-join :
    (l : Bytes) (ls : List Bytes)
    → plain_label l ≡ true
    → all_plain ls ≡ true
    → parse_from [] (l ++ join_rest ls dot) ≡ l ∷ ls
parse_from-join [] ls h g = cc
parse_from-join (c ∷ l) [] h g = rw append-nil (parse_from-label_end (c ∷ l) [] (ground arith))
parse_from-join (c ∷ l) (m ∷ ms) h g =
    let (d, m', e) = plain_label_cases m (ground arith) in
    rw e (
      parse_from-label_dot (c ∷ l) [] d (m' ++ join_rest ms dot) (ground arith)
      ∙ ap (λ (t : List Bytes). (c ∷ l) ∷ t)
          (rw e at (parse_from-join m ms (ground arith) (ground arith))))

drop_back_dot-dot : (s : Bytes) → drop_back_dot (s ++ dot) ≡ s
unfolding drop_back_dot
drop_back_dot-dot [] = refl
drop_back_dot-dot (c ∷ []) = refl
drop_back_dot-dot (c ∷ d ∷ s) = ap (λ (t : Bytes). c ∷ t) (drop_back_dot-dot (d ∷ s))

drop_back_dot-append :
    (s t : Bytes) (c : ℕ) → drop_back_dot (s ++ (c ∷ t)) ≡ s ++ drop_back_dot (c ∷ t)
unfolding drop_back_dot
drop_back_dot-append [] t c = refl
drop_back_dot-append (d ∷ []) t c = refl
drop_back_dot-append (d ∷ e ∷ s) t c = ap (λ (u : Bytes). d ∷ u) (drop_back_dot-append (e ∷ s) t c)

drop_back_dot_plain : (s : Bytes) → all_of plain_byte s ≡ true → drop_back_dot s ≡ s
unfolding drop_back_dot
drop_back_dot_plain [] h = refl
drop_back_dot_plain (c ∷ s) h = ground (arith, drop_back_dot_plain s)

drop_back_dot-cons :
    (c : ℕ) (l u : Bytes)
    → plain_label l ≡ true
    → drop_back_dot (c ∷ (l ++ u)) ≡ c ∷ drop_back_dot (l ++ u)
unfolding drop_back_dot
drop_back_dot-cons c [] u h = cc
drop_back_dot-cons c (d ∷ l) u h = refl

drop_back_dot-join :
    (l : Bytes) (ls : List Bytes)
    → plain_label l ≡ true
    → all_plain ls ≡ true
    → drop_back_dot (l ++ join_rest ls dot) ≡ l ++ join_rest ls dot
drop_back_dot-join l [] h g = rw append-nil (drop_back_dot_plain l (ground arith))
drop_back_dot-join l (m ∷ ms) h g =
    drop_back_dot-append l (m ++ join_rest ms dot) b'.'
    ∙ ap (λ (u : Bytes). l ++ u)
        (drop_back_dot-cons b'.' m (join_rest ms dot) (ground arith)
          ∙ ap (λ (u : Bytes). b'.' ∷ u) (drop_back_dot-join m ms (ground arith) (ground arith)))

no_space : Bytes → Bool
no_space = all_of (λ c. not (is_space c))

no_space-append : (s t : Bytes) → no_space s ≡ true → no_space t ≡ true → no_space (s ++ t) ≡ true
unfolding no_space
no_space-append [] t h g = g
no_space-append (c ∷ s) t h g = ground (arith, no_space-append s t)

no_space_plain : (s : Bytes) → all_of plain_byte s ≡ true → no_space s ≡ true
unfolding no_space
no_space_plain [] h = refl
no_space_plain (c ∷ s) h = ground (arith, no_space_plain s)

no_space-dot : no_space dot ≡ true
unfolding no_space is_space
no_space-dot = refl

no_space-join :
    (l : Bytes) (ls : List Bytes)
    → plain_label l ≡ true
    → all_plain ls ≡ true
    → no_space (l ++ join_rest ls dot) ≡ true
no_space-join l [] h g = rw append-nil (no_space_plain l (ground arith))
no_space-join l (m ∷ ms) h g =
    no_space-append l (dot ++ (m ++ join_rest ms dot)) (no_space_plain l (ground arith)) (
      no_space-append dot (m ++ join_rest ms dot) no_space-dot
        (no_space-join m ms (ground arith) (ground arith)))

-- The text of a plain name is not the root's.
not_root_text :
    (l u : Bytes) → plain_label l ≡ true → (is_empty (l ++ u) || str_eq (l ++ u) dot) ≡ false
not_root_text [] u h = cc
not_root_text (c ∷ l) u h = ground arith

parse-text :
    (l : Bytes) (ls : List Bytes) (u : Bytes)
    → plain_label l ≡ true
    → all_plain ls ≡ true
    → no_space ((l ++ join_rest ls dot) ++ u) ≡ true
    → drop_back_dot ((l ++ join_rest ls dot) ++ u) ≡ l ++ join_rest ls dot
    → parse ((l ++ join_rest ls dot) ++ u) ≡ record { labels = l ∷ ls }
unfolding parse no_space
parse-text l ls u h g ns e = rw (trim_no_space ((l ++ join_rest ls dot) ++ u) ns) (
    rw (append_assoc l (join_rest ls dot) u) (
      rw (not_root_text l (join_rest ls dot ++ u) h)
        (rw (← append_assoc l (join_rest ls dot) u) (rw (e, parse_from-join l ls h g)))))

parse-root : (trailing : Bool) → parse (to_string trailing root) ≡ root
unfolding parse to_string
parse-root true = refl
parse-root false = refl

parse-to_string_labels :
    (ls : List Bytes) (trailing : Bool)
    → all_plain ls ≡ true
    → parse (to_string trailing (record { labels = ls })) ≡ record { labels = ls }
unfolding to_string
parse-to_string_labels [] trailing h = parse-root trailing
parse-to_string_labels (l ∷ ls) true h =
    let text = l ++ join_rest ls dot in
    parse-text l ls dot (ground arith) (ground arith)
      (no_space-append text dot (no_space-join l ls (ground arith) (ground arith)) no_space-dot)
      (drop_back_dot-dot text)
parse-to_string_labels (l ∷ ls) false h =
    let text = l ++ join_rest ls dot in
    rw append-nil at (
      parse-text l ls [] (ground arith) (ground arith)
        (rw append-nil (no_space-join l ls (ground arith) (ground arith)))
        (rw append-nil (drop_back_dot-join l ls (ground arith) (ground arith))))

-- The text that `toString` prints of a name, with or without the final dot, parses back to that
-- name, if no label is empty and none holds a dot, a backslash or white space.
pub parse-to_string : (n : DnsName) (trailing : Bool) → IsPlain n → parse (to_string trailing n) ≡ n
parse-to_string n trailing h = parse-to_string_labels n.labels trailing h
