-- ===== src/Text/Pieces.antt =====
-- Trimming, splitting and joining.
use simple_dnsd.Base.{true, not, [], ◌∷◌, ◌≡◌, refl, arith, Bytes, codes, all_of}
use simple_dnsd.Text.{is_space, trim_front, trim_back, trim, split_ws}

-- The bytes of a text that hold no white space are not trimmed.
trim_front_no_space : (s : Bytes) → all_of (λ c. not (is_space c)) s ≡ true → trim_front s ≡ s
unfolding trim_front
trim_front_no_space [] h = refl
trim_front_no_space (c ∷ s) h = ground arith

trim_back_no_space : (s : Bytes) → all_of (λ c. not (is_space c)) s ≡ true → trim_back s ≡ s
unfolding trim_back
trim_back_no_space [] h = refl
trim_back_no_space (c ∷ s) h = ground (arith, trim_back_no_space s)

pub trim_no_space : (s : Bytes) → all_of (λ c. not (is_space c)) s ≡ true → trim s ≡ s
unfolding trim
trim_no_space s h = rw (trim_front_no_space s h) (trim_back_no_space s h)

split_ws_sample : split_ws (codes " a bc  d ") ≡ codes "a" ∷ codes "bc" ∷ codes "d" ∷ []
unfolding split_ws
split_ws_sample = refl

trim_sample : trim (codes " \ta b ") ≡ codes "a b"
unfolding trim
trim_sample = refl
