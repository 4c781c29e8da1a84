-- ===== src/Text/Chars/Trim.antt =====
-- A text without white space is not changed by `trim`.
use p2p_core.Base.{ℕ, All, [], false, refl, ◌∷◌, ◌≡◌, true, ◌++◌}
use p2p_core.Text.{is_whitespace}
use p2p_core.Text.Chars.{Chars, keep_space, drop_space, drop_space_end, trim_chars}

abbrev pub IsUnspaced : Chars → Type 0
IsUnspaced cs = All (λ c. is_whitespace c ≡ false) cs

drop_space-IsUnspaced : (n : Chars) → IsUnspaced n → drop_space n ≡ n
unfolding drop_space
drop_space-IsUnspaced [] h = refl
drop_space-IsUnspaced (c ∷ cs) h = rw h.0 refl

keep_space-false : (c : ℕ) (cs : Chars) → keep_space false c cs ≡ c ∷ cs
unfolding keep_space
keep_space-false c [] = refl
keep_space-false c (d ∷ cs) = refl

drop_space_end-IsUnspaced : (n : Chars) → IsUnspaced n → drop_space_end n ≡ n
unfolding drop_space_end
drop_space_end-IsUnspaced [] h = refl
drop_space_end-IsUnspaced (c ∷ cs) h =
    rw (h.0, drop_space_end-IsUnspaced cs h.1) (keep_space-false c cs)

pub trim_chars-IsUnspaced : (n : Chars) → IsUnspaced n → trim_chars n ≡ n
unfolding trim_chars
trim_chars-IsUnspaced n h = rw (drop_space-IsUnspaced n h) (drop_space_end-IsUnspaced n h)

newline_space : is_whitespace 10 ≡ true
unfolding is_whitespace
newline_space = refl

drop_space_end-newline : (n : Chars) → IsUnspaced n → drop_space_end (n ++ (10 ∷ [])) ≡ n
unfolding drop_space_end
drop_space_end-newline [] h = rw newline_space (unfold keep_space in refl)
drop_space_end-newline (c ∷ cs) h = rw (h.0, drop_space_end-newline cs h.1) (keep_space-false c cs)

-- A line end behind the text is taken off.
pub trim_chars-newline : (n : Chars) → IsUnspaced n → trim_chars (n ++ (10 ∷ [])) ≡ n
unfolding trim_chars
trim_chars-newline [] h = unfold drop_space drop_space_end is_whitespace in refl
trim_chars-newline (c ∷ cs) h = rw h.0 (drop_space_end-newline (c ∷ cs) h)
