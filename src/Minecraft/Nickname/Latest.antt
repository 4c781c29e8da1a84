-- ===== src/Minecraft/Nickname/Latest.antt =====
-- The name in a log is that of the last line which names a user.
use p2p_core.Base.{ℕ, All, All-map, List, [], arith, false, ltb, refl, some, ◌||◌, ◌∷◌, ◌≡◌}
use p2p_core.Text.{is_whitespace}
use p2p_core.Text.Chars.{Chars, text_bytes}
use p2p_core.Text.Chars.Trim.{trim_chars-IsUnspaced}
use p2p_core.Text.Search.{contains}
use p2p_core.Text.Utf8.{codes}
use p2p_core.Minecraft.Nickname.{checked_name, sanitize_minecraft_nickname, markers}
use p2p_core.Minecraft.Nickname.Valid.{IsNickname, IsNameChar, All-all_chars, text_bytes-length}

-- None of the markers stands in the line.
abbrev pub IsUnmarked : Chars → Type 0
IsUnmarked l = All (λ marker. contains marker l ≡ false) markers

-- What stands behind a name does not go on with it.
abbrev pub EndsName : Chars → Type 0
EndsName [] = Unit
EndsName (c ∷ cs) = ¬ IsNameChar c

space-IsNameChar : (c : ℕ) → IsNameChar c → is_whitespace c ≡ false
unfolding is_whitespace
space-IsNameChar c h = ground arith

-- A player's name is kept as it is.
pub sanitize-name : (n : Chars) → IsNickname n → sanitize_minecraft_nickname n ≡ some n
unfolding sanitize_minecraft_nickname
sanitize-name n h =
    let trimmed =
      trim_chars-IsUnspaced n
        (All-map IsNameChar (λ c. is_whitespace c ≡ false) space-IsNameChar n h.2) in
    let size = text_bytes-length n h.2 in
    let fits : (ltb (text_bytes n) 3 || ltb 16 (text_bytes n)) ≡ false = ground (arith, h.0, h.1) in
    rw trimmed (unfold checked_name in rw (fits, All-all_chars n h.2) refl)

abbrev setting_user : Chars
setting_user = codes "Setting user: "
