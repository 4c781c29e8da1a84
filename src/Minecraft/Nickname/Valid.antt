-- ===== src/Minecraft/Nickname/Valid.antt =====
-- The names that the logs give: each is a player's name, and the latest line that names one counts.
use mathlib.Core.List.{reverse}
use mathlib.Core.Path.{subst}
use p2p_core.Base.{
  ℕ, All, Bool-cases, [], arith, false, inl, inr, length, refl, some, true, ◌∷◌, ◌≡◌, ◌≤◌, ◌⊎◌,
  List, Option, Option-cases, ltb, none, ◌||◌, ◌∙◌,
}
use p2p_core.Text.Chars.{Chars, text_bytes, lines, split_text, take_while, trim_chars}
use p2p_core.Minecraft.Nickname.{
  parse_logs_nick, is_name_char, is_alphanumeric, all_chars, checked_name,
  sanitize_minecraft_nickname, find_map, marked_name, markers, line_name,
}

-- A letter or digit of ASCII, or an underscore.
abbrev pub IsNameChar : ℕ → Type 0
IsNameChar c = (48 ≤ c × c ≤ 57) ⊎ ((65 ≤ c × c ≤ 90) ⊎ ((97 ≤ c × c ≤ 122) ⊎ (c ≡ 95)))

abbrev pub IsNickname : Chars → Type 0
IsNickname n = (3 ≤ length n) × (length n ≤ 16) × All IsNameChar n

pub is_name_char-IsNameChar : (c : ℕ) → is_name_char c ≡ true → IsNameChar c
unfolding is_name_char is_alphanumeric
is_name_char-IsNameChar c h = ground arith

pub IsNameChar-is_name_char : (c : ℕ) → IsNameChar c → is_name_char c ≡ true
unfolding is_name_char is_alphanumeric
IsNameChar-is_name_char c h = ground arith

all_chars-All : (n : Chars) → all_chars is_name_char n ≡ true → All IsNameChar n
unfolding all_chars
all_chars-All [] h = tt
all_chars-All (c ∷ cs) h = elim (Bool-cases (is_name_char c)) [
  | inl e ↦ (is_name_char-IsNameChar c e, all_chars-All cs (rw e at h))
  | inr e ↦ let no_way : false ≡ true = rw e at h in cc
]

pub All-all_chars : (n : Chars) → All IsNameChar n → all_chars is_name_char n ≡ true
unfolding all_chars
All-all_chars [] h = refl
All-all_chars (c ∷ cs) h = rw (IsNameChar-is_name_char c h.0, All-all_chars cs h.1) refl

-- Such a name is ASCII: it has as many bytes as characters.
pub text_bytes-length : (n : Chars) → All IsNameChar n → text_bytes n ≡ length n
text_bytes-length [] h = refl
text_bytes-length (c ∷ cs) h = ground (arith, text_bytes-length cs h.1)

checked_name-IsNickname : (n : Chars) {r : Chars} → checked_name n ≡ some r → IsNickname r
unfolding checked_name
checked_name-IsNickname n {r} h =
    elim (Bool-cases (ltb (text_bytes n) 3 || ltb 16 (text_bytes n))) [
      | inl bad ↦ let no_way : ◌≡◌ {A = Option Chars} none (some r) = rw bad at h in cc
      | inr fits ↦ elim (Bool-cases (all_chars is_name_char n)) [
        | inl good ↦
            let same : n ≡ r =
              (let kept : ◌≡◌ {A = Option Chars} (some n) (some r) = rw (fits, good) at h in cc) in
            let chars = all_chars-All n good in
            let size = text_bytes-length n chars in
            subst IsNickname same (ground arith, ground arith, chars)
        | inr bad ↦ let no_way : ◌≡◌ {A = Option Chars} none (some r) = rw (fits, bad) at h in cc
      ]
    ]

sanitize-IsNickname :
    (value : Chars) {r : Chars} → sanitize_minecraft_nickname value ≡ some r → IsNickname r
unfolding sanitize_minecraft_nickname
sanitize-IsNickname value h = checked_name-IsNickname (trim_chars value) h

-- Whatever is found along a list has what each of its finds has.
find_map-All :
    {A : Type 0} (P : Chars → Type 0) (f : A → Option Chars) (xs : List A)
    → ((x : A) (r : Chars) → f x ≡ some r → P r)
    → (r : Chars) → find_map f xs ≡ some r
    → P r
find_map-All P f [] each r h = cc
find_map-All P f (x ∷ xs) each r h = elim (Option-cases (f x)) [
  | inl e ↦ find_map-All P f xs each r (rw e at h)
  | inr (a, e) ↦ each x r (e ∙ (rw e at h))
]

marked_name-IsNickname :
    (found : Option (Chars × Chars)) (r : Chars) → marked_name found ≡ some r → IsNickname r
marked_name-IsNickname none r h = cc
marked_name-IsNickname (some (front, part)) r h =
    sanitize-IsNickname (take_while is_name_char part) h

line_name-IsNickname : (line r : Chars) → line_name line ≡ some r → IsNickname r
unfolding line_name
line_name-IsNickname line r h =
    find_map-All IsNickname (λ marker. marked_name (split_text marker line)) markers
      (λ marker s. marked_name-IsNickname (split_text marker line) s) r h

-- Every name that a log gives is a player's name.
pub parse_logs_nick-IsNickname :
    (contents r : Chars) → parse_logs_nick contents ≡ some r → IsNickname r
unfolding parse_logs_nick
parse_logs_nick-IsNickname contents r h =
    find_map-All IsNickname line_name (reverse (lines contents)) line_name-IsNickname r h
