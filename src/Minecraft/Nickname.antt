-- ===== src/Minecraft/Nickname.antt =====
-- src/minecraft.rs: the player's name from launcher files, logs and command lines. Texts are their
-- characters; the reader of JSON texts and the files of the system are arguments. Lower case is that
-- of ASCII: no other letter's lower case makes the names that the code compares with.
pub mod Valid
pub mod Latest
use mathlib.Core.List.{reverse}
use p2p_core.Base.{
  ℕ, Bool, List, Option, String, [], if◌then◌else◌, leb, ltb, map, none, some, true, ◌&&◌, ◌==◌,
  ◌||◌, ◌∷◌, ◌^◌,
}
use p2p_core.Text.Chars.{Chars, lines, split_text, take_while, text_bytes, trim_chars}
use p2p_core.Text.Utf8.{codes}
use p2p_core.Lobby.{Value, Fields, get, as_str, get_field}
use p2p_core.Minecraft.Ports.{lower, same_text}
use p2p_core.Text.Search.{ends_with}
use p2p_core.Text.Numbers.{parse_uint}

is_alphanumeric : ℕ → Bool
is_alphanumeric c = (leb 48 c && leb c 57) || (leb 65 c && leb c 90) || (leb 97 c && leb c 122)

unfoldable pub is_name_char : ℕ → Bool
unfolding is_alphanumeric
is_name_char c = is_alphanumeric c || (c == b'_')

pub all_chars : (ℕ → Bool) → Chars → Bool
all_chars p [] = true
all_chars p (c ∷ cs) = p c && all_chars p cs

checked_name : Chars → Option Chars
unfolding all_chars
checked_name name =
    if ltb (text_bytes name) 3 || ltb 16 (text_bytes name)
    then none
    else if all_chars is_name_char name
    then some name
    else none

unfoldable pub sanitize_minecraft_nickname : Chars → Option Chars
unfolding checked_name
sanitize_minecraft_nickname value = checked_name (trim_chars value)

-- `option.and_then(f)`
abbrev pub and_then {ℓ κ} : {A : Type ℓ} {B : Type κ} → Option A → (A → Option B) → Option B
and_then none f = none
and_then (some a) f = f a

-- `option.or(other)`, and the first result along a list.
abbrev pub or_other {ℓ} : {A : Type ℓ} → Option A → Option A → Option A
or_other none other = other
or_other (some a) other = some a

abbrev pub find_map {ℓ κ} : {A : Type ℓ} {B : Type κ} → (A → Option B) → List A → Option B
find_map f [] = none
find_map f (x ∷ xs) = or_other (f x) (find_map f xs)

abbrev pub markers : List Chars
markers =
    codes "Setting user: "
    ∷ codes "Session Name is "
    ∷ codes "Username: "
    ∷ codes "Logged in as "
    ∷ []

-- The name that stands behind a marker in a line.
abbrev marked_name : Option (Chars × Chars) → Option Chars
marked_name none = none
marked_name (some (front, part)) = sanitize_minecraft_nickname (take_while is_name_char part)

unfoldable pub line_name : Chars → Option Chars
line_name line = find_map (λ marker. marked_name (split_text marker line)) markers

unfoldable pub parse_logs_nick : Chars → Option Chars
unfolding line_name
parse_logs_nick contents = find_map line_name (reverse (lines contents))

-- `value.as_object()`, and `.values()` of it.
abbrev pub as_object : Option Value → Option Fields
as_object none = none
as_object (some Value.null) = none
as_object (some (Value.boolean b)) = none
as_object (some (Value.number n)) = none
as_object (some (Value.text s)) = none
as_object (some (Value.array vs)) = none
as_object (some (Value.object fs)) = some fs

abbrev pub values_of : Fields → List Value
values_of Fields.empty = []
values_of (Fields.field k v fs) = v ∷ values_of fs

-- The text of `item.as_str().or_else(|| item.as_u64().map(..))`; a number is kept by its text.
abbrev local_id : Option Value → Option String
local_id none = none
local_id (some Value.null) = none
local_id (some (Value.boolean b)) = none
local_id (some (Value.number n)) = and_then (parse_uint (2 ^ 64) (codes n)) (λ _. some n)
local_id (some (Value.text s)) = some s
local_id (some (Value.array vs)) = none
local_id (some (Value.object fs)) = none

-- `account.minecraftProfile.name`
unfoldable pub account_name : Value → Option Chars
account_name account =
    and_then (as_str (and_then (get "minecraftProfile" account) (get "name")))
      (λ name. sanitize_minecraft_nickname (codes name))

active_name : Option String → Fields → Option Chars
unfolding account_name
active_name none accounts = none
active_name (some id) accounts = and_then (get_field id accounts) account_name

account_names : Option String → Option Fields → Option Chars
unfolding active_name
account_names active none = none
account_names active (some accounts) =
    or_other (active_name active accounts) (find_map account_name (values_of accounts))

-- `display_name.trim()`, unless nothing is left of it.
display_name : Chars → Option Chars
display_name [] = none
display_name (c ∷ cs) = some (c ∷ cs)

unfoldable pub profile_name : String → Value → Option Chars
unfolding display_name
profile_name selected account =
    and_then
      (as_str (and_then (and_then (get "profiles" account) (get selected)) (get "displayName")))
      (λ name. display_name (trim_chars (codes name)))

-- The name of the first profile that has one; only that one counts.
fallback_name : Value → Option Chars
fallback_name value = and_then (as_object (get "profiles" value)) (λ profiles.
    and_then (as_str (find_map (get "name") (values_of profiles)))
      (λ name. sanitize_minecraft_nickname (codes name)))

module _ (from_str : Chars → Option Value) where
  unfoldable pub parse_launcher_accounts_nick : Chars → Option Chars
  unfolding account_names
  parse_launcher_accounts_nick contents = and_then (from_str contents) (λ value.
      account_names (local_id (get "activeAccountLocalId" value))
        (as_object (get "accounts" value)))

  unfoldable pub parse_launcher_profiles_nick : Chars → Option Chars
  unfolding profile_name fallback_name
  parse_launcher_profiles_nick contents = and_then (from_str contents) (λ value.
      and_then (as_str (and_then (get "selectedUser" value) (get "profile"))) (λ selected.
        and_then (as_object (get "authenticationDatabase" value)) (λ auth_db.
          or_other (find_map (profile_name selected) (values_of auth_db)) (fallback_name value))))

  -- By the file's name in lower case.
  unfoldable pub parse_nickname_from_file : Chars → Chars → Option Chars
  unfolding parse_launcher_accounts_nick parse_launcher_profiles_nick parse_logs_nick
  parse_nickname_from_file file_name contents =
      let name = map lower file_name in
      if same_text name (codes "launcher_accounts.json")
      then parse_launcher_accounts_nick contents
      else if same_text name (codes "launcher_profiles.json")
      then parse_launcher_profiles_nick contents
      else if ends_with (codes ".log") name || ends_with (codes ".txt") name
      then parse_logs_nick contents
      else none
