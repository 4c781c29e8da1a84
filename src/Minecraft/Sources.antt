-- ===== src/Minecraft/Sources.antt =====
-- src/minecraft.rs: the files in which a player's name is looked for, the freshest first, and the name
-- of the latest Bedrock world. A path is its components; the variables of the environment and the
-- files are arguments.
pub mod Kept
pub mod Freshest
use p2p_core.Base.{
  ℕ, Bool, List, Option, String, [], false, if◌then◌else◌, keep_if, leb, ltb, map, none, some, true,
  ◌&&◌, ◌++◌, ◌∷◌,
}
use p2p_core.Text.Chars.{Chars, trim_chars}
use p2p_core.Text.Utf8.{codes}
use p2p_core.Minecraft.Nickname.{and_then}
use p2p_core.Minecraft.Ports.{same_text}

abbrev pub FilePath : Type 0
FilePath = List Chars

-- `base.join(..).join(..)`
abbrev pub below : FilePath → List String → FilePath
below base parts = base ++ map codes parts

abbrev pub paths_of : (FilePath → List FilePath) → Option FilePath → List FilePath
paths_of f none = []
paths_of f (some base) = f base

abbrev app_data_paths : FilePath → List FilePath
app_data_paths base =
    below base (".minecraft" ∷ "launcher_accounts.json" ∷ [])
    ∷ below base (".minecraft" ∷ "launcher_profiles.json" ∷ [])
    ∷ below base (".minecraft" ∷ "logs" ∷ "latest.log" ∷ [])
    ∷ below base (".tlauncher" ∷ "legacy" ∷ "Minecraft" ∷ "logs" ∷ "latest.log" ∷ [])
    ∷ below base (".tlauncher" ∷ "legacy" ∷ "Minecraft" ∷ "game" ∷ "logs" ∷ "latest.log" ∷ [])
    ∷ []

abbrev local_paths : FilePath → List FilePath
local_paths base =
    below base (".minecraft" ∷ "launcher_accounts.json" ∷ [])
    ∷ below base (".minecraft" ∷ "launcher_profiles.json" ∷ [])
    ∷ below base (".minecraft" ∷ "logs" ∷ "latest.log" ∷ [])
    ∷ below base (
        "Packages" ∷ "Microsoft.4297127D64EC6_8wekyb3d8bbwe" ∷ "LocalCache" ∷ "Roaming"
        ∷ ".minecraft" ∷ "logs" ∷ "latest.log" ∷ [])
    ∷ []

abbrev profile_paths : FilePath → List FilePath
profile_paths base =
    below base ("AppData" ∷ "Roaming" ∷ ".minecraft" ∷ "logs" ∷ "latest.log" ∷ []) ∷ []

-- By the values of `APPDATA`, `LOCALAPPDATA` and `USERPROFILE`.
unfoldable pub candidate_paths : Option FilePath → Option FilePath → Option FilePath → List FilePath
candidate_paths app_data local_app_data user_profile =
    paths_of app_data_paths app_data
    ++ (paths_of local_paths local_app_data ++ paths_of profile_paths user_profile)

-- `path == other`
unfoldable pub same_path : FilePath → FilePath → Bool
same_path [] [] = true
same_path [] (q ∷ qs) = false
same_path (p ∷ ps) [] = false
same_path (p ∷ ps) (q ∷ qs) = same_text p q && same_path ps qs

-- `files.dedup()`: of equal neighbours the first stays.
pub drop_same : FilePath → List FilePath → List FilePath
unfolding same_path
drop_same p [] = []
drop_same p (q ∷ qs) = if same_path p q then qs else q ∷ qs

unfoldable pub dedup : List FilePath → List FilePath
unfolding drop_same
dedup [] = []
dedup (p ∷ ps) = p ∷ drop_same p (dedup ps)

-- `modified` is `none` for what is no file, and 0 where the time of the last change is not known.
module _ (modified : FilePath → Option ℕ) where
  abbrev pub time_of : FilePath → ℕ
  time_of p = elim (modified p) [ none ↦ 0 | some t ↦ t ]

  abbrev pub is_file : FilePath → Bool
  is_file p = elim (modified p) [ none ↦ false | some t ↦ true ]

  -- The stable sort, the latest change first.
  unfoldable pub insert_fresh : FilePath → List FilePath → List FilePath
  insert_fresh p [] = p ∷ []
  insert_fresh p (q ∷ qs) =
      let later = insert_fresh p qs in if leb (time_of q) (time_of p) then p ∷ q ∷ qs else q ∷ later

  unfoldable pub sort_fresh : List FilePath → List FilePath
  unfolding insert_fresh
  sort_fresh [] = []
  sort_fresh (p ∷ ps) = insert_fresh p (sort_fresh ps)

  unfoldable pub collect_nickname_sources :
      Option FilePath → Option FilePath → Option FilePath → List FilePath
  unfolding sort_fresh dedup candidate_paths
  collect_nickname_sources app_data local_app_data user_profile =
      dedup (sort_fresh (keep_if is_file (candidate_paths app_data local_app_data user_profile)))

-- The directory of the worlds: each of its directories with the time of its last change.
latest_loop : Option (FilePath × ℕ) → List (FilePath × ℕ) → Option (FilePath × ℕ)
latest_loop latest [] = latest
latest_loop none ((p, t) ∷ ds) = latest_loop (some (p, t)) ds
latest_loop (some (q, u)) ((p, t) ∷ ds) =
    latest_loop (if ltb u t then some (p, t) else some (q, u)) ds

unfoldable pub world_name : Chars → Option Chars
world_name [] = none
world_name (c ∷ cs) = some (c ∷ cs)

-- `get_latest_bedrock_world_name` where the directory exists, by the text of `levelname.txt`.
unfoldable pub get_latest_bedrock_world_name :
    List (FilePath × ℕ) → (FilePath → Option Chars) → Option Chars
unfolding latest_loop world_name
get_latest_bedrock_world_name dirs level_name =
    and_then (latest_loop none dirs)
      (λ latest. and_then (level_name latest.0) (λ contents. world_name (trim_chars contents)))
