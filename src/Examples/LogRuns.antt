-- ===== src/Examples/LogRuns.antt =====
-- The texts of launcher files and logs, and the tasks of a host, at concrete inputs.
use mathlib.Core.List.{reverse}
use p2p_core.Base.{
  ℕ, All, Option, [], arith, false, if◌then◌else◌, inl, inr, map, none, refl, some, true, ◌<◌, ◌∷◌,
  ◌≡◌,
}
use p2p_core.Base.Words.{Bytes}
use p2p_core.Text.Chars.{Chars, lines, split_text, take_while, trim_chars, first_word}
use p2p_core.Text.Chars.Lines.{unlines}
use p2p_core.Text.Utf8.{codes}
use p2p_core.Lobby.{Value}
use p2p_core.Minecraft.Nickname.{
  parse_logs_nick, find_map, is_name_char, sanitize_minecraft_nickname,
}
use p2p_core.Minecraft.Runtime.{parse_log_runtime, named_loader}
use p2p_core.Minecraft.Runtime.Found.{parse_log_runtime-latest, line_runtime, runtime_of}
use p2p_core.Minecraft.TextFile.{read_text_lossy}
use p2p_core.Minecraft.TextFile.Read.{utf16_le, encoded, read_text_lossy-encoded}
use p2p_core.Minecraft.Sources.{
  FilePath, collect_nickname_sources, candidate_paths, same_path, below, is_file, time_of,
}
use p2p_core.Minecraft.Detection.{
  Files, MinecraftNicknameDetection, detect_minecraft_nickname,
  detect_nickname_from_running_processes, file_nickname,
}
use p2p_core.Minecraft.Sources.Kept.{Among}
use p2p_core.Minecraft.Detection.Named.{detect_minecraft_nickname-freshest}
use p2p_core.Text.Search.{ends_with}
use p2p_core.Text.{is_whitespace}

abbrev steve_front : Chars
steve_front = codes "[24Sep2023] [main/INFO]: "

abbrev steve : Chars
steve = codes "Steve"

abbrev some_log : Chars
some_log =
    unlines
      (codes "Starting" ∷ codes "[24Sep2023] [main/INFO]: Setting user: Steve." ∷ codes "Done" ∷ [])

steve_logged : parse_logs_nick some_log ≡ some steve
unfolding parse_logs_nick lines split_text take_while trim_chars sanitize_minecraft_nickname
    is_name_char is_whitespace
steve_logged = refl

abbrev fabric_log : Chars
fabric_log = unlines (
    codes "Loading Minecraft 1.20.1 with Fabric Loader 0.15.7"
    ∷ codes "Launched Version: 1.19"
    ∷ [])

-- The later line counts, and the loader is that of no line by itself.
fabric_read :
    parse_log_runtime fabric_log ≡ record { version = some (codes "1.19"); mod_loader = none }
unfolding parse_log_runtime lines split_text trim_chars first_word is_whitespace
fabric_read = refl

parse_log_runtime-latest_example :
    let ls = map trim_chars (reverse (lines fabric_log)) in
    parse_log_runtime fabric_log ≡ runtime_of (find_map line_runtime ls) (find_map named_loader ls)
parse_log_runtime-latest_example = parse_log_runtime-latest fabric_log

abbrev no_decoder : Bytes → Chars
no_decoder bs = []

abbrev smile : Chars
smile = 0x41 ∷ 0x1f600 ∷ []

read_text_lossy-encoded_example :
    read_text_lossy no_decoder false (some (encoded utf16_le smile)) ≡ some smile
read_text_lossy-encoded_example =
    read_text_lossy-encoded no_decoder utf16_le false smile
      (inl (omega arith), (inr (omega arith), tt)) tt (inr (omega arith))

abbrev roaming : FilePath
roaming = codes "C:" ∷ codes "Roaming" ∷ []

abbrev latest_log : FilePath
latest_log = below roaming (".minecraft" ∷ "logs" ∷ "latest.log" ∷ [])

abbrev old_log : FilePath
old_log = below roaming (".tlauncher" ∷ "legacy" ∷ "Minecraft" ∷ "logs" ∷ "latest.log" ∷ [])

abbrev changed : FilePath → Option ℕ
changed p = if same_path p latest_log then some 7 else if same_path p old_log then some 9 else none

abbrev log_files : Files
log_files = record {
  file_name = λ p. some (codes "latest.log");
  display = λ p. codes "latest.log";
  contents = λ p. if same_path p latest_log then some some_log else some [];
}

abbrev no_json : Chars → Option Value
no_json s = none

abbrev steve_detected : MinecraftNicknameDetection
steve_detected = record { nickname = steve; source_path = codes "latest.log" }

nobody_running : detect_nickname_from_running_processes [] ≡ none
unfolding detect_nickname_from_running_processes
nobody_running = refl

detected :
    detect_minecraft_nickname no_json log_files []
      (collect_nickname_sources changed (some roaming) none none)
    ≡ some steve_detected
unfolding detect_minecraft_nickname collect_nickname_sources lines split_text take_while trim_chars
    sanitize_minecraft_nickname is_name_char is_whitespace same_path ends_with
detected = refl

detect_minecraft_nickname-freshest_example :
    (p : FilePath) × (Among p (candidate_paths (some roaming) none none)
      × (is_file changed p ≡ true))
    × ((file_nickname no_json log_files p ≡ some steve)
        × (log_files.display p ≡ codes "latest.log"))
    × All
        (λ q.
          is_file changed q ≡ true
          → time_of changed p < time_of changed q
          → file_nickname no_json log_files q ≡ none)
        (candidate_paths (some roaming) none none)
detect_minecraft_nickname-freshest_example =
    detect_minecraft_nickname-freshest no_json log_files changed [] (some roaming) none none
      steve_detected nobody_running detected
