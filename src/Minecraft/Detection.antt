-- ===== src/Minecraft/Detection.antt =====
-- src/minecraft.rs: the detection of the player's name, from the running processes and then from the
-- files, and of the client's runtime. The processes, the files and the text of a path are arguments.
pub mod Named
use p2p_core.Base.{
  ℕ, Bool, List, Option, none, ◌==◌, String, [], false, if◌then◌else◌, not, some, true, ◌++◌, ◌||◌,
  ◌∷◌,
}
use p2p_core.Text.{show_nat, ◌⧺◌}
use p2p_core.Text.Chars.{Chars, split_text, take_while}
use p2p_core.Text.Utf8.{codes}
use p2p_core.Lobby.{Value}
use p2p_core.Minecraft.Nickname.{
  and_then, find_map, or_other, parse_nickname_from_file, sanitize_minecraft_nickname,
}
use p2p_core.Minecraft.Runtime.{Runtime, infer_launcher_from_path, infer_runtime_from_file}
use p2p_core.Minecraft.Sources.{FilePath}

pub record MinecraftNicknameDetection : Type 0 where
  pub nickname : Chars
  pub source_path : Chars

-- A process by its number and its command line.
pub record RunningProcess : Type 0 where
  pub pid : ℕ
  pub command_line : Chars

abbrev is_quote : ℕ → Bool
is_quote c = (c == 34) || (c == 39)

drop_quotes : Chars → Chars
drop_quotes [] = []
drop_quotes (c ∷ cs) = let rest = drop_quotes cs in if is_quote c then rest else c ∷ cs

keep_quote : ℕ → Chars → Chars
keep_quote c [] = if is_quote c then [] else c ∷ []
keep_quote c (d ∷ cs) = c ∷ d ∷ cs

drop_quotes_end : Chars → Chars
unfolding keep_quote
drop_quotes_end [] = []
drop_quotes_end (c ∷ cs) = keep_quote c (drop_quotes_end cs)

not_blank : ℕ → Bool
not_blank c = not (c == b' ')

-- The argument behind `--username `, up to the next blank.
user_argument : Option (Chars × Chars) → Option Chars
unfolding take_while not_blank drop_quotes drop_quotes_end sanitize_minecraft_nickname
user_argument none = none
user_argument (some (front, part)) =
    sanitize_minecraft_nickname (drop_quotes_end (drop_quotes (take_while not_blank part)))

process_detection : RunningProcess → Option MinecraftNicknameDetection
unfolding user_argument split_text show_nat
process_detection p =
    and_then (user_argument (split_text (codes "--username ") p.command_line)) (λ nick.
      some (record {
        nickname = nick;
        source_path = codes ("running process (pid " ⧺ show_nat p.pid ⧺ ")");
      }))

-- The processes in the order in which the map gives them.
unfoldable pub detect_nickname_from_running_processes :
    List RunningProcess → Option MinecraftNicknameDetection
unfolding process_detection
detect_nickname_from_running_processes ps = find_map process_detection ps

-- What the system gives of a file: its name, its path as a text, and what `read_text_lossy` reads of
-- it, or `none` where the file is not there.
pub record Files : Type 0 where
  pub file_name : FilePath → Option Chars
  pub display : FilePath → Chars
  pub contents : FilePath → Option Chars

pub record MinecraftClientRuntimeInfo : Type 0 where
  pub nickname : Option Chars
  pub launcher : Option String
  pub minecraft_version : Option Chars
  pub mod_loader : Option Chars
  pub source_path : Option Chars
  pub note : Option Chars

abbrev is_known {ℓ} : {A : Type ℓ} → Option A → Bool
is_known none = false
is_known (some a) = true

abbrev name_or_empty : Option Chars → Chars
name_or_empty none = []
name_or_empty (some name) = name

module _ (from_str : Chars → Option Value) (files : Files) where
  unfoldable pub file_nickname : FilePath → Option Chars
  unfolding parse_nickname_from_file
  file_nickname p = and_then (files.contents p) (λ contents.
      and_then (files.file_name p) (λ name. parse_nickname_from_file from_str name contents))

  abbrev pub file_detection : FilePath → Option MinecraftNicknameDetection
  file_detection p =
      and_then (file_nickname p)
        (λ nick. some (record { nickname = nick; source_path = files.display p }))

  -- `detect_minecraft_nickname_blocking`; `none` is its error.
  unfoldable pub detect_minecraft_nickname :
      List RunningProcess → List FilePath → Option MinecraftNicknameDetection
  unfolding detect_nickname_from_running_processes file_nickname
  detect_minecraft_nickname ps candidates =
      or_other (detect_nickname_from_running_processes ps) (find_map file_detection candidates)

  abbrev runtime_info :
      Option MinecraftNicknameDetection
      → FilePath
      → Option String
      → Runtime
      → Option MinecraftClientRuntimeInfo
  runtime_info nick p launcher r =
      if is_known launcher || is_known r.version || is_known r.mod_loader
      then some (record {
        nickname = and_then nick (λ value. some value.nickname);
        launcher = launcher;
        minecraft_version = r.version;
        mod_loader = r.mod_loader;
        source_path = some (files.display p);
        note = and_then nick (λ value. some (codes "nickname source: " ++ value.source_path));
      })
      else none

  unfoldable pub file_runtime :
      Option MinecraftNicknameDetection → FilePath → Option MinecraftClientRuntimeInfo
  unfolding infer_launcher_from_path infer_runtime_from_file
  file_runtime nick p = and_then (files.contents p) (λ contents.
      runtime_info nick p (infer_launcher_from_path (files.display p))
        (infer_runtime_from_file from_str (name_or_empty (files.file_name p)) contents))

  -- `detect_client_runtime_info_blocking`; `none` is its error.
  unfoldable pub detect_client_runtime_info :
      List RunningProcess → List FilePath → Option MinecraftClientRuntimeInfo
  unfolding detect_minecraft_nickname file_runtime
  detect_client_runtime_info ps candidates =
      let nick = detect_minecraft_nickname ps candidates in find_map (file_runtime nick) candidates
