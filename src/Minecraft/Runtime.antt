-- ===== src/Minecraft/Runtime.antt =====
-- src/minecraft.rs: the version and the mod loader from logs and launcher files, and the launcher from
-- a path. Texts are their characters.
pub mod Found
use mathlib.Core.List.{reverse}
use p2p_core.Base.{
  Bool, List, Option, String, [], false, if◌then◌else◌, map, none, some, true, ◌++◌, ◌||◌, ◌∷◌,
}
use p2p_core.Text.Chars.{Chars, first_word, lines, split_text, trim_chars}
use p2p_core.Text.Search.{contains, ends_with}
use p2p_core.Text.Utf8.{codes}
use p2p_core.Lobby.{Value, get, as_str}
use p2p_core.Minecraft.Nickname.{and_then, find_map, or_other, as_object, values_of}
use p2p_core.Minecraft.Ports.{lower, same_text}

-- `name version`, with the version trimmed.
abbrev loader_label : String → Chars → Chars
loader_label name version = codes name ++ trim_chars version

-- The version before a part of the text, and the loader's version behind it.
abbrev loaded_with : String → String → Option (Chars × Chars) → Option (Chars × Chars)
loaded_with part name none = none
loaded_with part name (some (front, tail)) = elim (split_text (codes part) tail) [
  | none ↦ none
  | some (version, loader_tail) ↦ some (trim_chars version, loader_label name loader_tail)
]

unfoldable pub parse_fabric_runtime : Chars → Option (Chars × Chars)
parse_fabric_runtime line =
    loaded_with " with Fabric Loader " "Fabric " (split_text (codes "Loading Minecraft ") line)

unfoldable pub parse_quilt_runtime : Chars → Option (Chars × Chars)
parse_quilt_runtime line =
    loaded_with " with Quilt Loader " "Quilt " (split_text (codes "Loading Minecraft ") line)

abbrev trimmed_word : Chars → Option Chars
trimmed_word [] = none
trimmed_word (c ∷ cs) = some (c ∷ cs)

-- `split_whitespace().next()`, trimmed, unless that is empty.
abbrev version_word : Chars → Option Chars
version_word rest = and_then (first_word rest) (λ word. trimmed_word (trim_chars word))

abbrev forge_parts : Option (Chars × Chars) → Option (Chars × Chars)
forge_parts none = none
forge_parts (some (forge_version, rest)) =
    and_then (version_word rest) (λ version. some (version, loader_label "Forge " forge_version))

unfoldable pub parse_forge_runtime : Chars → Option (Chars × Chars)
parse_forge_runtime line =
    and_then (split_text (codes "Forge mod loading, version ") line)
      (λ parts. forge_parts (split_text (codes ", for MC ") parts.1))

unfoldable pub parse_launched_version : Chars → Option Chars
parse_launched_version line =
    and_then (split_text (codes "Launched Version: ") line) (λ parts. version_word parts.1)

-- The mod loader that a line tells of without its version.
unfoldable pub named_loader : Chars → Option Chars
named_loader line =
    if contains (codes "FabricLoader") line || contains (codes "net.fabricmc.loader") line
    then some (codes "Fabric")
    else if contains (codes "Forge mod loading") line
        || contains (codes "net.minecraftforge.fml") line
    then some (codes "Forge")
    else if contains (codes "QuiltLoader") line
    then some (codes "Quilt")
    else none

-- The version and the loader of one line.
unfoldable pub full_runtime : Chars → Option (Chars × Chars)
unfolding parse_fabric_runtime parse_quilt_runtime parse_forge_runtime
full_runtime line =
    or_other (parse_fabric_runtime line)
      (or_other (parse_quilt_runtime line) (parse_forge_runtime line))

-- What the lines read so far told: the version and the loader.
pub record Runtime : Type 0 where
  pub version : Option Chars
  pub mod_loader : Option Chars

abbrev take_full : Option (Chars × Chars) → Chars → Runtime → Runtime
take_full (some (version, loader)) line r = record {
  version = some version;
  mod_loader = some loader;
}
take_full none line r = record r { version = parse_launched_version line }

-- The test for the version, only while it is not known.
abbrev take_version : Chars → Runtime → Runtime
take_version line r = elim r.version [ some v ↦ r | none ↦ take_full (full_runtime line) line r ]

abbrev take_loader : Chars → Runtime → Runtime
take_loader line r = record r { mod_loader = or_other r.mod_loader (named_loader line) }

-- Whether the loop is left after the test for the version.
abbrev both_known : Option Chars → Option Chars → Bool
both_known none l = false
both_known (some v) none = false
both_known (some v) (some l) = true

abbrev left_now : Runtime → Runtime → Bool
left_now old new = elim old.version [
  | some v ↦ false
  | none ↦ both_known new.version new.mod_loader
]

-- The lines from the last to the first, each trimmed.
runtime_loop : Runtime → List Chars → Runtime
runtime_loop r [] = r
runtime_loop r (line ∷ ls) =
    let trimmed = trim_chars line in
    let skipped = runtime_loop r ls in
    let new = take_version trimmed r in
    let rest = runtime_loop (take_loader trimmed new) ls in
    if same_text trimmed [] then skipped else if left_now r new then new else rest

unfoldable pub parse_log_runtime : Chars → Runtime
unfolding runtime_loop full_runtime parse_launched_version named_loader
parse_log_runtime contents =
    runtime_loop (record { version = none; mod_loader = none }) (reverse (lines contents))

abbrev version_id : Value → Option Chars
version_id profile =
    and_then (as_str (get "lastVersionId" profile)) (λ id. trimmed_word (trim_chars (codes id)))

module _ (from_str : Chars → Option Value) where
  unfoldable pub parse_launcher_version : Chars → Option Chars
  parse_launcher_version contents = and_then (from_str contents) (λ value.
      and_then (as_object (get "profiles" value))
        (λ profiles. find_map version_id (values_of profiles)))

  unfoldable pub infer_runtime_from_file : Chars → Chars → Runtime
  unfolding parse_launcher_version parse_log_runtime
  infer_runtime_from_file file_name contents =
      let name = map lower file_name in
      if same_text name (codes "launcher_profiles.json")
        || same_text name (codes "launcher_accounts.json")
      then record { version = parse_launcher_version contents; mod_loader = none }
      else if ends_with (codes ".log") name || ends_with (codes ".txt") name
      then parse_log_runtime contents
      else record { version = none; mod_loader = none }

unfoldable pub infer_launcher_from_path : Chars → Option String
infer_launcher_from_path path =
    let normalized = map lower path in
    if contains (codes "prismlauncher") normalized
    then some "PrismLauncher"
    else if contains (codes "multimc") normalized
    then some "MultiMC"
    else if contains (codes "curseforge") normalized
    then some "CurseForge"
    else if contains (codes ".tlauncher") normalized
    then some "TLauncher"
    else if contains (codes "microsoft.4297127d64ec6_8wekyb3d8bbwe") normalized
    then some "Minecraft Launcher (MS Store)"
    else if contains (codes ".minecraft") normalized
    then some "Minecraft Launcher"
    else none
