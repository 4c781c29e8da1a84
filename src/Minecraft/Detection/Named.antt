-- ===== src/Minecraft/Detection/Named.antt =====
-- The player's name is that of a running client or of a freshest file that names one.
use p2p_core.Base.{
  ℕ, Option, Option-cases, inl, inr, none, some, ◌≡◌, All, All-map, List, ap, true, ◌<◌, ◌∙◌,
}
use p2p_core.Text.Chars.{Chars}
use p2p_core.Lobby.{Value}
use p2p_core.Minecraft.Detection.{
  Files, RunningProcess, MinecraftNicknameDetection, detect_minecraft_nickname,
  detect_nickname_from_running_processes, file_nickname, file_detection,
}
use p2p_core.Minecraft.Sources.{
  FilePath, collect_nickname_sources, candidate_paths, is_file, time_of,
}
use p2p_core.Minecraft.Sources.Kept.{Among}
use p2p_core.Minecraft.Sources.Freshest.{collect_nickname_sources-freshest, NoneFresher}

module _ (from_str : Chars → Option Value) (files : Files) (modified : FilePath → Option ℕ) where
  -- A detection tells the name in the file and the path of the file.
  detection-nickname :
      (p : FilePath) (d : MinecraftNicknameDetection)
      → file_detection from_str files p ≡ some d
      → (file_nickname from_str files p ≡ some d.nickname) × (files.display p ≡ d.source_path)
  detection-nickname p d h = elim (Option-cases (file_nickname from_str files p)) [
    | inl e ↦
        let no_way : ◌≡◌ {A = Option MinecraftNicknameDetection} none (some d) = rw e at h in cc
    | inr (n, e) ↦
        let made : MinecraftNicknameDetection = record {
          nickname = n;
          source_path = files.display p;
        } in
        let same : some made ≡ some d = rw e at h in
        let equal : made ≡ d = cc same in
        (e ∙ ap (λ v. some v.nickname) equal, ap (λ v. v.source_path) equal)
  ]

  no_detection :
      (p : FilePath)
      → file_detection from_str files p ≡ none
      → file_nickname from_str files p ≡ none
  no_detection p h = elim (Option-cases (file_nickname from_str files p)) [
    | inl e ↦ e
    | inr (n, e) ↦
        let made : MinecraftNicknameDetection = record {
          nickname = n;
          source_path = files.display p;
        } in
        let no_way : some made ≡ none = rw e at h in cc
  ]

  -- Where no running process tells the player's name, the name that is detected stands in one of the
  -- candidate files, whose path is reported, and no candidate that was changed later has a name.
  pub detect_minecraft_nickname-freshest :
      (ps : List RunningProcess) (a l u : Option FilePath) (d : MinecraftNicknameDetection)
      → detect_nickname_from_running_processes ps ≡ none
      → detect_minecraft_nickname from_str files ps (collect_nickname_sources modified a l u)
        ≡ some d
      → (p : FilePath) × (Among p (candidate_paths a l u) × (is_file modified p ≡ true))
        × ((file_nickname from_str files p ≡ some d.nickname) × (files.display p ≡ d.source_path))
        × All
            (λ q.
              is_file modified q ≡ true
              → time_of modified p < time_of modified q
              → file_nickname from_str files q ≡ none)
            (candidate_paths a l u)
  unfolding detect_minecraft_nickname
  detect_minecraft_nickname-freshest ps a l u d idle h =
      let (p, stands, found, rest) =
        collect_nickname_sources-freshest modified (file_detection from_str files) a l u d
          (rw idle at h) in
      (
        p,
        stands,
        detection-nickname p d found,
        All-map
            (λ q.
              is_file modified q ≡ true → NoneFresher modified (file_detection from_str files) p q)
            (λ q.
              is_file modified q ≡ true
              → time_of modified p < time_of modified q
              → file_nickname from_str files q ≡ none)
            (λ q none_here file later. no_detection q (none_here file later))
            (candidate_paths a l u) rest,
      )
