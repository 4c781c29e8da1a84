-- ===== src/Minecraft/Sources/Freshest.antt =====
-- The first source that names a player is a freshest one that does.
use p2p_core.Base.{
  ℕ, All, Bool-cases, List, Option, [], inl, inr, leb, true, ◌∷◌, ◌≡◌, All-map, Option-cases, arith,
  keep_if, leb→le, none, some, ◌<◌, ◌∙◌, ◌≤◌,
}
use p2p_core.Minecraft.Nickname.{find_map}
use p2p_core.Minecraft.Sources.{
  FilePath, same_path, drop_same, dedup, time_of, is_file, insert_fresh, sort_fresh,
  collect_nickname_sources, candidate_paths,
}
use p2p_core.Minecraft.Sources.Kept.{
  All-Among, All-dedup, All-drop_same, All-insert_fresh, All-keep_files, All-sort_fresh, Among,
  dedup-All, keep_files-All, sort_fresh-All,
}

module _ (modified : FilePath → Option ℕ) where
  -- The latest change comes first.
  abbrev IsFreshFirst : List FilePath → Type 0
  IsFreshFirst [] = Unit
  IsFreshFirst (p ∷ ps) = All (λ q. time_of modified q ≤ time_of modified p) ps × IsFreshFirst ps

  insert_fresh-IsFreshFirst :
      (p : FilePath) (ps : List FilePath)
      → IsFreshFirst ps
      → IsFreshFirst (insert_fresh modified p ps)
  unfolding insert_fresh
  insert_fresh-IsFreshFirst p [] h = (tt, tt)
  insert_fresh-IsFreshFirst p (q ∷ qs) h =
      elim (Bool-cases (leb (time_of modified q) (time_of modified p))) [
        | inl e ↦
            let lower_one : time_of modified q ≤ time_of modified p = leb→le _ _ e in
            let all_below =
              All-map (λ r. time_of modified r ≤ time_of modified q)
                (λ r. time_of modified r ≤ time_of modified p) (λ r k. omega arith) qs h.0 in
            rw e ((lower_one, all_below), h)
        | inr e ↦
            let above : time_of modified p ≤ time_of modified q = ground arith in
            rw e (
              All-insert_fresh modified (λ r. time_of modified r ≤ time_of modified q) p qs above
                  h.0,
              insert_fresh-IsFreshFirst p qs h.1,
            )
      ]

  sort_fresh-IsFreshFirst : (ps : List FilePath) → IsFreshFirst (sort_fresh modified ps)
  unfolding sort_fresh
  sort_fresh-IsFreshFirst [] = tt
  sort_fresh-IsFreshFirst (p ∷ ps) =
      insert_fresh-IsFreshFirst p (sort_fresh modified ps) (sort_fresh-IsFreshFirst ps)

  drop_same-IsFreshFirst :
      (p : FilePath) (ps : List FilePath) → IsFreshFirst ps → IsFreshFirst (drop_same p ps)
  unfolding drop_same
  drop_same-IsFreshFirst p [] h = tt
  drop_same-IsFreshFirst p (q ∷ qs) h = elim (Bool-cases (same_path p q)) [
    | inl e ↦ rw e h.1
    | inr e ↦ rw e h
  ]

  dedup-IsFreshFirst : (ps : List FilePath) → IsFreshFirst ps → IsFreshFirst (dedup ps)
  unfolding dedup
  dedup-IsFreshFirst [] h = tt
  dedup-IsFreshFirst (p ∷ ps) h = (
    All-drop_same (λ q. time_of modified q ≤ time_of modified p) p (dedup ps)
        (All-dedup (λ q. time_of modified q ≤ time_of modified p) ps h.0),
    drop_same-IsFreshFirst p (dedup ps) (dedup-IsFreshFirst ps h.1),
  )

  module _ {B : Type 0} (names : FilePath → Option B) where
    abbrev pub NoneFresher : FilePath → FilePath → Type 0
    NoneFresher p q = time_of modified p < time_of modified q → names q ≡ none

    -- A path that gives the result and is at least as fresh as all that give any.
    first_fresh :
        (P : FilePath → Type 0) (ps : List FilePath) (b : B)
        → IsFreshFirst ps
        → All P ps
        → find_map names ps ≡ some b
        → (p : FilePath) × P p × (names p ≡ some b) × All (NoneFresher p) ps
    first_fresh P [] b fresh all h = cc
    first_fresh P (p ∷ ps) b fresh all h = elim (Option-cases (names p)) [
      | inl e ↦
          let (r, holds, found, rest) = first_fresh P ps b fresh.1 all.1 (rw e at h) in
          (r, holds, found, (λ _. e, rest))
      | inr (a, e) ↦
          let here : names p ≡ some b = e ∙ (rw e at h) in
          (
            p,
            all.0,
            here,
            (
              λ k. absurd (omega arith),
              All-map (λ q. time_of modified q ≤ time_of modified p) (NoneFresher p)
                  (λ q le k. absurd (omega arith)) ps fresh.0,
            ),
          )
    ]

    -- The first result along the sources is that of a candidate which is a file, and no candidate
    -- whose last change is later gives any.
    pub collect_nickname_sources-freshest :
        (a l u : Option FilePath) (b : B)
        → find_map names (collect_nickname_sources modified a l u) ≡ some b
        → (p : FilePath) × (Among p (candidate_paths a l u) × (is_file modified p ≡ true))
          × (names p ≡ some b)
          × All (λ q. is_file modified q ≡ true → NoneFresher p q) (candidate_paths a l u)
    unfolding collect_nickname_sources
    collect_nickname_sources-freshest a l u b h =
        let cs = candidate_paths a l u in
        let files = keep_if (is_file modified) cs in
        let sorted = sort_fresh modified files in
        let Good : FilePath → Type 0 = λ p. Among p cs × (is_file modified p ≡ true) in
        let good = All-keep_files modified (λ p. Among p cs) cs (All-Among cs) in
        let (p, holds, found, rest) =
          first_fresh Good (dedup sorted) b
            (dedup-IsFreshFirst sorted (sort_fresh-IsFreshFirst files))
            (All-dedup Good sorted (All-sort_fresh modified Good files good)) h in
        (
          p,
          holds,
          found,
          keep_files-All modified (NoneFresher p) cs (
              sort_fresh-All modified (NoneFresher p) files
                (dedup-All (NoneFresher p) sorted rest)),
        )
