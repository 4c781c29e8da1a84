-- ===== src/Minecraft/Sources/Kept.antt =====
-- What holds of all candidate paths holds of all sources, and what holds of all sources of all
-- candidates that are files.
use mathlib.Core.Path.{subst}
use p2p_core.Base.{
  ℕ, ==_iff, All, All-map, Bool-cases, List, Option, [], ap₂, arith, false, inl, inr, keep_if, leb,
  refl, true, ◌==◌, ◌∷◌, ◌≡◌, ◌⊎◌,
}
use p2p_core.Text.Chars.{Chars}
use p2p_core.Minecraft.Ports.{same_text}
use p2p_core.Minecraft.Sources.{
  FilePath, same_path, drop_same, dedup, time_of, is_file, insert_fresh, sort_fresh,
}

pub same_text→eq : (a b : Chars) → same_text a b ≡ true → a ≡ b
same_text→eq [] [] h = refl
same_text→eq [] (c ∷ cs) h = cc
same_text→eq (b ∷ bs) [] h = cc
same_text→eq (b ∷ bs) (c ∷ cs) h = elim (Bool-cases (b == c)) [
  | inl e ↦ ap₂ (λ x xs. x ∷ xs) ((==_iff b c).0 e) (same_text→eq bs cs (rw e at h))
  | inr e ↦ let no_way : false ≡ true = rw e at h in cc
]

pub same_path→eq : (p q : FilePath) → same_path p q ≡ true → p ≡ q
unfolding same_path
same_path→eq [] [] h = refl
same_path→eq [] (q ∷ qs) h = cc
same_path→eq (p ∷ ps) [] h = cc
same_path→eq (p ∷ ps) (q ∷ qs) h = elim (Bool-cases (same_text p q)) [
  | inl e ↦ ap₂ (λ x xs. x ∷ xs) (same_text→eq p q e) (same_path→eq ps qs (rw e at h))
  | inr e ↦ let no_way : false ≡ true = rw e at h in cc
]

-- The path stands in the list.
abbrev pub Among : FilePath → List FilePath → Type 0
Among p [] = ⊥
Among p (q ∷ qs) = (p ≡ q) ⊎ Among p qs

pub All-Among : (ps : List FilePath) → All (λ p. Among p ps) ps
All-Among [] = tt
All-Among (p ∷ ps) =
    (inl refl, All-map (λ q. Among q ps) (λ q. Among q (p ∷ ps)) (λ q h. inr h) ps (All-Among ps))

module _ (P : FilePath → Type 0) where
  -- What holds of all that is left holds of what was there, and the other way round.
  pub drop_same-All : (p : FilePath) (ps : List FilePath) → P p → All P (drop_same p ps) → All P ps
  unfolding drop_same
  drop_same-All p [] here h = tt
  drop_same-All p (q ∷ qs) here h = elim (Bool-cases (same_path p q)) [
    | inl e ↦ (subst P (same_path→eq p q e) here, rw e at h)
    | inr e ↦ rw e at h
  ]

  pub dedup-All : (ps : List FilePath) → All P (dedup ps) → All P ps
  unfolding dedup
  dedup-All [] h = tt
  dedup-All (p ∷ ps) h = (h.0, dedup-All ps (drop_same-All p (dedup ps) h.0 h.1))

  pub All-drop_same : (p : FilePath) (ps : List FilePath) → All P ps → All P (drop_same p ps)
  unfolding drop_same
  All-drop_same p [] h = tt
  All-drop_same p (q ∷ qs) h = elim (Bool-cases (same_path p q)) [
    | inl e ↦ rw e h.1
    | inr e ↦ rw e h
  ]

  pub All-dedup : (ps : List FilePath) → All P ps → All P (dedup ps)
  unfolding dedup
  All-dedup [] h = tt
  All-dedup (p ∷ ps) h = (h.0, All-drop_same p (dedup ps) (All-dedup ps h.1))

module _ (modified : FilePath → Option ℕ) where
  module _ (P : FilePath → Type 0) where
    pub insert_fresh-All :
        (p : FilePath) (ps : List FilePath) → All P (insert_fresh modified p ps) → P p × All P ps
    unfolding insert_fresh
    insert_fresh-All p [] h = h
    insert_fresh-All p (q ∷ qs) h =
        elim (Bool-cases (leb (time_of modified q) (time_of modified p))) [
          | inl e ↦ rw e at h
          | inr e ↦
              let (here, later) : P q × All P (insert_fresh modified p qs) = rw e at h in
              let (there, rest) = insert_fresh-All p qs later in (there, (here, rest))
        ]

    pub All-insert_fresh :
        (p : FilePath) (ps : List FilePath) → P p → All P ps → All P (insert_fresh modified p ps)
    unfolding insert_fresh
    All-insert_fresh p [] here h = (here, h)
    All-insert_fresh p (q ∷ qs) here h =
        elim (Bool-cases (leb (time_of modified q) (time_of modified p))) [
          | inl e ↦ rw e (here, h)
          | inr e ↦ rw e (h.0, All-insert_fresh p qs here h.1)
        ]

    pub sort_fresh-All : (ps : List FilePath) → All P (sort_fresh modified ps) → All P ps
    unfolding sort_fresh
    sort_fresh-All [] h = tt
    sort_fresh-All (p ∷ ps) h =
        let (here, rest) = insert_fresh-All p (sort_fresh modified ps) h in
        (here, sort_fresh-All ps rest)

    pub All-sort_fresh : (ps : List FilePath) → All P ps → All P (sort_fresh modified ps)
    unfolding sort_fresh
    All-sort_fresh [] h = tt
    All-sort_fresh (p ∷ ps) h =
        All-insert_fresh p (sort_fresh modified ps) h.0 (All-sort_fresh ps h.1)

    pub keep_files-All :
        (ps : List FilePath)
        → All P (keep_if (is_file modified) ps)
        → All (λ p. is_file modified p ≡ true → P p) ps
    keep_files-All [] h = tt
    keep_files-All (p ∷ ps) h = elim (Bool-cases (is_file modified p)) [
      | inl e ↦
          let (here, rest) : P p × All P (keep_if (is_file modified) ps) = rw e at h in
          (λ _. here, keep_files-All ps rest)
      | inr e ↦ (λ file. absurd (ground (arith, e, file)), keep_files-All ps (rw e at h))
    ]

    pub All-keep_files :
        (ps : List FilePath)
        → All P ps
        → All (λ p. P p × (is_file modified p ≡ true)) (keep_if (is_file modified) ps)
    All-keep_files [] h = tt
    All-keep_files (p ∷ ps) h = elim (Bool-cases (is_file modified p)) [
      | inl e ↦ rw e ((h.0, e), All-keep_files ps h.1)
      | inr e ↦ rw e (All-keep_files ps h.1)
    ]
