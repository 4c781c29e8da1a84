-- ===== src/Minecraft/Runtime/Found.antt =====
-- The loop over the lines of a log, with its state and its early end, against the latest line that
-- tells of a version.
use mathlib.Core.List.{reverse}
use p2p_core.Base.{
  Bool-cases, List, Option, [], ap, inl, inr, map, none, refl, some, sym, true, ◌∙◌, ◌∷◌, ◌≡◌,
  Option-cases, if◌then◌else◌,
}
use p2p_core.Text.Chars.{Chars, split_text, trim_chars, lines}
use p2p_core.Minecraft.Nickname.{find_map, or_other}
use p2p_core.Minecraft.Ports.{same_text}
use p2p_core.Minecraft.Runtime.{
  Runtime, full_runtime, runtime_loop, parse_log_runtime, named_loader, parse_launched_version,
  left_now,
}

-- The version that a line tells of, and the loader if it stands beside it.
abbrev with_loader : Option (Chars × Chars) → Option (Chars × Option Chars)
with_loader none = none
with_loader (some (version, loader)) = some (version, some loader)

abbrev alone : Option Chars → Option (Chars × Option Chars)
alone none = none
alone (some version) = some (version, none)

abbrev pub line_runtime : Chars → Option (Chars × Option Chars)
line_runtime line = or_other (with_loader (full_runtime line)) (alone (parse_launched_version line))

-- The runtime by the latest line with a version, and the latest mention of a loader.
abbrev pub runtime_of : Option (Chars × Option Chars) → Option Chars → Runtime
runtime_of none mentioned = record { version = none; mod_loader = mentioned }
runtime_of (some (v, none)) mentioned = record { version = some v; mod_loader = mentioned }
runtime_of (some (v, some loader)) mentioned = record { version = some v; mod_loader = some loader }

or_other_assoc : (a b c : Option Chars) → or_other (or_other a b) c ≡ or_other a (or_other b c)
or_other_assoc none b c = refl
or_other_assoc (some x) b c = refl

or_other-none : (a : Option Chars) → or_other a none ≡ a
or_other-none none = refl
or_other-none (some x) = refl

same_text-nil : (t : Chars) → same_text t [] ≡ true → t ≡ []
same_text-nil [] h = refl
same_text-nil (c ∷ cs) h = cc

-- An empty line tells nothing.
full_runtime-nil : full_runtime [] ≡ none
unfolding full_runtime split_text
full_runtime-nil = refl

launched-nil : parse_launched_version [] ≡ none
unfolding parse_launched_version split_text
launched-nil = refl

named-nil : named_loader [] ≡ none
unfolding named_loader
named-nil = refl

runtime_loop-known :
    (v : Chars) (l : Option Chars) (ls : List Chars)
    → runtime_loop (record { version = some v; mod_loader = l }) ls ≡ record {
      version = some v;
      mod_loader = or_other l (find_map named_loader (map trim_chars ls));
    }
unfolding runtime_loop
runtime_loop-known v l [] =
    ap (λ t. record { version = some v; mod_loader = t }) (sym (or_other-none l))
runtime_loop-known v l (line ∷ ls) = elim (Bool-cases (same_text (trim_chars line) [])) [
  | inl e ↦ rw (same_text-nil (trim_chars line) e, named-nil) (runtime_loop-known v l ls)
  | inr e ↦ rw e (
      runtime_loop-known v (or_other l (named_loader (trim_chars line))) ls
      ∙ ap (λ t. record { version = some v; mod_loader = t })
          (or_other_assoc l (named_loader (trim_chars line))
            (find_map named_loader (map trim_chars ls))))
]

launched_here :
    (v : Chars) (l here : Option Chars) (ls : List Chars)
    → (if left_now
          (record { version = none; mod_loader = l })
          (record { version = some v; mod_loader = l })
        then record { version = some v; mod_loader = l }
        else runtime_loop (record { version = some v; mod_loader = or_other l here }) ls)
      ≡ runtime_of
          (some (v, none))
          (or_other l (or_other here (find_map named_loader (map trim_chars ls))))
launched_here v none here ls = runtime_loop-known v here ls
launched_here v (some x) here ls = refl

runtime_loop-unknown :
    (l : Option Chars) (ls : List Chars)
    → runtime_loop (record { version = none; mod_loader = l }) ls
      ≡ runtime_of
          (find_map line_runtime (map trim_chars ls))
          (or_other l (find_map named_loader (map trim_chars ls)))
unfolding runtime_loop
runtime_loop-unknown l [] =
    ap (λ t. record { version = none; mod_loader = t }) (sym (or_other-none l))
runtime_loop-unknown l (line ∷ ls) = elim (Bool-cases (same_text (trim_chars line) [])) [
  | inl e ↦
      rw (same_text-nil (trim_chars line) e, full_runtime-nil, launched-nil, named-nil)
        (runtime_loop-unknown l ls)
  | inr e ↦ elim (Option-cases (full_runtime (trim_chars line))) [
    | inr ((v, loader), full) ↦ rw (e, full) refl
    | inl no_full ↦ elim (Option-cases (parse_launched_version (trim_chars line))) [
      | inr (v, launched) ↦
          rw (e, no_full, launched) (launched_here v l (named_loader (trim_chars line)) ls)
      | inl no_version ↦
          rw (e, no_full, no_version)
            (runtime_loop-unknown (or_other l (named_loader (trim_chars line))) ls
              ∙ ap (runtime_of (find_map line_runtime (map trim_chars ls))) (
                  or_other_assoc l (named_loader (trim_chars line))
                    (find_map named_loader (map trim_chars ls))))
    ]
  ]
]

-- The loop over the lines of a log, which goes on changing its two results and ends early, gives the
-- version of the latest line that tells of one. The loader is the one beside that version, if there is
-- one, and otherwise the latest that any line mentions.
pub parse_log_runtime-latest :
    (contents : Chars)
    → let ls = map trim_chars (reverse (lines contents)) in
      parse_log_runtime contents ≡ runtime_of (find_map line_runtime ls) (find_map named_loader ls)
unfolding parse_log_runtime
parse_log_runtime-latest contents = runtime_loop-unknown none (reverse (lines contents))
