-- ===== src/Text/Chars/Lines.antt =====
-- A text made of lines is split into them, and a part is found at its first place.
use p2p_core.Base.{
  ℕ, ==_iff, All, List, [], ap, append-nil, append_assoc, ap₂, drop-append, false, refl, some, sym,
  true, ◌++◌, ◌==◌, ◌∙◌, ◌∷◌, ◌≡◌, Bool-cases, inl, inr, none, Bool, ◌||◌,
}
use p2p_core.Text.Chars.{Chars, lines, lines_from, drop_return, split_text, after_char, last_line}
use p2p_core.Text.Numbers.{Lacks, ne_test}
use p2p_core.Text.Search.{starts_with, contains}

-- The lines, each with its end.
abbrev pub unlines : List Chars → Chars
unlines [] = []
unlines (l ∷ ls) = l ++ (10 ∷ unlines ls)

-- No `\n` inside and no `\r`.
abbrev pub IsLine : Chars → Type 0
IsLine l = Lacks 10 l × Lacks 13 l

drop_return-Lacks : (l : Chars) → Lacks 13 l → drop_return l ≡ l
unfolding drop_return
drop_return-Lacks [] h = refl
drop_return-Lacks (c ∷ []) h = rw (ne_test c 13 h.0) refl
drop_return-Lacks (c ∷ d ∷ cs) h = ap (λ t. c ∷ t) (drop_return-Lacks (d ∷ cs) h.1)

lines_from-append :
    (line l rest : Chars)
    → Lacks 10 l
    → lines_from line (l ++ (10 ∷ rest)) ≡ drop_return (line ++ l) ∷ lines_from [] rest
unfolding lines_from
lines_from-append line [] rest h = rw (append-nil line) refl
lines_from-append line (c ∷ cs) rest h = rw (ne_test c 10 h.0) (
    lines_from-append (line ++ (c ∷ [])) cs rest h.1
    ∙ ap (λ t. drop_return t ∷ lines_from [] rest) (append_assoc line (c ∷ []) cs))

pub lines-unlines : (ls : List Chars) → All IsLine ls → lines (unlines ls) ≡ ls
unfolding lines
lines-unlines [] h = unfold lines_from last_line in refl
lines-unlines (l ∷ ls) h =
    lines_from-append [] l (unlines ls) h.0.0
    ∙ ap₂ (λ s t. s ∷ t) (drop_return-Lacks l h.0.1) (lines-unlines ls h.1)

pub starts_with-append : (p rest : Chars) → starts_with p (p ++ rest) ≡ true
starts_with-append [] rest = refl
starts_with-append (c ∷ cs) rest = rw ((==_iff c c).1 refl, starts_with-append cs rest) refl

-- A part that goes on into a character which it lacks ends before it.
starts_with-cut :
    (c : ℕ) (part front rest : Chars)
    → Lacks c part
    → starts_with part (front ++ (c ∷ rest)) ≡ true
    → starts_with part front ≡ true
starts_with-cut c [] front rest h s = refl
starts_with-cut c (p ∷ part) [] rest h s =
    let other : (p == c) ≡ false = ne_test p c h.0 in
    let no_way : false ≡ true = rw other at s in cc no_way
starts_with-cut c (p ∷ part) (d ∷ front) rest h s = elim (Bool-cases (p == d)) [
  | inl e ↦ rw e (starts_with-cut c part front rest h.1 (rw e at s))
  | inr e ↦ let no_way : false ≡ true = rw e at s in cc no_way
]

or_left : (a b : Bool) → (a || b) ≡ false → a ≡ false
or_left false b h = refl
or_left true b h = h

or_right : (a b : Bool) → (a || b) ≡ false → b ≡ false
or_right false b h = h
or_right true b h = let no_way : true ≡ false = h in cc no_way

starts_tail :
    (c d : ℕ) (part front rest : Chars)
    → Lacks c part
    → starts_with (c ∷ part) (d ∷ (front ++ ((c ∷ part) ++ rest))) ≡ true
    → starts_with (c ∷ part) (d ∷ front) ≡ true
starts_tail c d part front rest k s = elim (Bool-cases (c == d)) [
  | inl e ↦ rw e (starts_with-cut c part front (part ++ rest) k (rw e at s))
  | inr e ↦ let no_way : false ≡ true = rw e at s in cc no_way
]

-- A part whose first character stands in it only there is found where it first stands.
pub split_text-append :
    (c : ℕ) (part front rest : Chars)
    → Lacks c part
    → contains (c ∷ part) front ≡ false
    → split_text (c ∷ part) (front ++ ((c ∷ part) ++ rest)) ≡ some (front, rest)
unfolding split_text
split_text-append c part [] rest k h =
    rw (starts_with-append (c ∷ part) rest, drop-append (c ∷ part) rest) refl
split_text-append c part (d ∷ front) rest k h =
    let text : Chars = (d ∷ front) ++ ((c ∷ part) ++ rest) in
    let here_not : starts_with (c ∷ part) (d ∷ front) ≡ false =
      or_left (starts_with (c ∷ part) (d ∷ front)) (contains (c ∷ part) front) h in
    let later_not : contains (c ∷ part) front ≡ false =
      or_right (starts_with (c ∷ part) (d ∷ front)) (contains (c ∷ part) front) h in
    elim (Bool-cases (starts_with (c ∷ part) text)) [
      | inl e ↦
          let known = starts_tail c d part front rest k e in
          let no_way : true ≡ false = sym known ∙ here_not in cc no_way
      | inr e ↦ rw (e, split_text-append c part front rest k later_not, after_char) refl
    ]

-- A part that does not stand in the text.
pub split_text-none : (part l : Chars) → contains part l ≡ false → split_text part l ≡ none
unfolding split_text
split_text-none part [] h = rw h refl
split_text-none part (c ∷ cs) h = elim (Bool-cases (starts_with part (c ∷ cs))) [
  | inl e ↦ let no_way : true ≡ false = rw e at h in cc
  | inr e ↦
      let later : contains part cs ≡ false = rw e at h in
      rw (e, split_text-none part cs later, after_char) refl
]
