-- ===== src/Minecraft/Ports/Chosen.antt =====
-- src/minecraft.rs: the ports that are listed are each listed once, in order, and none is lost.
use mathlib.Core.Path.{subst}
use p2p_core.Base.{
  ℕ, All, Bool, Bool-cases, List, [], ap, arith, false, if◌then◌else◌, inl, inr, leb, refl, true,
  ◌++◌, ◌<◌, ◌==◌, ◌∙◌, ◌∷◌, ◌≡◌, ==_iff, some, sym,
}
use p2p_core.Minecraft.Ports.Listing.{
  LanPortDetection, has_port, insert_port, sort_ports, unique_ports, detect_all_lan_ports,
  or_none_found,
}

abbrev pub Above : ℕ → List LanPortDetection → Type 0
Above n ds = All (λ d. n < d.port) ds

abbrev pub IsIncreasing : List LanPortDetection → Type 0
IsIncreasing [] = Unit {0}
IsIncreasing (d ∷ ds) = Above d.port ds × IsIncreasing ds

Above-below : (n m : ℕ) (ds : List LanPortDetection) → n < m → Above m ds → Above n ds
Above-below n m [] h k = tt
Above-below n m (d ∷ ds) h k = (omega (arith, k.0), Above-below n m ds h k.1)

insert_port-Above :
    (n : ℕ) (d : LanPortDetection) (ds : List LanPortDetection)
    → n < d.port
    → Above n ds
    → Above n (insert_port d ds)
unfolding insert_port
insert_port-Above n d [] h k = (h, tt)
insert_port-Above n d (e ∷ es) h k = elim (Bool-cases (leb d.port e.port)) [
  | inl le ↦ rw le (h, k)
  | inr gt ↦ rw gt (k.0, insert_port-Above n d es h k.1)
]

insert_port-IsIncreasing :
    (d : LanPortDetection) (ds : List LanPortDetection)
    → has_port d.port ds ≡ false
    → IsIncreasing ds
    → IsIncreasing (insert_port d ds)
unfolding insert_port
insert_port-IsIncreasing d [] h k = (tt, tt)
insert_port-IsIncreasing d (e ∷ es) h k = elim (Bool-cases (e.port == d.port)) [
  | inl same ↦ let no : true ≡ false = rw same at h in cc no
  | inr other ↦
      let later : has_port d.port es ≡ false = rw other at h in
      elim (Bool-cases (leb d.port e.port)) [
        | inl le ↦
            let lt : d.port < e.port = ground (arith, other, le) in
            rw le ((lt, Above-below d.port e.port es lt k.0), k)
        | inr gt ↦
            let lt : e.port < d.port = ground (arith, gt) in
            rw gt (insert_port-Above e.port d es lt k.0, insert_port-IsIncreasing d es later k.1)
      ]
]

or_bool : (a b : Bool) → Bool
or_bool true b = true
or_bool false b = b

has_port-insert_port :
    (p : ℕ) (d : LanPortDetection) (ds : List LanPortDetection)
    → has_port p (insert_port d ds) ≡ has_port p (d ∷ ds)
unfolding insert_port
has_port-insert_port p d [] = refl
has_port-insert_port p d (e ∷ es) = elim (Bool-cases (leb d.port e.port)) [
  | inl le ↦ rw le refl
  | inr gt ↦
      rw (gt, has_port-insert_port p d es) (swapped (e.port == p) (d.port == p) (has_port p es))
]
  where
    swapped :
        (a b c : Bool)
        → (if a then true else if b then true else c) ≡ (if b then true else if a then true else c)
    swapped true true c = refl
    swapped true false c = refl
    swapped false b c = refl

has_port-sort_ports :
    (p : ℕ) (ds : List LanPortDetection) → has_port p (sort_ports ds) ≡ has_port p ds
unfolding sort_ports
has_port-sort_ports p [] = refl
has_port-sort_ports p (d ∷ ds) =
    has_port-insert_port p d (sort_ports ds)
    ∙ ap (λ t. if d.port == p then true else t) (has_port-sort_ports p ds)

abbrev AreApart : List LanPortDetection → Type 0
AreApart [] = Unit {0}
AreApart (d ∷ ds) = (has_port d.port ds ≡ false) × AreApart ds

sort_ports-IsIncreasing : (ds : List LanPortDetection) → AreApart ds → IsIncreasing (sort_ports ds)
unfolding sort_ports
sort_ports-IsIncreasing [] h = tt
sort_ports-IsIncreasing (d ∷ ds) h =
    insert_port-IsIncreasing d (sort_ports ds) (has_port-sort_ports d.port ds ∙ h.0)
      (sort_ports-IsIncreasing ds h.1)

has_port-append :
    (p : ℕ) (ds es : List LanPortDetection)
    → has_port p (ds ++ es) ≡ or_bool (has_port p ds) (has_port p es)
unfolding or_bool
has_port-append p [] es = refl
has_port-append p (d ∷ ds) es = elim (Bool-cases (d.port == p)) [
  | inl e ↦ rw e refl
  | inr e ↦ rw e (has_port-append p ds es)
]

append-AreApart :
    (ds : List LanPortDetection) (e : LanPortDetection)
    → has_port e.port ds ≡ false
    → AreApart ds
    → AreApart (ds ++ (e ∷ []))
append-AreApart [] e h k = (refl, tt)
append-AreApart (d ∷ ds) e h k = elim (Bool-cases (d.port == e.port)) [
  | inl same ↦ let no : true ≡ false = rw same at h in cc no
  | inr other ↦
      let back : (e.port == d.port) ≡ false = ground (arith, other) in
      let later : has_port e.port ds ≡ false = rw other at h in
      (
        has_port-append d.port ds (e ∷ []) ∙ (unfold or_bool in rw (k.0, back) refl),
        append-AreApart ds e later k.1,
      )
]

unique_ports-AreApart :
    (kept ds : List LanPortDetection) → AreApart kept → AreApart (unique_ports kept ds)
unfolding unique_ports
unique_ports-AreApart kept [] h = h
unique_ports-AreApart kept (d ∷ ds) h = elim (Bool-cases (has_port d.port kept)) [
  | inl e ↦ rw e (unique_ports-AreApart kept ds h)
  | inr e ↦ rw e (unique_ports-AreApart (kept ++ (d ∷ [])) ds (append-AreApart kept d e h))
]

or_bool-false : (a : Bool) → or_bool a false ≡ a
unfolding or_bool
or_bool-false true = refl
or_bool-false false = refl

added :
    (k d x : Bool)
    → or_bool (or_bool k (if d then true else false)) x ≡ or_bool k (if d then true else x)
unfolding or_bool
added true d x = refl
added false true x = refl
added false false x = refl

-- A detection that is passed over has a port that is kept.
passed :
    (p q : ℕ) (kept : List LanPortDetection) (x : Bool)
    → has_port q kept ≡ true
    → or_bool (has_port p kept) x ≡ or_bool (has_port p kept) (if q == p then true else x)
passed p q kept x h = elim (Bool-cases (q == p)) [
  | inr e ↦ rw e refl
  | inl e ↦
      let same : q ≡ p = (==_iff q p).0 e in
      let there : has_port p kept ≡ true = ap (λ n. has_port n kept) (sym same) ∙ h in
      rw there (unfold or_bool in refl)
]

has_port-unique_ports :
    (p : ℕ) (kept ds : List LanPortDetection)
    → has_port p (unique_ports kept ds) ≡ or_bool (has_port p kept) (has_port p ds)
unfolding unique_ports
has_port-unique_ports p kept [] = sym (or_bool-false (has_port p kept))
has_port-unique_ports p kept (d ∷ ds) = elim (Bool-cases (has_port d.port kept)) [
  | inl e ↦ rw e (has_port-unique_ports p kept ds ∙ passed p d.port kept (has_port p ds) e)
  | inr e ↦ rw e (
      has_port-unique_ports p (kept ++ (d ∷ [])) ds
      ∙ ap (λ b. or_bool b (has_port p ds)) (has_port-append p kept (d ∷ []))
      ∙ added (has_port p kept) (d.port == p) (has_port p ds))
]

or_none_found-some :
    (ds result : List LanPortDetection) → or_none_found ds ≡ some result → ds ≡ result
or_none_found-some [] result e = cc
or_none_found-some (d ∷ ds) result e = cc

-- The ports that are listed stand in increasing order, so each once, and they are the ports that the listeners have.
pub detect_all_lan_ports-IsIncreasing :
    (all result : List LanPortDetection)
    → detect_all_lan_ports all ≡ some result
    → IsIncreasing result × ((p : ℕ) → has_port p result ≡ has_port p all)
unfolding detect_all_lan_ports
detect_all_lan_ports-IsIncreasing all result e =
    let sorted = or_none_found-some (sort_ports (unique_ports [] all)) result e in
    (
      subst IsIncreasing sorted
          (sort_ports-IsIncreasing (unique_ports [] all) (unique_ports-AreApart [] all tt)),
      λ p.
          ap (has_port p) (sym sorted)
          ∙ has_port-sort_ports p (unique_ports [] all)
          ∙ has_port-unique_ports p [] all
          ∙ (unfold or_bool in refl),
    )
