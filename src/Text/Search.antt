-- ===== src/Text/Search.antt =====
-- Texts as bytes: the tests `starts_with` and `contains`.
use mathlib.Core.List.{reverse}
use p2p_core.Base.{any, Bool, List, [], false, true, ◌&&◌, ◌==◌, ◌||◌, ◌∷◌}
use p2p_core.Base.Words.{Bytes}

abbrev pub starts_with : Bytes → Bytes → Bool
starts_with [] bs = true
starts_with (p ∷ ps) [] = false
starts_with (p ∷ ps) (b ∷ bs) = (p == b) && starts_with ps bs

abbrev pub contains : Bytes → Bytes → Bool
contains needle [] = starts_with needle []
contains needle (b ∷ bs) = starts_with needle (b ∷ bs) || contains needle bs

abbrev pub contains_any : List Bytes → Bytes → Bool
contains_any needles bs = any (λ n. contains n bs) needles

unfoldable pub ends_with : Bytes → Bytes → Bool
ends_with part bs = starts_with (reverse part) (reverse bs)
