-- ===== src/Discovery/Framed.antt =====
-- src/discovery.rs: a pong is read by its text alone, whatever stands before it and after it.
use p2p_core.Base.{
  ℕ, ==_iff, arith, leb, length, length-append, ltb, lt→ltb, refl, some, take-append, true, ◌++◌,
  ◌<◌, ◌==◌, ◌∷◌, ◌≡◌, drop-append_at,
}
use p2p_core.Base.Words.{Bytes}
use p2p_core.Text.Utf8.{from_utf8_lossy}
use p2p_core.Text.Numbers.{split}
use p2p_core.Text.Utf8.{from_utf8_lossy}
use p2p_core.Discovery.{parse_raknet_pong, server_info}

-- A packet of the right first byte, with a header of 35 bytes and a text.
pub parse_raknet_pong-framed :
    (c : ℕ) (h t rest : Bytes) (port : ℕ)
    → c ≡ 0x1c
    → length h ≡ 34
    → 0 < length t
    → leb 6 (length (split b';' (from_utf8_lossy t))) ≡ true
    → parse_raknet_pong ((c ∷ (h ++ t)) ++ rest) (length (c ∷ (h ++ t))) port
      ≡ some (server_info (split b';' (from_utf8_lossy t)) port)
unfolding parse_raknet_pong
parse_raknet_pong-framed c h t rest port first header some_text parts =
    let is_pong : (c == 0x1c) ≡ true = (==_iff c 0x1c).1 first in
    let long : ltb 35 (length (c ∷ (h ++ t))) ≡ true =
      lt→ltb 35 _ (omega (arith, length-append h t)) in
    rw (is_pong, long, take-append (c ∷ (h ++ t)) rest, drop-append_at 34 h t header, parts) refl
