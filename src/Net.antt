-- ===== src/Net.antt =====
-- `std::net`: socket addresses and the text that they are shown as.
use p2p_core.Base.{ℕ, String, Bool, true, false, ◌&&◌, ◌≡◌, ◌↔◌, ◌==◌, str_eq, eq_iff, arith}
use p2p_core.Text.{show_nat, ◌⧺◌}

-- An IPv6 address stands here as its canonical text: the program only shows and compares it.
pub data IpAddr : Type 0 where
  v4 : ℕ → ℕ → ℕ → ℕ → IpAddr
  v6 : String → IpAddr

pub record SocketAddr : Type 0 where
  pub ip : IpAddr
  pub port : ℕ

unfoldable pub same_ip : IpAddr → IpAddr → Bool
same_ip (v4 a b c d) (v4 a' b' c' d') = (a == a') && (b == b') && (c == c') && (d == d')
same_ip (v6 s) (v6 t) = str_eq s t
same_ip _ _ = false

unfoldable pub same_addr : SocketAddr → SocketAddr → Bool
unfolding same_ip
same_addr x y = same_ip x.ip y.ip && (x.port == y.port)

unfoldable pub is_ipv4 : SocketAddr → Bool
is_ipv4 a = elim a.ip [ v4 _ _ _ _ ↦ true | v6 _ ↦ false ]

unfoldable pub show_ip : IpAddr → String
show_ip (v4 a b c d) = show_nat a ⧺ "." ⧺ show_nat b ⧺ "." ⧺ show_nat c ⧺ "." ⧺ show_nat d
show_ip (v6 s) = s

unfoldable pub show_addr : SocketAddr → String
unfolding show_ip
show_addr x = elim x.ip [
  | v4 _ _ _ _ ↦ show_ip x.ip ⧺ ":" ⧺ show_nat x.port
  | v6 s ↦ "[" ⧺ s ⧺ "]:" ⧺ show_nat x.port
]

pub same_ip_iff : (x y : IpAddr) → (same_ip x y ≡ true) ↔ (x ≡ y)
unfolding same_ip
same_ip_iff (v4 a b c d) (v4 a' b' c' d') = ground arith
same_ip_iff (v4 a b c d) (v6 t) = ground arith
same_ip_iff (v6 s) (v4 a b c d) = ground arith
same_ip_iff (v6 s) (v6 t) = ground (arith, eq_iff s t)
