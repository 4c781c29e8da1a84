-- ===== src/Signaling/Attributes.antt =====
-- The attribute part of a STUN message (RFC 5389, section 15), written without indices: what a
-- message of given attributes is, and which address its first address attribute carries.
use p2p_core.Base.{
  ℕ, suc, ◌+◌, ◌-◌, ◌*◌, ◌/◌, ◌<◌, bit_xor, List, [], ◌∷◌, ◌++◌, Option, none, some, length, take,
  drop, replicate, ltb, ◌==◌, if◌then◌else◌,
}
use p2p_core.Base.Words.{Bytes, to_be}
use p2p_core.Net.{SocketAddr, v4}

-- The address in the value of an address attribute: family 1 and eight bytes at least.
abbrev pub xor_addr : Bytes → Option SocketAddr
xor_addr (_ ∷ f ∷ p ∷ q ∷ a ∷ b ∷ c ∷ d ∷ _) =
    if f == 1
    then some (record {
      ip = v4 (bit_xor a 0x21) (bit_xor b 0x12) (bit_xor c 0xa4) (bit_xor d 0x42);
      port = bit_xor (p * 256 + q) 0x2112;
    })
    else none
xor_addr _ = none

abbrev pub plain_addr : Bytes → Option SocketAddr
plain_addr (_ ∷ f ∷ p ∷ q ∷ a ∷ b ∷ c ∷ d ∷ _) =
    if f == 1 then some (record { ip = v4 a b c d; port = p * 256 + q }) else none
plain_addr _ = none

unfoldable pub attr_addr : ℕ → Bytes → Option SocketAddr
attr_addr t value =
    if t == 0x0020 then xor_addr value else if t == 0x0001 then plain_addr value else none

-- Padding to a multiple of four bytes.
abbrev pub padded : ℕ → ℕ
padded n = (n + 3) / 4 * 4

-- The first address among the attributes that the bytes hold, up to the first that is cut off.
unfoldable pub find_mapped : ℕ → Bytes → Option SocketAddr
find_mapped (suc f) (t1 ∷ t0 ∷ l1 ∷ l0 ∷ rest) =
    let len = l1 * 256 + l0 in
    let later = find_mapped f (drop (padded len) rest) in
    if ltb (length rest) len
    then none
    else elim (attr_addr (t1 * 256 + t0) (take len rest)) [ some a ↦ some a | none ↦ later ]
find_mapped _ _ = none

pub record Attribute : Type 0 where
  pub kind : ℕ
  pub value : Bytes

abbrev pub IsAttribute : Attribute → Type 0
IsAttribute a = (a.kind < 65536) × (length a.value < 65536)

unfoldable pub encode_attribute : Attribute → Bytes
encode_attribute a =
    to_be 2 a.kind
    ++ (to_be 2 (length a.value)
        ++ (a.value ++ replicate (padded (length a.value) - length a.value) 0))

unfoldable pub encode_attributes : List Attribute → Bytes
encode_attributes [] = []
encode_attributes (a ∷ as') = encode_attribute a ++ encode_attributes as'

-- The address of the first attribute that carries one.
unfoldable pub first_addr : List Attribute → Option SocketAddr
first_addr [] = none
first_addr (a ∷ as') = elim (attr_addr a.kind a.value) [ some x ↦ some x | none ↦ first_addr as' ]
