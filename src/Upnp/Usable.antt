-- ===== src/Upnp/Usable.antt =====
-- src/upnp.rs: which address is chosen, and which gateway.
use mathlib.Core.Path.{subst}
use p2p_core.Base.{
  ok, All, Bool, Bool-cases, List, Option, String, [], arith, false, inl, inr, leb, none, refl,
  some, true, ◌++◌, ◌∷◌, ◌≡◌,
}
use p2p_core.Net.{IpAddr, v4, v6, same_ip, same_ip_iff}
use p2p_core.Upnp.{
  Iface, Device, unreadable, no_service, accepting, refusing, device_loop, first_ip, get_local_ip,
  has_ip, insert_ip, is_valid_ip, is_virtual_subnet, or_first_ip, rank, routed, sort_ips, valid_ips,
  virtual_names,
}
use p2p_core.Text.Search.{contains_any}

-- An IPv4 address of no virtual subnet.
abbrev pub IsUsable : IpAddr → Type 0
IsUsable (v6 s) = ⊥
IsUsable (v4 a b c d) = is_virtual_subnet a b ≡ false

is_valid_ip-IsUsable : (ip : IpAddr) → is_valid_ip ip ≡ true → IsUsable ip
is_valid_ip-IsUsable (v6 s) h = cc
is_valid_ip-IsUsable (v4 a b c d) h = ground arith

valid_ips-IsUsable : (is : List Iface) → All IsUsable (valid_ips is)
unfolding valid_ips
valid_ips-IsUsable [] = tt
valid_ips-IsUsable (i ∷ is) = elim (Bool-cases (contains_any virtual_names i.name)) [
  | inl e ↦ rw e (valid_ips-IsUsable is)
  | inr e ↦ elim (Bool-cases (is_valid_ip i.ip)) [
    | inl v ↦ rw (e, v) (is_valid_ip-IsUsable i.ip v, valid_ips-IsUsable is)
    | inr v ↦ rw (e, v) (valid_ips-IsUsable is)
  ]
]

insert_ip-IsUsable :
    (x : IpAddr) (ys : List IpAddr) → IsUsable x → All IsUsable ys → All IsUsable (insert_ip x ys)
unfolding insert_ip
insert_ip-IsUsable x [] h k = (h, tt)
insert_ip-IsUsable x (y ∷ ys) h k = elim (Bool-cases (leb (rank x) (rank y))) [
  | inl e ↦ rw e (h, k)
  | inr e ↦ rw e (k.0, insert_ip-IsUsable x ys h k.1)
]

sort_ips-IsUsable : (xs : List IpAddr) → All IsUsable xs → All IsUsable (sort_ips xs)
unfolding sort_ips
sort_ips-IsUsable [] h = tt
sort_ips-IsUsable (x ∷ xs) h = insert_ip-IsUsable x (sort_ips xs) h.0 (sort_ips-IsUsable xs h.1)

first_ip-IsUsable :
    (xs : List IpAddr) (ip : IpAddr) → All IsUsable xs → first_ip xs ≡ some ip → IsUsable ip
first_ip-IsUsable [] ip h e = cc
first_ip-IsUsable (x ∷ xs) ip h e = let same : x ≡ ip = cc in subst IsUsable same h.0

has_ip-IsUsable :
    (ip : IpAddr) (xs : List IpAddr) → All IsUsable xs → has_ip ip xs ≡ true → IsUsable ip
has_ip-IsUsable ip [] h e = cc
has_ip-IsUsable ip (x ∷ xs) h e = elim (Bool-cases (same_ip x ip)) [
  | inl s ↦ subst IsUsable ((same_ip_iff x ip).0 s) h.0
  | inr s ↦ has_ip-IsUsable ip xs h.1 (rw s at e)
]

routed-IsUsable :
    (xs : List IpAddr) (route : Option IpAddr) (ip : IpAddr)
    → All IsUsable xs
    → routed xs route ≡ some ip
    → IsUsable ip
routed-IsUsable xs none ip h e = cc
routed-IsUsable xs (some (v6 s)) ip h e = elim (Bool-cases (has_ip (v6 s) xs)) [
  | inl t ↦ absurd (has_ip-IsUsable (v6 s) xs h t)
  | inr t ↦ let no : none ≡ some ip = rw t at e in cc no
]
routed-IsUsable xs (some (v4 a b c d)) ip h e = elim (Bool-cases (has_ip (v4 a b c d) xs)) [
  | inl t ↦
      let is : some (v4 a b c d) ≡ some ip = rw t at e in
      let same : v4 a b c d ≡ ip = cc is in
      subst IsUsable same (has_ip-IsUsable (v4 a b c d) xs h t)
  | inr t ↦ elim (Bool-cases (is_virtual_subnet a b)) [
    | inl u ↦ let no : none ≡ some ip = rw (t, u) at e in cc no
    | inr u ↦
        let is : some (v4 a b c d) ≡ some ip = rw (t, u) at e in
        let same : v4 a b c d ≡ ip = cc is in subst IsUsable same u
  ]
]

or_first_ip-IsUsable :
    (o : Option IpAddr) (xs : List IpAddr) (ip : IpAddr)
    → ((x : IpAddr) → o ≡ some x → IsUsable x)
    → All IsUsable xs
    → or_first_ip o xs ≡ some ip
    → IsUsable ip
or_first_ip-IsUsable none xs ip f h e =
    first_ip-IsUsable (sort_ips xs) ip (sort_ips-IsUsable xs h) e
or_first_ip-IsUsable (some x) xs ip f h e = f ip e

-- The local address that is chosen is an IPv4 address outside 172.16.0.0/12 and 26.0.0.0/8, also where the default route has one of these.
pub get_local_ip-IsUsable :
    (ifaces : List Iface) (route : Option IpAddr) (ip : IpAddr)
    → get_local_ip ifaces route ≡ some ip
    → IsUsable ip
unfolding get_local_ip
get_local_ip-IsUsable ifaces route ip e =
    let good = valid_ips-IsUsable ifaces in
    or_first_ip-IsUsable _ (valid_ips ifaces) ip
      (λ x f. routed-IsUsable (valid_ips ifaces) route x good f) good e

-- The device is no gateway that maps the port.
abbrev pub Passes : Device → Type 0
Passes unreadable = Unit {0}
Passes no_service = Unit {0}
Passes (accepting name) = ⊥
Passes (refusing name e) = Unit {0}

-- The port is mapped by the first gateway that accepts it.
pub device_loop-first :
    (found : Bool) (errors : List String) (before after : List Device) (name : String)
    → All Passes before
    → device_loop found errors (before ++ (accepting name ∷ after)) ≡ ok name
unfolding device_loop
device_loop-first found errors [] after name h = refl
device_loop-first found errors (unreadable ∷ ds) after name h =
    device_loop-first found errors ds after name h.1
device_loop-first found errors (no_service ∷ ds) after name h =
    device_loop-first found errors ds after name h.1
device_loop-first found errors (accepting n ∷ ds) after name h = absurd h.0
device_loop-first found errors (refusing n e ∷ ds) after name h =
    device_loop-first true _ ds after name h.1
