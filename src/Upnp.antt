-- ===== src/Upnp.antt =====
-- src/upnp.rs: the choice of the local address, and the gateway that maps a port. What the interfaces,
-- the route and the gateways give is an argument.
pub mod Usable
use p2p_core.Base.{
  ℕ, Bool, List, Option, Outcome, String, [], err, false, if◌then◌else◌, leb, none, not, ok, some,
  true, ◌&&◌, ◌++◌, ◌==◌, ◌||◌, ◌∷◌,
}
use p2p_core.Base.Words.{Bytes}
use p2p_core.Net.{IpAddr, v4, v6, same_ip}
use p2p_core.Text.{◌⧺◌, join}
use p2p_core.Text.Utf8.{codes}
use p2p_core.Text.Search.{contains_any}

-- An interface; its name is in lower case.
pub record Iface : Type 0 where
  pub name : Bytes
  pub ip : IpAddr

abbrev pub virtual_names : List Bytes
virtual_names =
    codes "loopback"
    ∷ codes "docker"
    ∷ codes "wsl"
    ∷ codes "vethernet"
    ∷ codes "virtual"
    ∷ codes "vmware"
    ∷ codes "vbox"
    ∷ codes "tun"
    ∷ codes "tap"
    ∷ codes "vpn"
    ∷ codes "radmin"
    ∷ codes "hyper-v"
    ∷ []

-- A subnet of virtual machines, or of Radmin.
abbrev pub is_virtual_subnet : ℕ → ℕ → Bool
is_virtual_subnet a b = ((a == 172) && (leb 16 b && leb b 31)) || (a == 26)

abbrev pub is_valid_ip : IpAddr → Bool
is_valid_ip (v6 s) = false
is_valid_ip (v4 a b c d) =
    if (a == 127) || ((a == 169) && (b == 254)) then false else not (is_virtual_subnet a b)

unfoldable pub valid_ips : List Iface → List IpAddr
valid_ips [] = []
valid_ips (i ∷ is) =
    let rest = valid_ips is in
    if contains_any virtual_names i.name
    then rest
    else if is_valid_ip i.ip
    then i.ip ∷ rest
    else rest

abbrev pub has_ip : IpAddr → List IpAddr → Bool
has_ip ip [] = false
has_ip ip (x ∷ xs) = if same_ip x ip then true else has_ip ip xs

-- The address of the default route, if it is listed or is an IPv4 address of no such subnet.
abbrev pub routed : List IpAddr → Option IpAddr → Option IpAddr
routed ips none = none
routed ips (some (v6 s)) = if has_ip (v6 s) ips then some (v6 s) else none
routed ips (some (v4 a b c d)) =
    if has_ip (v4 a b c d) ips
    then some (v4 a b c d)
    else if is_virtual_subnet a b
    then none
    else some (v4 a b c d)

abbrev pub rank : IpAddr → ℕ
rank (v6 s) = 2
rank (v4 a b c d) = if (a == 192) && (b == 168) then 0 else if a == 10 then 1 else 2

-- The stable sort by the rank, of which the first is taken.
unfoldable pub insert_ip : IpAddr → List IpAddr → List IpAddr
insert_ip x [] = x ∷ []
insert_ip x (y ∷ ys) =
    let rest = insert_ip x ys in if leb (rank x) (rank y) then x ∷ y ∷ ys else y ∷ rest

unfoldable pub sort_ips : List IpAddr → List IpAddr
unfolding insert_ip
sort_ips [] = []
sort_ips (x ∷ xs) = insert_ip x (sort_ips xs)

abbrev pub first_ip : List IpAddr → Option IpAddr
first_ip [] = none
first_ip (x ∷ xs) = some x

abbrev pub or_first_ip : Option IpAddr → List IpAddr → Option IpAddr
or_first_ip none ips = first_ip (sort_ips ips)
or_first_ip (some ip) ips = some ip

-- `none` is the error that there is no local address.
unfoldable pub get_local_ip : List Iface → Option IpAddr → Option IpAddr
unfolding valid_ips sort_ips same_ip
get_local_ip ifaces route = or_first_ip (routed (valid_ips ifaces) route) (valid_ips ifaces)

-- A device that the search finds: whether it has a service, and its answer to the mapping.
pub data Device : Type 0 where
  unreadable : Device
  no_service : Device
  accepting : String → Device
  refusing : String → String → Device

pub data MapError : Type 0 where
  no_local_ip no_gateway : MapError
  gateway_refused : String → MapError

-- The name of the gateway that maps the port; `found` and `errors` are those so far.
unfoldable pub device_loop : Bool → List String → List Device → Outcome MapError String
device_loop found errors [] =
    if found then err (gateway_refused (join "; " errors)) else err no_gateway
device_loop found errors (unreadable ∷ ds) = device_loop found errors ds
device_loop found errors (no_service ∷ ds) = device_loop found errors ds
device_loop found errors (accepting name ∷ ds) = ok name
device_loop found errors (refusing name e ∷ ds) =
    device_loop true (errors ++ (("'" ⧺ name ⧺ "' error: " ⧺ e) ∷ [])) ds

unfoldable pub attempt_map : Option IpAddr → List Device → Outcome MapError String
unfolding device_loop
attempt_map none devices = err no_local_ip
attempt_map (some ip) devices = device_loop false [] devices
