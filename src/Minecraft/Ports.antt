-- ===== src/Minecraft/Ports.antt =====
-- src/minecraft.rs: the choice of LAN ports from what `netstat` lists. A line is its columns, which
-- have no white space, and a process's command line is given in lower case. Texts are bytes.
pub mod Listing
pub mod Chosen
use p2p_core.Base.{
  ℕ, Bool, List, Option, [], any, false, get_or, if◌then◌else◌, leb, length, ltb, map, none, some,
  true, ◌&&◌, ◌++◌, ◌+◌, ◌==◌, ◌^◌, ◌||◌, ◌∷◌,
}
use p2p_core.Base.Words.{Bytes}
use p2p_core.Text.Search.{contains, contains_any, starts_with}
use p2p_core.Text.Utf8.{codes}
use p2p_core.Text.Numbers.{parse_uint}

-- `to_ascii_lowercase`
abbrev pub lower : ℕ → ℕ
lower b = if leb 65 b && leb b 90 then b + 32 else b

abbrev pub same_text : Bytes → Bytes → Bool
same_text [] [] = true
same_text [] (c ∷ cs) = false
same_text (b ∷ bs) [] = false
same_text (b ∷ bs) (c ∷ cs) = (b == c) && same_text bs cs

-- `rsplit_once`
abbrev pub before_last : ℕ → ℕ → Bytes → Option (Bytes × Bytes) → Option (Bytes × Bytes)
before_last sep b bs none = if b == sep then some ([], bs) else none
before_last sep b bs (some (front, back)) = some (b ∷ front, back)

abbrev pub rsplit_once : ℕ → Bytes → Option (Bytes × Bytes)
rsplit_once sep [] = none
rsplit_once sep (b ∷ bs) = before_last sep b bs (rsplit_once sep bs)

-- The text before a byte and the text after it.
abbrev pub after_first : ℕ → Option (Bytes × Bytes) → Option (Bytes × Bytes)
after_first b none = none
after_first b (some (front, back)) = some (b ∷ front, back)

abbrev pub split_once : ℕ → Bytes → Option (Bytes × Bytes)
split_once sep [] = none
split_once sep (b ∷ bs) =
    let rest = after_first b (split_once sep bs) in if b == sep then some ([], bs) else rest

abbrev pub with_port : Bytes → Option ℕ → Option (Bytes × ℕ)
with_port host none = none
with_port host (some port) = some (host, port)

-- After the bracket one byte is passed over; where there is none, there is no port.
abbrev pub bracketed : Option (Bytes × Bytes) → Option (Bytes × ℕ)
bracketed none = none
bracketed (some (host, [])) = none
bracketed (some (host, c ∷ port)) = with_port host (parse_uint (2 ^ 16) port)

abbrev pub at_colon : Option (Bytes × Bytes) → Option (Bytes × ℕ)
at_colon none = none
at_colon (some (host, port)) = with_port host (parse_uint (2 ^ 16) port)

unfoldable pub split_host_port_label : Bytes → Option (Bytes × ℕ)
split_host_port_label [] = none
split_host_port_label (b ∷ bs) =
    if b == b'[' then bracketed (split_once b']' bs) else at_colon (rsplit_once b':' (b ∷ bs))

abbrev pub is_bracket : ℕ → Bool
is_bracket b = (b == b'[') || (b == b']')

abbrev pub drop_brackets : Bytes → Bytes
drop_brackets [] = []
drop_brackets (b ∷ bs) = let rest = drop_brackets bs in if is_bracket b then rest else b ∷ bs

abbrev pub before_bracket : ℕ → Bytes → Bytes
before_bracket b [] = if is_bracket b then [] else b ∷ []
before_bracket b (c ∷ cs) = b ∷ c ∷ cs

abbrev pub drop_brackets_end : Bytes → Bytes
drop_brackets_end [] = []
drop_brackets_end (b ∷ bs) = before_bracket b (drop_brackets_end bs)

unfoldable pub is_local_bind_host : Bytes → Bool
is_local_bind_host host =
    let normalized = map lower (drop_brackets_end (drop_brackets host)) in
    any (λ t. same_text t normalized)
      (codes "127.0.0.1"
        ∷ codes "0.0.0.0"
        ∷ codes "::1"
        ∷ codes "::"
        ∷ codes "*"
        ∷ codes "localhost"
        ∷ [])

pub record JavaProcessMetadata : Type 0 where
  pub command_line : Bytes
  pub server_port : Option ℕ

-- A priority is kept 500 higher, so that it is never below 0.
pub record Candidate : Type 0 where
  pub score : ℕ
  pub port : ℕ
  pub pid : ℕ
  pub local : Bytes
  pub proto : Bytes

abbrev pub bonus : Bool → ℕ → ℕ
bonus true n = n
bonus false n = 0

abbrev pub targets : Option ℕ → ℕ → Bool
targets none port = false
targets (some target) port = port == target

abbrev pub mc_words : List Bytes
mc_words =
    codes "minecraft"
    ∷ codes ".minecraft"
    ∷ codes "fabric-loader"
    ∷ codes "forge"
    ∷ codes "quilt"
    ∷ codes "net.minecraft"
    ∷ codes "server.jar"
    ∷ codes "papermc"
    ∷ codes "spigot"
    ∷ []

abbrev pub jar_words : List Bytes
jar_words =
    codes "purpur" ∷ codes "paper" ∷ codes "spigot" ∷ codes "velocity" ∷ codes "waterfall" ∷ []

abbrev pub client_words : List Bytes
client_words = codes "minecraft.applet" ∷ codes "net.minecraft.client.main.main" ∷ []

unfoldable pub tcp_score : JavaProcessMetadata → ℕ → ℕ
tcp_score meta port =
    let cmd = meta.command_line in
    let is_mc_related = contains_any mc_words cmd in
    let base = if is_mc_related then 650 else if contains (codes "javaw") cmd then 510 else 0 in
    let in_lan = is_mc_related && contains_any client_words cmd in
    base
    + bonus (port == 25565) 100
    + bonus (targets meta.server_port port) 250
    + bonus (contains_any jar_words cmd) 100
    + bonus in_lan 80
    + bonus (in_lan && ltb 49151 port) 70

unfoldable pub udp_score : Bytes → ℕ → ℕ
udp_score host port =
    let by_port =
      if (port == 19132) || (port == 19133)
      then 300
      else if port == 7551
      then 250
      else if ltb 49151 port
      then 50
      else 0 in
    700
    + by_port
    + bonus
        (same_text host (codes "0.0.0.0")
          || (same_text host (codes "::") || same_text host (codes "0")))
        100

-- The process of a number, in the map of the Java processes.
abbrev pub process : ℕ → List (ℕ × JavaProcessMetadata) → Option JavaProcessMetadata
process pid [] = none
process pid ((k, meta) ∷ ps) = let rest = process pid ps in if k == pid then some meta else rest

abbrev pub tcp_process : Bytes → Option JavaProcessMetadata → ℕ → ℕ → List Candidate
tcp_process label none port pid = []
tcp_process label (some meta) port pid =
    record {
      score = tcp_score meta port;
      port = port;
      pid = pid;
      local = label;
      proto = codes "TCP";
    }
    ∷ []

abbrev pub udp_process : Bytes → Bytes → Option JavaProcessMetadata → ℕ → ℕ → List Candidate
udp_process label host none port pid = []
udp_process label host (some meta) port pid =
    if contains (codes "minecraft.windows") meta.command_line
    then record {
      score = udp_score host port;
      port = port;
      pid = pid;
      local = label;
      proto = codes "UDP";
    }
      ∷ []
    else []

abbrev pub usable : Bytes → ℕ → Bool
usable host port = leb 1024 port && is_local_bind_host host

abbrev pub tcp_found :
    List (ℕ × JavaProcessMetadata) → Bytes → Option ℕ → Option (Bytes × ℕ) → List Candidate
tcp_found ps label none at = []
tcp_found ps label (some pid) none = []
tcp_found ps label (some pid) (some (host, port)) =
    if usable host port then tcp_process label (process pid ps) port pid else []

abbrev pub udp_found :
    List (ℕ × JavaProcessMetadata) → Bytes → Option ℕ → Option (Bytes × ℕ) → List Candidate
udp_found ps label none at = []
udp_found ps label (some pid) none = []
udp_found ps label (some pid) (some (host, port)) =
    if usable host port then udp_process label host (process pid ps) port pid else []

-- A line of each listing.
unfoldable pub tcp_line : List (ℕ × JavaProcessMetadata) → List Bytes → List Candidate
tcp_line ps columns =
    if starts_with (codes "TCP") (get_or columns 0 [])
      && (leb 5 (length columns) && same_text (map lower (get_or columns 3 [])) (codes "listening"))
    then tcp_found ps (get_or columns 1 []) (parse_uint (2 ^ 32) (get_or columns 4 []))
        (split_host_port_label (get_or columns 1 []))
    else []

unfoldable pub udp_line : List (ℕ × JavaProcessMetadata) → List Bytes → List Candidate
udp_line ps columns =
    if starts_with (codes "UDP") (get_or columns 0 []) && leb 4 (length columns)
    then udp_found ps (get_or columns 1 []) (parse_uint (2 ^ 32) (get_or columns 3 []))
        (split_host_port_label (get_or columns 1 []))
    else []

abbrev pub lines : (List Bytes → List Candidate) → List (List Bytes) → List Candidate
lines f [] = []
lines f (l ∷ ls) = f l ++ lines f ls
