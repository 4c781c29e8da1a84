-- ===== src/Minecraft/Ports/Listing.antt =====
-- src/minecraft.rs: `detect_lan_ports_from_system_listeners` over the lines of both listings, and
-- `detect_all_lan_ports_blocking`.
use p2p_core.Base.{
  ℕ, Bool, List, Option, [], false, if◌then◌else◌, leb, ltb, map, none, some, true, ◌++◌, ◌-◌, ◌==◌,
  ◌∷◌,
}
use p2p_core.Base.Words.{Bytes}
use p2p_core.Text.Utf8.{codes}
use p2p_core.Text.Numbers.{decimal}
use p2p_core.Minecraft.Ports.{Candidate, JavaProcessMetadata, lines, tcp_line, udp_line}

-- The stable sort by falling priority.
unfoldable pub insert_candidate : Candidate → List Candidate → List Candidate
insert_candidate c [] = c ∷ []
insert_candidate c (d ∷ ds) =
    let rest = insert_candidate c ds in if leb d.score c.score then c ∷ d ∷ ds else d ∷ rest

unfoldable pub sort_candidates : List Candidate → List Candidate
unfolding insert_candidate
sort_candidates [] = []
sort_candidates (c ∷ cs) = insert_candidate c (sort_candidates cs)

pub record LanPortDetection : Type 0 where
  pub port : ℕ
  pub source_path : Bytes
  pub source_line : Bytes

abbrev pub show_priority : ℕ → Bytes
show_priority score = if ltb score 500 then b'-' ∷ decimal (500 - score) else decimal (score - 500)

unfoldable pub detection : Candidate → LanPortDetection
detection c = record {
  port = c.port;
  source_path = codes "system:netstat+ps";
  source_line =
      codes "netstat "
      ++ (c.proto
          ++ (codes " "
              ++ (c.local
                  ++ (codes " pid "
                      ++ (decimal c.pid
                          ++ (codes " (priority " ++ (show_priority c.score ++ codes ")")))))));
}

-- The lines of a listing are none where the command fails.
unfoldable pub detect_lan_ports_from_system_listeners :
    List (ℕ × JavaProcessMetadata) → List (List Bytes) → List (List Bytes) → List LanPortDetection
unfolding sort_candidates tcp_line udp_line detection
detect_lan_ports_from_system_listeners ps tcp udp =
    map detection (sort_candidates (lines (tcp_line ps) tcp ++ lines (udp_line ps) udp))

abbrev pub has_port : ℕ → List LanPortDetection → Bool
has_port port [] = false
has_port port (d ∷ ds) = if d.port == port then true else has_port port ds

-- `entry(det.port).or_insert(det)`
unfoldable pub unique_ports : List LanPortDetection → List LanPortDetection → List LanPortDetection
unique_ports kept [] = kept
unique_ports kept (d ∷ ds) =
    unique_ports (if has_port d.port kept then kept else kept ++ (d ∷ [])) ds

-- `sort_by_key(|d| d.port)`
unfoldable pub insert_port : LanPortDetection → List LanPortDetection → List LanPortDetection
insert_port d [] = d ∷ []
insert_port d (e ∷ es) =
    let rest = insert_port d es in if leb d.port e.port then d ∷ e ∷ es else e ∷ rest

unfoldable pub sort_ports : List LanPortDetection → List LanPortDetection
unfolding insert_port
sort_ports [] = []
sort_ports (d ∷ ds) = insert_port d (sort_ports ds)

abbrev pub or_none_found : List LanPortDetection → Option (List LanPortDetection)
or_none_found [] = none
or_none_found (d ∷ ds) = some (d ∷ ds)

-- `none` is the error that there are no ports.
unfoldable pub detect_all_lan_ports : List LanPortDetection → Option (List LanPortDetection)
unfolding unique_ports sort_ports
detect_all_lan_ports all = or_none_found (sort_ports (unique_ports [] all))
