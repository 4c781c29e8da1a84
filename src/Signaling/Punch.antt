-- ===== src/Signaling/Punch.antt =====
-- signaling.rs: `punch_remote`, which opens the NAT for a peer by sending packets to its port and to
-- the ports around it. The packets are the list of their targets, in the order of sending.
-- `cancelled n` is what the n-th look at the cancellation token finds.
pub mod Reach
use p2p_core.Base.{
  ℕ, Bool, List, [], get_or, if◌then◌else◌, leb, length, ltb, suc, zero, ◌%◌, ◌++◌, ◌+◌, ◌-◌, ◌∷◌,
}
use p2p_core.Net.{SocketAddr, same_addr}

abbrev pub fast_burst_packets : ℕ
fast_burst_packets = 150

abbrev pub sustain_packets : ℕ
sustain_packets = 150

abbrev pub with_port : SocketAddr → ℕ → SocketAddr
with_port a p = record { ip = a.ip; port = p }

-- `base_port.checked_add(offset)` and `checked_sub`, over u16
abbrev pub predicted : SocketAddr → ℕ → List SocketAddr
predicted remote offset =
    (if ltb (remote.port + offset) 65536 then with_port remote (remote.port + offset) ∷ [] else [])
    ++ (if leb offset remote.port then with_port remote (remote.port - offset) ∷ [] else [])

-- The offsets from `offset` on, `n` of them.
unfoldable pub predict : ℕ → ℕ → SocketAddr → List SocketAddr
predict zero offset remote = []
predict (suc n) offset remote = predicted remote offset ++ predict n (offset + 1) remote

unfoldable pub targets : SocketAddr → List SocketAddr
unfolding predict
targets remote = remote ∷ predict 100 1 remote

-- The packets of one round: the port itself, and the target whose turn it is.
unfoldable pub punch_round : SocketAddr → List SocketAddr → ℕ → List SocketAddr
punch_round remote ts i =
    let target = get_or ts (i % length ts) remote in
    remote ∷ (if same_addr target remote then [] else target ∷ [])

-- One of the two loops: `n` rounds from round `i` on, the token looked at for the `looks`-th time.
-- It gives back the packets and the number of looks.
unfoldable pub punch_loop :
    (ℕ → Bool) → SocketAddr → List SocketAddr → ℕ → ℕ → ℕ → List SocketAddr × ℕ
punch_loop cancelled remote ts zero i looks = ([], looks)
punch_loop cancelled remote ts (suc n) i looks =
    let (later, looks') = punch_loop cancelled remote ts n (i + 1) (looks + 1) in
    if cancelled looks then ([], looks + 1) else (punch_round remote ts i ++ later, looks')

unfoldable pub punch_remote : (ℕ → Bool) → SocketAddr → List SocketAddr
punch_remote cancelled remote =
    let ts = targets remote in
    let (fast, looks) = punch_loop cancelled remote ts fast_burst_packets 0 0 in
    let (sustained, _) = punch_loop cancelled remote ts sustain_packets 0 looks in fast ++ sustained
