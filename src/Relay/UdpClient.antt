-- ===== src/Relay/UdpClient.antt =====
-- src/wss_relay.rs: `client_session_udp`, the client of a Bedrock game. Its one local socket takes
-- the packets of every sender; what comes back goes to the last of them.
use p2p_core.Base.{
  nat_key, ℕ, Bool, List, Option, [], append-nil, arith, if◌then◌else◌, none, some, sym, ◌++◌, ◌==◌,
  ◌∷◌, ◌≡◌, ==_iff, Bool-cases, ap, append_assoc, ap₂, false, inl, inr, refl, true, ◌∙◌,
}
use p2p_core.Base.Words.{Bytes}
use p2p_core.Net.{SocketAddr}
use p2p_core.Relay.{Frame, encode_frame, frame_data, frame_ping, frame_pong, frame_ready}
use p2p_core.Relay.Host.{Session, binary, send, on_pong}
use p2p_core.Relay.Client.{Ready, on_ready}

-- The session's map of streams stays empty. `sent_to` is what the local socket sent.
pub record UdpClient : Type 0 where
  pub session : Session
  pub last_client_addr : Option SocketAddr
  pub sent_to : List (SocketAddr × Bytes)
  pub ready : Ready

-- A packet that `recv_from` gives.
unfoldable pub udp_receive : SocketAddr → Bytes → UdpClient → UdpClient
udp_receive a p c = record c {
  last_client_addr = some a;
  session = send (binary (encode_frame frame_data 0 p)) c.session;
}

unfoldable pub udp_data : Bytes → Option SocketAddr → UdpClient → UdpClient
udp_data p none c = c
udp_data p (some a) c = record c { sent_to = c.sent_to ++ ((a, p) ∷ []) }

unfoldable pub dispatch_udp : ℕ → Bool → Frame → UdpClient → UdpClient
dispatch_udp now report f c =
    if f.kind == frame_ready
    then record c { ready = on_ready c.ready }
    else if f.kind == frame_data
    then udp_data f.payload c.last_client_addr c
    else if f.kind == frame_ping
    then record c {
      session = send (binary (encode_frame frame_pong f.stream_id f.payload)) c.session;
    }
    else if f.kind == frame_pong
    then record c { session = on_pong now report f c.session }
    else c

-- The packets of the game and the frames of the host, in any order.
pub data UdpEvent : Type 0 where
  packet : SocketAddr → Bytes → UdpEvent
  frame : ℕ → Bool → Frame → UdpEvent

abbrev pub udp_step : UdpEvent → UdpClient → UdpClient
udp_step (packet a p) c = udp_receive a p c
udp_step (frame now report f) c = dispatch_udp now report f c

abbrev pub udp_run : List UdpEvent → UdpClient → UdpClient
udp_run [] c = c
udp_run (e ∷ es) c = udp_run es (udp_step e c)

-- An independent account of the replies: the sender at the time of each DATA frame.
abbrev pub replies : List UdpEvent → Option SocketAddr → List (SocketAddr × Bytes)
replies [] last = []
replies (packet a p ∷ es) last = replies es (some a)
replies (frame now report f ∷ es) none = replies es none
replies (frame now report f ∷ es) (some a) =
    if f.kind == frame_data then (a, f.payload) ∷ replies es (some a) else replies es (some a)

udp_data-addr :
    (p : Bytes) (o : Option SocketAddr) (c : UdpClient)
    → (udp_data p o c).last_client_addr ≡ c.last_client_addr
unfolding udp_data
udp_data-addr p none c = refl
udp_data-addr p (some a) c = refl

-- What a frame sends to an address.
abbrev pub reply_of : Frame → Option SocketAddr → List (SocketAddr × Bytes)
reply_of f none = []
reply_of f (some a) = if f.kind == frame_data then (a, f.payload) ∷ [] else []

udp_data-sent_to :
    (f : Frame) (o : Option SocketAddr) (c : UdpClient)
    → f.kind ≡ frame_data
    → (udp_data f.payload o c).sent_to ≡ c.sent_to ++ reply_of f o
unfolding udp_data
udp_data-sent_to f none c h = sym (append-nil c.sent_to)
udp_data-sent_to f (some a) c h =
    let e : (f.kind == frame_data) ≡ true = ground (arith, h) in rw e refl

reply_of-other :
    (f : Frame) (o : Option SocketAddr) → (f.kind == frame_data) ≡ false → reply_of f o ≡ []
reply_of-other f none h = refl
reply_of-other f (some a) h = rw h refl

dispatch_udp-sent_to :
    (now : ℕ) (report : Bool) (f : Frame) (c : UdpClient)
    → (dispatch_udp now report f c).sent_to ≡ c.sent_to ++ reply_of f c.last_client_addr
unfolding dispatch_udp
dispatch_udp-sent_to now report f c = elim (Bool-cases (f.kind == frame_data)) [
  | inl e ↦
      let k : f.kind ≡ frame_data = (==_iff f.kind frame_data).0 e in
      let r : (f.kind == frame_ready) ≡ false = ground (arith, k) in
      rw (r, e) (udp_data-sent_to f c.last_client_addr c k)
  | inr e ↦ rw (reply_of-other f c.last_client_addr e) (ground (arith, append-nil c.sent_to))
]

replies-frame :
    (now : ℕ) (report : Bool) (f : Frame) (es : List UdpEvent) (o : Option SocketAddr)
    → replies (frame now report f ∷ es) o ≡ reply_of f o ++ replies es o
replies-frame now report f es none = refl
replies-frame now report f es (some a) = ground arith

dispatch_udp-addr :
    (now : ℕ) (report : Bool) (f : Frame) (c : UdpClient)
    → (dispatch_udp now report f c).last_client_addr ≡ c.last_client_addr
unfolding dispatch_udp
dispatch_udp-addr now report f c = ground (arith, udp_data-addr f.payload c.last_client_addr c)

-- Every DATA frame goes to the address that the latest packet before it came from, in the order of
-- the frames; one that comes before any packet goes nowhere.
pub udp_run-replies :
    (es : List UdpEvent) (c : UdpClient)
    → (udp_run es c).sent_to ≡ c.sent_to ++ replies es c.last_client_addr
unfolding udp_receive
udp_run-replies [] c = sym (append-nil c.sent_to)
udp_run-replies (packet a p ∷ es) c = udp_run-replies es (udp_receive a p c)
udp_run-replies (frame now report f ∷ es) c =
    let d = dispatch_udp now report f c in
    let last = c.last_client_addr in
    udp_run-replies es d
    ∙ ap₂ (λ t o. t ++ replies es o) (dispatch_udp-sent_to now report f c)
        (dispatch_udp-addr now report f c)
    ∙ append_assoc c.sent_to (reply_of f last) (replies es last)
    ∙ ap (λ t. c.sent_to ++ t) (sym (replies-frame now report f es last))
