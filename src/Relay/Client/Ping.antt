-- ===== src/Relay/Client/Ping.antt =====
-- The round trip of a keepalive: the client's PING, the host's PONG, the client's time.
use p2p_core.Base.{nat_key, ℕ, Bool, [], arith, ok, refl, true, ◌++◌, ◌-◌, ◌<◌, ◌^◌, ◌∷◌, ◌≡◌, ap}
use p2p_core.Base.Words.{from_be-to_be, to_be, Bytes}
use p2p_core.Relay.{Zstd, encode_frame, frame_ping, frame_pong}
use p2p_core.Relay.Frames.{decode-encode}
use p2p_core.Relay.Host.{Session, Sockets, binary, dispatch_host, handle_host_frame, on_pong, send}
use p2p_core.Relay.Client.{Client, client_frame, dispatch_client, handle_client_frame, on_session}

-- The frames of a keepalive sent at a time in milliseconds.
abbrev pub ping_at : ℕ → Bytes
ping_at t = encode_frame frame_ping 0 (to_be 8 t)

abbrev pub pong_at : ℕ → Bytes
pong_at t = encode_frame frame_pong 0 (to_be 8 t)

module _ (zstd : Zstd) where
  host_answers :
      (net : Sockets) (now sent_at : ℕ) (report : Bool) (s : Session)
      → handle_host_frame zstd net now report (ping_at sent_at) s
        ≡ ok (send (binary (pong_at sent_at)) s)
  unfolding handle_host_frame dispatch_host
  host_answers net now sent_at report s =
      rw (decode-encode zstd frame_ping 0 (to_be 8 sent_at) (λ e. omega arith) (omega arith)) refl

  on_pong-timed :
      (now sent_at : ℕ) (s : Session)
      → sent_at < 2 ^ 64
      → on_pong now true (record { kind = frame_pong; stream_id = 0; payload = to_be 8 sent_at }) s
        ≡ record s { pings = s.pings ++ ((now - sent_at) ∷ []) }
  unfolding on_pong
  on_pong-timed now sent_at s h =
      ap (λ t. record s { pings = s.pings ++ ((now - t) ∷ []) }) (from_be-to_be 8 sent_at h)

  -- A PING of the client, answered by the host whenever it reads it, makes the client report the
  -- time between its own two readings of the clock, 0 if the clock went back; the host's clock and
  -- the frames of the streams play no part.
  pub ping_measures :
      (net : Sockets) (host_now sent_at now : ℕ) (host_report : Bool) (s : Session) (c : Client)
      → sent_at < 2 ^ 64
      → (handle_host_frame zstd net host_now host_report (ping_at sent_at) s
          ≡ ok (send (binary (pong_at sent_at)) s))
        × (handle_client_frame zstd now true (pong_at sent_at) c
            ≡ ok (on_session (λ t. record t { pings = t.pings ++ ((now - sent_at) ∷ []) }) c))
  unfolding handle_client_frame dispatch_client client_frame on_session
  ping_measures net host_now sent_at now host_report s c h = (
    host_answers net host_now sent_at host_report s,
    rw
        (
          decode-encode zstd frame_pong 0 (to_be 8 sent_at) (λ e. omega arith) (omega arith),
          on_pong-timed now sent_at c.session h,
        )
        refl,
  )
