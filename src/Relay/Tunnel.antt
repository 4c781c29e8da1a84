-- ===== src/Relay/Tunnel.antt =====
-- One stream through the relay: what the client's pump queues, read by the host's loop.
use p2p_core.Base.{
  nat_key, ℕ, List, [], ap, append_assoc, refl, remove, true, ◌++◌, ◌∙◌, ◌∷◌, ◌≡◌, All, Bool, arith,
  contains_key, lookup, lookup-remove, map, none, ◌<◌, ◌==◌, ◌^◌,
}
use p2p_core.Relay.{
  Zstd, Frame, frame_data, frame_close, encode_frame, encode_data_frame_maybe_compressed,
}
use p2p_core.Relay.Frames.{decode-encode, decode-encode_maybe_compressed}
use p2p_core.Relay.Host.{
  binary, clean, Session, Sockets, Event, Message, message, host_reader, dispatch_host,
}
use p2p_core.Relay.Host.Delivery.{
  run_frames, run_frames-delivers, host_reader-frames, chunks_for, OnlyData, Carries,
  host_reader-frame,
}
use p2p_core.Relay.Host.Isolation.{given_to}
use p2p_core.Relay.Pumps.{Read, chunk, pump_reader_to_ws}
use p2p_core.Base.Words.{Bytes}

-- Reads that succeed, none of them empty, on a queue that is read.
abbrev pub reads_of : List (ℕ × Bytes) → List Read
reads_of [] = []
reads_of ((b, bs) ∷ cs) = chunk (b ∷ bs) true ∷ reads_of cs

abbrev pub chunks_of : List (ℕ × Bytes) → List Bytes
chunks_of [] = []
chunks_of ((b, bs) ∷ cs) = (b ∷ bs) ∷ chunks_of cs

abbrev pub data_messages : Zstd → ℕ → List (ℕ × Bytes) → List Message
data_messages zstd id [] = []
data_messages zstd id ((b, bs) ∷ cs) =
    binary (encode_data_frame_maybe_compressed zstd id (b ∷ bs)) ∷ data_messages zstd id cs

module _ (zstd : Zstd) where
  -- The pump queues a DATA frame for each chunk, in order, then exactly one CLOSE, and takes the
  -- stream out of the map.
  pub pump_reader_to_ws-reads :
      (id : ℕ) (cs : List (ℕ × Bytes)) (s : Session)
      → pump_reader_to_ws zstd id (reads_of cs) s ≡ record s {
        sent =
            s.sent ++ (data_messages zstd id cs ++ (binary (encode_frame frame_close id []) ∷ []));
        streams = remove id s.streams;
      }
  unfolding pump_reader_to_ws
  pump_reader_to_ws-reads id [] s = refl
  pump_reader_to_ws-reads id ((b, bs) ∷ cs) s =
      pump_reader_to_ws-reads id cs _
      ∙ ap (λ t. record s { sent = t; streams = remove id s.streams }) (append_assoc s.sent _ _)

  -- The messages as they come upon the host.
  abbrev pub arriving : Sockets → ℕ → List Message → List Event
  arriving net now [] = []
  arriving net now (m ∷ ms) =
      record { net = net; now = now; incoming = message m } ∷ arriving net now ms

  abbrev data_frames : Sockets → ℕ → ℕ → List (ℕ × Bytes) → List (Event × Frame)
  data_frames net now id [] = []
  data_frames net now id ((b, bs) ∷ cs) =
      (
        record {
          net = net;
          now = now;
          incoming = message (binary (encode_data_frame_maybe_compressed zstd id (b ∷ bs)));
        },
        record { kind = frame_data; stream_id = id; payload = b ∷ bs },
      )
      ∷ data_frames net now id cs

  data_frames-events :
      (net : Sockets) (now id : ℕ) (cs : List (ℕ × Bytes)) (ms : List Message)
      → arriving net now (data_messages zstd id cs ++ ms)
        ≡ map (λ p. p.0) (data_frames net now id cs) ++ arriving net now ms
  data_frames-events net now id [] ms = refl
  data_frames-events net now id ((b, bs) ∷ cs) ms =
      let chunk_event : Event = record {
        net = net;
        now = now;
        incoming = message (binary (encode_data_frame_maybe_compressed zstd id (b ∷ bs)));
      } in
      ap (λ t. chunk_event ∷ t) (data_frames-events net now id cs ms)

  data_frames-Carries :
      (net : Sockets) (now id : ℕ) (cs : List (ℕ × Bytes))
      → id < 2 ^ 64
      → All (λ p. Carries zstd p.0 p.1) (data_frames net now id cs)
  data_frames-Carries net now id [] h = tt
  data_frames-Carries net now id ((b, bs) ∷ cs) h = (
    (_, refl, decode-encode_maybe_compressed zstd id (b ∷ bs) h),
    data_frames-Carries net now id cs h,
  )

  data_frames-OnlyData :
      (net : Sockets) (now id : ℕ) (cs : List (ℕ × Bytes))
      → All (λ p. OnlyData id p.1) (data_frames net now id cs)
  data_frames-OnlyData net now id [] = tt
  data_frames-OnlyData net now id ((b, bs) ∷ cs) = (λ e. refl, data_frames-OnlyData net now id cs)

  data_frames-chunks :
      (net : Sockets) (now id : ℕ) (cs : List (ℕ × Bytes))
      → chunks_for id (map (λ p. p.1) (data_frames net now id cs)) ≡ chunks_of cs
  data_frames-chunks net now id [] = refl
  data_frames-chunks net now id ((b, bs) ∷ cs) =
      let same : (id == id) ≡ true = ground arith in
      rw same (ap (λ t. (b ∷ bs) ∷ t) (data_frames-chunks net now id cs))

  abbrev close_event : Sockets → ℕ → ℕ → Event
  close_event net now id = record {
    net = net;
    now = now;
    incoming = message (binary (encode_frame frame_close id []));
  }

  host_reader-close :
      (net : Sockets) (now id : ℕ) (report : Bool) (s : Session)
      → id < 2 ^ 64
      → host_reader zstd report (close_event net now id ∷ []) s
        ≡ (record s { streams = remove id s.streams }, clean)
  unfolding host_reader dispatch_host
  host_reader-close net now id report s h =
      host_reader-frame zstd report (close_event net now id) _ [] s
        (_, refl, decode-encode zstd frame_close id [] (λ e. omega arith) h)

  -- What the client's pump queues for one stream, read by the host's loop with that stream open:
  -- the stream's channel gets the chunks as they were read, in their order and nothing else, the
  -- stream ends up closed, and the loop goes through without an error.
  pub tunnel_carries :
      (net : Sockets) (now id : ℕ) (report : Bool) (cs : List (ℕ × Bytes)) (c s : Session)
      → id < 2 ^ 64
      → c.sent ≡ []
      → contains_key id s.streams ≡ true
      → let queued = (pump_reader_to_ws zstd id (reads_of cs) c).sent in
        let r = host_reader zstd report (arriving net now queued) s in
        (given_to id r.0.delivered ≡ given_to id s.delivered ++ chunks_of cs)
        × (lookup id r.0.streams ≡ none)
        × (r.1 ≡ clean)
  tunnel_carries net now id report cs c s h empty open_id =
      let fs = data_frames net now id cs in
      let t = run_frames zstd report fs s in
      let run =
        run_frames-delivers zstd id report fs s (data_frames-OnlyData net now id cs) open_id in
      let same : (id == id) ≡ true = ground arith in
      rw
        (
          pump_reader_to_ws-reads id cs c,
          empty,
          data_frames-events net now id cs (binary (encode_frame frame_close id []) ∷ []),
          host_reader-frames zstd report fs (close_event net now id ∷ []) s
              (data_frames-Carries net now id cs h),
          host_reader-close net now id report t h,
        )
        (
          run.1 ∙ ap (λ u. given_to id s.delivered ++ u) (data_frames-chunks net now id cs),
          lookup-remove id id t.streams ∙ rw same refl,
          refl,
        )
