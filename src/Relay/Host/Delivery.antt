-- ===== src/Relay/Host/Delivery.antt =====
-- The bytes of an open stream arrive whole and in their order, whatever else arrives between them.
use p2p_core.Base.{
  nat_key, ℕ, ==_iff, Bool, Bool-cases, List, [], ap, append-nil, arith, contains_key, false,
  if◌then◌else◌, inl, inr, lookup, none, refl, some, sym, true, ◌++◌, ◌==◌, ◌∙◌, ◌∷◌, ◌≡◌, ◌≢◌, All,
  append_assoc, map, ok,
}
use p2p_core.Relay.{Zstd, Frame, decode_frame, frame_data}
use p2p_core.Relay.Host.{
  Session, Sockets, Event, message, binary, dispatch_host, host_reader, clean, handle_host_frame,
  on_data, deliver,
}
use p2p_core.Relay.Host.Isolation.{given_to, given_to-append, SameStream, dispatch_host-SameStream}
use p2p_core.Base.Words.{Bytes}

-- The stream is in the map.
abbrev pub IsOpen : ℕ → Session → Type 0
IsOpen b s = contains_key b s.streams ≡ true

contains_key-is_some :
    {V : Type 0} (a : ℕ) (m : List (ℕ × V))
    → contains_key a m ≡ elim (lookup a m) [ none ↦ false | some _ ↦ true ]
contains_key-is_some a [] = refl
contains_key-is_some a ((b, v) ∷ m) = elim (Bool-cases (b == a)) [
  | inl e ↦ rw e refl
  | inr e ↦ rw e (contains_key-is_some a m)
]

pub contains_key-lookup :
    {V : Type 0} (a b : ℕ) (m n : List (ℕ × V))
    → lookup a m ≡ lookup b n
    → contains_key a m ≡ contains_key b n
contains_key-lookup a b m n h =
    contains_key-is_some a m
    ∙ ap (λ o. elim o [ none ↦ false | some _ ↦ true ]) h
    ∙ sym (contains_key-is_some b n)

-- The payloads that the frames carry for one stream.
abbrev pub chunks_for : ℕ → List Frame → List Bytes
chunks_for b [] = []
chunks_for b (f ∷ fs) = if f.stream_id == b then f.payload ∷ chunks_for b fs else chunks_for b fs

chunks_for-cons :
    (b : ℕ) (f : Frame) (fs : List Frame)
    → chunks_for b (f ∷ fs) ≡ chunks_for b (f ∷ []) ++ chunks_for b fs
chunks_for-cons b f fs = elim (Bool-cases (f.stream_id == b)) [
  | inl e ↦ rw e refl
  | inr e ↦ rw e refl
]

-- What names stream b is a DATA frame.
abbrev pub OnlyData : ℕ → Frame → Type 0
OnlyData b f = f.stream_id ≡ b → f.kind ≡ frame_data

dispatch_host-data :
    (net : Sockets) (now : ℕ) (report : Bool) (f : Frame) (s : Session)
    → f.kind ≡ frame_data
    → IsOpen f.stream_id s
    → dispatch_host net now report f s
      ≡ record s { delivered = s.delivered ++ ((f.stream_id, f.payload) ∷ []) }
unfolding dispatch_host on_data deliver
dispatch_host-data net now report f s kind h = rw (kind, h) refl

-- One frame gives stream b its chunk and keeps it open.
Delivered : ℕ → Frame → Session → Session → Type 0
Delivered b f s t =
    IsOpen b t × (given_to b t.delivered ≡ given_to b s.delivered ++ chunks_for b (f ∷ []))

dispatch_host-Delivered :
    (b : ℕ) (net : Sockets) (now : ℕ) (report : Bool) (f : Frame) (s : Session)
    → OnlyData b f
    → IsOpen b s
    → Delivered b f s (dispatch_host net now report f s)
unfolding Delivered SameStream
dispatch_host-Delivered b net now report f s only h = elim (Bool-cases (f.stream_id == b)) [
  | inl mine ↦
      let e : f.stream_id ≡ b = (==_iff f.stream_id b).0 mine in
      let here : IsOpen f.stream_id s = rw e h in
      rw (dispatch_host-data net now report f s (only e) here, mine)
        (h, given_to-append b s.delivered ((f.stream_id, f.payload) ∷ []) ∙ rw mine refl)
  | inr other ↦
      let ne : f.stream_id ≢ b = λ e. ground (arith, e, other) in
      let same = dispatch_host-SameStream b net now report f s ne in
      rw other (
        sym (contains_key-lookup b b s.streams _ same.0) ∙ h,
        sym same.1 ∙ sym (append-nil (given_to b s.delivered)),
      )
]

-- The event is a binary message that reads as the frame.
abbrev pub Carries : Zstd → Event → Frame → Type 0
Carries zstd e f =
    (raw : Bytes) × (e.incoming ≡ message (binary raw)) × (decode_frame zstd raw ≡ ok f)

module _ (zstd : Zstd) where
  pub host_reader-frame :
      (report : Bool) (e : Event) (f : Frame) (es : List Event) (s : Session)
      → Carries zstd e f
      → host_reader zstd report (e ∷ es) s
        ≡ host_reader zstd report es (dispatch_host e.net e.now report f s)
  unfolding host_reader handle_host_frame
  host_reader-frame report e f es s (raw, is, reads) = rw (is, reads) refl

  -- The frames one after the other, without the loop.
  abbrev pub run_frames : Bool → List (Event × Frame) → Session → Session
  run_frames report [] s = s
  run_frames report ((e, f) ∷ fs) s = run_frames report fs (dispatch_host e.net e.now report f s)

  pub host_reader-frames :
      (report : Bool) (fs : List (Event × Frame)) (es : List Event) (s : Session)
      → All (λ p. Carries zstd p.0 p.1) fs
      → host_reader zstd report (map (λ p. p.0) fs ++ es) s
        ≡ host_reader zstd report es (run_frames report fs s)
  host_reader-frames report [] es s reads = refl
  host_reader-frames report ((e, f) ∷ fs) es s reads =
      host_reader-frame report e f (map (λ p. p.0) fs ++ es) s reads.0
      ∙ host_reader-frames report fs es (dispatch_host e.net e.now report f s) reads.1

  pub run_frames-delivers :
      (b : ℕ) (report : Bool) (fs : List (Event × Frame)) (s : Session)
      → All (λ p. OnlyData b p.1) fs
      → IsOpen b s
      → let t = run_frames report fs s in
        IsOpen b t
        × (given_to b t.delivered ≡ given_to b s.delivered ++ chunks_for b (map (λ p. p.1) fs))
  unfolding Delivered
  run_frames-delivers b report [] s only h = (h, sym (append-nil (given_to b s.delivered)))
  run_frames-delivers b report ((e, f) ∷ fs) s only h =
      let one = dispatch_host-Delivered b e.net e.now report f s only.0 h in
      let t = dispatch_host e.net e.now report f s in
      let rest = run_frames-delivers b report fs t only.1 one.0 in
      let chunks = chunks_for b (map (λ p. p.1) fs) in
      (
        rest.0,
        rest.1
            ∙ ap (λ u. u ++ chunks) one.1
            ∙ append_assoc (given_to b s.delivered) (chunks_for b (f ∷ [])) chunks
            ∙ ap (λ u. given_to b s.delivered ++ u) (sym (chunks_for-cons b f (map (λ p. p.1) fs))),
      )

  -- Frames that read well, those of stream b all DATA: the reader loop gives an open stream b
  -- exactly the payloads of its frames, in their order, and leaves it open, whatever the frames of
  -- the other streams between them do.
  pub host_reader-delivers :
      (b : ℕ) (report : Bool) (fs : List (Event × Frame)) (s : Session)
      → All (λ p. Carries zstd p.0 p.1) fs
      → All (λ p. OnlyData b p.1) fs
      → contains_key b s.streams ≡ true
      → let r = host_reader zstd report (map (λ p. p.0) fs ++ []) s in
        (given_to b r.0.delivered ≡ given_to b s.delivered ++ chunks_for b (map (λ p. p.1) fs))
        × (contains_key b r.0.streams ≡ true)
        × (r.1 ≡ clean)
  unfolding host_reader
  host_reader-delivers b report fs s reads only h =
      let run = run_frames-delivers b report fs s only h in
      rw (host_reader-frames report fs [] s reads) (run.1, run.0, refl)
