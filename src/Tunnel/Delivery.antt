-- ===== src/Tunnel/Delivery.antt =====
-- src/tunnel.rs: the bytes of a direction arrive in their order, and none but at its end is lost.
use p2p_core.Base.{
  Bool-cases, List, [], ap, append_assoc, drop, inl, inr, refl, ◌++◌, ◌∙◌, ◌∷◌, ◌≡◌, append-nil,
  some, sym, take, take-append-drop, true,
}
use p2p_core.Base.Words.{Bytes}
use p2p_core.Tunnel.{done}
use p2p_core.Tunnel.Copy.{
  Read, chunk, eof, read_error, Write, wrote, cut, IoError, copy_loop, is_connection_close, stop_at,
  accept_reverse_connection, after,
}

-- The bytes that the reads give before the first end or error.
unfoldable pub read_bytes : List (Read × Write) → Bytes
read_bytes [] = []
read_bytes ((eof, w) ∷ es) = []
read_bytes ((read_error e, w) ∷ es) = []
read_bytes ((chunk bytes, w) ∷ es) = bytes ++ read_bytes es

stop_at-written : (e : IoError) → (stop_at e).written ≡ []
unfolding stop_at
stop_at-written e = elim (Bool-cases (is_connection_close e)) [
  | inl t ↦ rw t refl
  | inr f ↦ rw f refl
]

-- Whatever fails, what a direction has written is the beginning of what it has read.
pub copy_loop-prefix :
    (es : List (Read × Write)) → (lost : Bytes) × ((copy_loop es).written ++ lost ≡ read_bytes es)
unfolding copy_loop read_bytes
copy_loop-prefix [] = ([], refl)
copy_loop-prefix ((eof, w) ∷ es) = ([], refl)
copy_loop-prefix ((read_error e, w) ∷ es) = ([], rw (stop_at-written e) refl)
copy_loop-prefix ((chunk bytes, wrote) ∷ es) =
    let (lost, e) = copy_loop-prefix es in
    (lost, append_assoc bytes (copy_loop es).written lost ∙ ap (λ t. bytes ++ t) e)
copy_loop-prefix ((chunk bytes, cut n e) ∷ es) = (
  drop n bytes ++ read_bytes es,
  rw (stop_at-written e, append-nil (take n bytes))
      (sym (append_assoc (take n bytes) (drop n bytes) (read_bytes es))
        ∙ ap (λ t. t ++ read_bytes es) (take-append-drop n bytes)),
)

-- Every write succeeds, and the last read is the end of the stream.
abbrev pub AllWritten : List (Read × Write) → Type 0
AllWritten [] = ⊥
AllWritten ((eof, w) ∷ es) = Unit {0}
AllWritten ((read_error e, w) ∷ es) = ⊥
AllWritten ((chunk bytes, w) ∷ es) = (w ≡ wrote) × AllWritten es

copy_loop-all :
    (es : List (Read × Write))
    → AllWritten es
    → copy_loop es ≡ record { written = read_bytes es; shut = true; result = some (done tt) }
unfolding copy_loop read_bytes
copy_loop-all [] h = absurd h
copy_loop-all ((eof, w) ∷ es) h = refl
copy_loop-all ((read_error e, w) ∷ es) h = absurd h
copy_loop-all ((chunk bytes, w) ∷ es) h = rw (h.0) (ap (after bytes) (copy_loop-all es h.1))

-- A connection that is accepted over an open local target hands it, in order and in full, the bytes that came with the frames and then those that are read, and shuts it down at the end of the stream, if every write succeeds.
pub accept_reverse_connection-delivers :
    (buffered : Bytes) (es : List (Read × Write))
    → AllWritten es
    → accept_reverse_connection (done tt) (done tt) (done tt) buffered wrote es
      ≡ record { written = buffered ++ read_bytes es; shut = true; result = some (done tt) }
unfolding accept_reverse_connection
accept_reverse_connection-delivers [] es h = copy_loop-all es h
accept_reverse_connection-delivers (b ∷ bs) es h = ap (after (b ∷ bs)) (copy_loop-all es h)
