-- ===== src/Tunnel/Copy.antt =====
-- src/tunnel.rs: `copy_bidirectional_tolerant`, one direction at a time, and the connection that
-- `accept_reverse_connection` bridges.
use p2p_core.Base.{
  ℕ, Bool, List, Option, String, [], false, if◌then◌else◌, none, some, take, true, ◌++◌, ◌∷◌,
}
use p2p_core.Base.Words.{Bytes}
use p2p_core.Text.{◌⧺◌}
use p2p_core.Tunnel.{Result, done, failed}

pub data ErrorKind : Type 0 where
  connection_reset broken_pipe unexpected_eof connection_aborted other_kind : ErrorKind

pub record IoError : Type 0 where
  pub kind : ErrorKind
  pub text : String

abbrev pub is_close_kind : ErrorKind → Bool
is_close_kind connection_reset = true
is_close_kind broken_pipe = true
is_close_kind unexpected_eof = true
is_close_kind connection_aborted = true
is_close_kind other_kind = false

unfoldable pub is_connection_close : IoError → Bool
is_connection_close e = is_close_kind e.kind

-- A read gives some bytes, the end, or an error.
pub data Read : Type 0 where
  chunk : Bytes → Read
  eof : Read
  read_error : IoError → Read

-- `write_all` writes all, or the first bytes and then fails.
pub data Write : Type 0 where
  wrote : Write
  cut : ℕ → IoError → Write

-- What a direction has written, whether it has shut its writer down, and its result, which is `none`
-- while it waits.
pub record Direction : Type 0 where
  pub written : Bytes
  pub shut : Bool
  pub result : Option (Result (Unit {0}))

-- The end of the loop at an error: tolerated, it is the end of the stream.
unfoldable pub stop_at : IoError → Direction
unfolding is_connection_close
stop_at e =
    if is_connection_close e
    then record { written = []; shut = true; result = some (done tt) }
    else record { written = []; shut = false; result = some (failed e.text) }

abbrev pub after : Bytes → Direction → Direction
after bytes d = record { written = bytes ++ d.written; shut = d.shut; result = d.result }

abbrev pub turn : Bytes → Write → Direction → Direction
turn bytes wrote rest = after bytes rest
turn bytes (cut n e) rest = after (take n bytes) (stop_at e)

-- Each read with the write that would follow it.
unfoldable pub copy_loop : List (Read × Write) → Direction
unfolding stop_at
copy_loop [] = record { written = []; shut = false; result = none }
copy_loop ((eof, w) ∷ es) = record { written = []; shut = true; result = some (done tt) }
copy_loop ((read_error e, w) ∷ es) = stop_at e
copy_loop ((chunk bytes, w) ∷ es) = turn bytes w (copy_loop es)

-- `accept_reverse_connection`: what the local target gets, and the result of that direction. The
-- bytes that came with the frames are written first.
abbrev pub buffered_first : Bytes → Write → List (Read × Write) → Direction
buffered_first buffered wrote es = after buffered (copy_loop es)
buffered_first buffered (cut n e) es = record {
  written = take n buffered;
  shut = false;
  result = some (failed ("не удалось отправить buffered bytes в локальный target: " ⧺ e.text));
}

abbrev pub failing : String → Direction
failing e = record { written = []; shut = false; result = some (failed e) }

abbrev pub local_opened : Result (Unit {0}) → Bytes → Write → List (Read × Write) → Direction
local_opened (failed e) buffered wrote_buffered es =
    failing ("не удалось подключиться к локальному target: " ⧺ e)
local_opened (done opened) [] wrote_buffered es = copy_loop es
local_opened (done opened) (b ∷ bs) wrote_buffered es = buffered_first (b ∷ bs) wrote_buffered es

abbrev pub accept_sent :
    Result (Unit {0}) → Result (Unit {0}) → Bytes → Write → List (Read × Write) → Direction
accept_sent (failed e) opened buffered wrote_buffered es =
    failing ("не удалось отправить Accept на reverse tunnel server: " ⧺ e)
accept_sent (done sent) opened buffered wrote_buffered es =
    local_opened opened buffered wrote_buffered es

unfoldable pub accept_reverse_connection :
    Result (Unit {0})
    → Result (Unit {0})
    → Result (Unit {0})
    → Bytes
    → Write
    → List (Read × Write)
    → Direction
unfolding copy_loop
accept_reverse_connection (failed e) sent opened buffered wrote_buffered es = failing e
accept_reverse_connection (done connected) sent opened buffered wrote_buffered es =
    accept_sent sent opened buffered wrote_buffered es
