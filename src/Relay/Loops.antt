-- ===== src/Relay/Loops.antt =====
-- src/wss_relay.rs: `host_loop`, `client_loop` and `client_loop_udp`, which open one session after
-- another, and the start functions that wait for the first word of them. What each session comes to
-- is an argument.
pub mod Told
pub mod FirstWord
use p2p_core.Base.{
  Bool, List, Option, String, Outcome, [], err, false, if◌then◌else◌, none, ok, some, true, ◌++◌,
  ◌∷◌,
}

-- What is sent through `ready_tx`: `Ok(())`, or an error by its text.
pub data Word : Type 0 where
  ready : Word
  failure : String → Word

-- One turn of a loop: the looks at the token before and after the session, whether the session got
-- as far as its `Ok(())`, and its result, `none` for `Ok(())`.
pub record Turn : Type 0 where
  pub cancelled_before : Bool
  pub got_ready : Bool
  pub cancelled_after : Bool
  pub failed : Option String

-- `ready_signal`: whether the sender is still there, and what was sent.
pub record Signal : Type 0 where
  pub waiting : Bool
  pub told : List Word

-- `if let Some(tx) = ready_signal.take() { tx.send(..) }`
abbrev pub tell : Word → Signal → Signal
tell w s = if s.waiting then record { waiting = false; told = s.told ++ (w ∷ []) } else s

abbrev pub after_session : Turn → Signal → Signal
after_session t s = if t.got_ready then tell ready s else s

-- `going_on` is a loop that has not ended with the turns that are given.
pub data LoopEnd : Type 0 where
  returned_ok going_on : LoopEnd
  returned_err : String → LoopEnd

-- What comes after a session, with the loop's next turns as `again`.
unfoldable pub host_turn : Turn → (Signal → Signal × LoopEnd) → Signal → Signal × LoopEnd
host_turn t again after =
    if t.cancelled_after
    then (after, returned_ok)
    else elim t.failed [ none ↦ again after | some e ↦ again (tell (failure e) after) ]

unfoldable pub host_loop : List Turn → Signal → Signal × LoopEnd
host_loop [] s = (s, going_on)
host_loop (t ∷ ts) s =
    let again : Signal → Signal × LoopEnd = λ u. host_loop ts u in
    if t.cancelled_before then (s, returned_ok) else host_turn t again (after_session t s)

-- `says_not_found` is whether the error's text, in lower case, contains "not found".
unfoldable pub client_turn :
    (String → Bool) → Turn → (Signal → Signal × LoopEnd) → Signal → Signal × LoopEnd
client_turn says_not_found t again after =
    if t.cancelled_after then (after, returned_ok) else elim t.failed [
      | none ↦ again after
      | some e ↦
          let told = tell (failure e) after in
          if says_not_found e then (told, returned_err e) else again told
    ]

unfoldable pub client_loop : (String → Bool) → List Turn → Signal → Signal × LoopEnd
client_loop says_not_found [] s = (s, going_on)
client_loop says_not_found (t ∷ ts) s =
    let again : Signal → Signal × LoopEnd = λ u. client_loop says_not_found ts u in
    if t.cancelled_before
    then (s, returned_ok)
    else client_turn says_not_found t again (after_session t s)

-- The loop for a Bedrock game ends, with `Ok(())`, when it fails before it was ready.
unfoldable pub udp_turn : Turn → (Signal → Signal × LoopEnd) → Signal → Signal × LoopEnd
udp_turn t again after = if t.cancelled_after then (after, returned_ok) else elim t.failed [
  | none ↦ again after
  | some e ↦ if after.waiting then (tell (failure e) after, returned_ok) else again after
]

unfoldable pub client_loop_udp : List Turn → Signal → Signal × LoopEnd
client_loop_udp [] s = (s, going_on)
client_loop_udp (t ∷ ts) s =
    let again : Signal → Signal × LoopEnd = λ u. client_loop_udp ts u in
    if t.cancelled_before then (s, returned_ok) else udp_turn t again (after_session t s)

pub data StartError : Type 0 where
  timed_out channel_dropped : StartError
  loop_failed : String → StartError

-- The wait of the start functions for the signal of their loop; `in_time` is whether something comes
-- or the loop ends within 12 seconds.
abbrev pub started : Bool → List Word → Outcome StartError Bool
started in_time [] = if in_time then err channel_dropped else err timed_out
started in_time (ready ∷ ws) = if in_time then ok true else err timed_out
started in_time (failure e ∷ ws) = if in_time then err (loop_failed e) else err timed_out

abbrev pub unanswered : Signal
unanswered = record { waiting = true; told = [] }

unfoldable pub start_host_runtime : Bool → List Turn → Outcome StartError Bool
start_host_runtime in_time ts = started in_time (host_loop ts unanswered).0.told

unfoldable pub start_client_runtime : (String → Bool) → Bool → List Turn → Outcome StartError Bool
start_client_runtime says_not_found in_time ts =
    started in_time (client_loop says_not_found ts unanswered).0.told

unfoldable pub start_client_runtime_udp : Bool → List Turn → Outcome StartError Bool
start_client_runtime_udp in_time ts = started in_time (client_loop_udp ts unanswered).0.told
