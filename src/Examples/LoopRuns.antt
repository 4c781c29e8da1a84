-- ===== src/Examples/LoopRuns.antt =====
-- The reconnect loops of src/wss_relay.rs at concrete turns.
use p2p_core.Base.{String, Bool, List, [], err, false, none, refl, some, str_eq, true, ◌∷◌, ◌≡◌}
use p2p_core.Relay.Loops.{
  Turn, failure, host_loop, client_loop, client_loop_udp, unanswered, returned_err,
  start_client_runtime, start_host_runtime, start_client_runtime_udp, loop_failed, client_turn,
  host_turn, udp_turn,
}
use p2p_core.Relay.Loops.FirstWord.{first_word, loops-first_word}

abbrev no_host : String → Bool
no_host e = str_eq e "session not found"

-- A session that ends before it is ready, then one that the relay refuses.
abbrev turns : List Turn
turns =
    record { cancelled_before = false; got_ready = false; cancelled_after = false; failed = none }
    ∷ record {
      cancelled_before = false;
      got_ready = false;
      cancelled_after = false;
      failed = some "session not found";
    }
    ∷ []

loops-first_word_example :
    ((host_loop turns unanswered).0.told ≡ first_word turns)
    × ((client_loop no_host turns unanswered).0.told ≡ first_word turns)
    × ((client_loop_udp turns unanswered).0.told ≡ first_word turns)
loops-first_word_example = loops-first_word no_host turns

turns_fail : first_word turns ≡ failure "session not found" ∷ []
turns_fail = refl

gives_up : (client_loop no_host turns unanswered).1 ≡ returned_err "session not found"
unfolding client_loop client_turn
gives_up = refl

starts_with_error : start_host_runtime true turns ≡ err (loop_failed "session not found")
unfolding start_host_runtime host_loop host_turn
starts_with_error = refl

udp_starts_with_error : start_client_runtime_udp true turns ≡ err (loop_failed "session not found")
unfolding start_client_runtime_udp client_loop_udp udp_turn
udp_starts_with_error = refl

client_starts_with_error :
    start_client_runtime no_host true turns ≡ err (loop_failed "session not found")
unfolding start_client_runtime client_loop client_turn
client_starts_with_error = refl
