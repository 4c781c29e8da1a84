-- ===== src/Manager/Subscription.antt =====
-- src/manager.rs: `subscribe_lobby_events`, which reads a channel's events, and connects again after a
-- delay that doubles. What the stream gives, and when the token is cancelled, is an argument.
pub mod Delays
use p2p_core.Base.{
  ℕ, Bool, List, Option, String, [], false, if◌then◌else◌, min, none, some, str_eq, true, ◌*◌, ◌++◌,
  ◌||◌, ◌∷◌,
}
use p2p_core.Lobby.{Value}

-- What comes next: the token is cancelled; or the stream opens, has a message with its event and its
-- data, or ends or fails, where the token may be cancelled by then.
pub data Incoming : Type 0 where
  cancel_now : Incoming
  opened : Incoming
  sse_message : String → String → Incoming
  interrupted : Bool → Incoming

-- What the application is told: the event's name, the channel and the value.
pub data Emitted : Type 0 where
  lobby_event : String → Value → Emitted
  named_event : String → String → Value → Emitted

pub record Subscribed : Type 0 where
  pub emitted : List Emitted
  pub sleeps : List ℕ

abbrev pub first_delay : ℕ
first_delay = 500

abbrev pub most_delay : ℕ
most_delay = 10000

abbrev pub is_lobby : String → Bool
is_lobby name = str_eq name "message" || (str_eq name "lobby-event" || str_eq name "")

abbrev pub emit : String → String → Value → Emitted
emit channel name v = if is_lobby name then lobby_event channel v else named_event name channel v

abbrev pub emit_read : String → String → Option Value → List Emitted
emit_read channel name none = []
emit_read channel name (some v) = emit channel name v ∷ []

abbrev pub stopped : Subscribed
stopped = record { emitted = []; sleeps = [] }

abbrev pub told : List Emitted → Subscribed → Subscribed
told es r = record { emitted = es ++ r.emitted; sleeps = r.sleeps }

abbrev pub slept : ℕ → Subscribed → Subscribed
slept delay r = record { emitted = r.emitted; sleeps = delay ∷ r.sleeps }

module _ (from_str : String → Option Value) (channel : String) where
  -- The loop from one delay on.
  unfoldable pub subscribe_loop : ℕ → List Incoming → Subscribed
  subscribe_loop delay [] = stopped
  subscribe_loop delay (cancel_now ∷ is) = stopped
  subscribe_loop delay (opened ∷ is) = subscribe_loop first_delay is
  subscribe_loop delay (sse_message name text ∷ is) =
      told (emit_read channel name (from_str text)) (subscribe_loop delay is)
  subscribe_loop delay (interrupted true ∷ is) = stopped
  subscribe_loop delay (interrupted false ∷ is) =
      slept delay (subscribe_loop (min (delay * 2) most_delay) is)

  unfoldable pub subscribe_lobby_events : List Incoming → Subscribed
  unfolding subscribe_loop
  subscribe_lobby_events is = subscribe_loop first_delay is
