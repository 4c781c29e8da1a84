-- ===== src/Manager/Subscription/Delays.antt =====
-- src/manager.rs: how long the subscription waits, and what it tells.
use p2p_core.Base.{
  ℕ, All, List, Option, String, [], ap, ap₂, arith, false, min, refl, suc, true, zero, ◌*◌, ◌∷◌,
  ◌≡◌, ◌≤◌,
}
use p2p_core.Lobby.{Value}
use p2p_core.Manager.Subscription.{
  Incoming, cancel_now, opened, sse_message, interrupted, subscribe_lobby_events, subscribe_loop,
}

-- The delay after a number of interruptions with no opening between them.
unfoldable pub backoff : ℕ → ℕ
backoff zero = 500
backoff (suc k) = min (backoff k * 2) 10000

-- How many interruptions there were since the last opening decides each delay.
unfoldable pub delays_of : ℕ → List Incoming → List ℕ
delays_of k [] = []
delays_of k (cancel_now ∷ is) = []
delays_of k (opened ∷ is) = delays_of 0 is
delays_of k (sse_message name text ∷ is) = delays_of k is
delays_of k (interrupted true ∷ is) = []
delays_of k (interrupted false ∷ is) = backoff k ∷ delays_of (suc k) is

backoff_bounds : (k : ℕ) → (500 ≤ backoff k) × (backoff k ≤ 10000)
unfolding backoff
backoff_bounds zero = omega arith
backoff_bounds (suc k) = let (lo, hi) = backoff_bounds k in omega arith

delays_bounded : (k : ℕ) (is : List Incoming) → All (λ d. (500 ≤ d) × (d ≤ 10000)) (delays_of k is)
unfolding delays_of
delays_bounded k [] = tt
delays_bounded k (cancel_now ∷ is) = tt
delays_bounded k (opened ∷ is) = delays_bounded 0 is
delays_bounded k (sse_message name text ∷ is) = delays_bounded k is
delays_bounded k (interrupted true ∷ is) = tt
delays_bounded k (interrupted false ∷ is) = (backoff_bounds k, delays_bounded (suc k) is)

module _ (from_str : String → Option Value) (channel : String) where
  sleeps-delays_of :
      (k delay : ℕ) (is : List Incoming)
      → delay ≡ backoff k
      → (subscribe_loop from_str channel delay is).sleeps ≡ delays_of k is
  unfolding subscribe_loop delays_of
  sleeps-delays_of k delay [] e = refl
  sleeps-delays_of k delay (cancel_now ∷ is) e = refl
  sleeps-delays_of k delay (opened ∷ is) e = sleeps-delays_of 0 500 is (unfold backoff in refl)
  sleeps-delays_of k delay (sse_message name text ∷ is) e = sleeps-delays_of k delay is e
  sleeps-delays_of k delay (interrupted true ∷ is) e = refl
  sleeps-delays_of k delay (interrupted false ∷ is) e =
      ap₂ (λ d ds. d ∷ ds) e
        (sleeps-delays_of (suc k) (min (delay * 2) 10000) is
          (unfold backoff in ap (λ d. min (d * 2) 10000) e))

  -- Each wait of the subscription is the delay for the number of interruptions since the stream opened last: 500 ms, twice as much after each further one, and never more than 10 s.
  pub subscribe_lobby_events-delays :
      (is : List Incoming)
      → ((subscribe_lobby_events from_str channel is).sleeps ≡ delays_of 0 is)
        × All (λ d. (500 ≤ d) × (d ≤ 10000)) (subscribe_lobby_events from_str channel is).sleeps
  unfolding subscribe_lobby_events
  subscribe_lobby_events-delays is =
      let same = sleeps-delays_of 0 500 is (unfold backoff in refl) in
      (same, rw same (delays_bounded 0 is))
