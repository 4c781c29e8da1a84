-- ===== src/Manager/Links/Open.antt =====
-- src/manager.rs: which attempt opens the stream of a proxied connection.
use p2p_core.Base.{
  ℕ, Option, String, ap, arith, refl, some, suc, zero, ◌+◌, ◌<◌, ◌∙◌, ◌≡◌, ◌≢◌, none,
}
use p2p_core.Manager.Sessions.{done, Result}
use p2p_core.Manager.Links.{
  Opening, stream, refused, slow, open_loop, opening_turn, bridged, handle_client_proxy_connection,
  open_stream,
}

-- The attempt opened nothing.
abbrev pub Fails : Opening → Type 0
Fails o = (n : ℕ) → o ≢ stream n

opening_turn-again :
    (o : Opening) (again : String → Result ℕ) (r : Result ℕ)
    → Fails o
    → ((e : String) → again e ≡ r)
    → opening_turn o again ≡ r
opening_turn-again (stream n) again r fails h = absurd (fails n refl)
opening_turn-again (refused e) again r fails h = h e
opening_turn-again slow again r fails h = h "open_bi timed out"

open_loop-first :
    (net : ℕ → Opening) (n k j s : ℕ) (last : Option String)
    → j < n
    → ((i : ℕ) → i < j → Fails (net (k + i)))
    → net (k + j) ≡ stream s
    → open_loop net n k last ≡ done s
unfolding open_loop
open_loop-first net zero k j s last lt before e = absurd (omega arith)
open_loop-first net (suc n) k zero s last lt before e =
    let here : net k ≡ stream s = ap net (omega arith) ∙ e in rw here refl
open_loop-first net (suc n) k (suc j) s last lt before e =
    let here : k + 0 ≡ k = omega arith in
    opening_turn-again (net k) _ (done s) (λ m f. before 0 (omega arith) m (ap net here ∙ f))
      (λ l.
        open_loop-first net n (k + 1) j s (some l) (omega arith)
          (λ i h m f. before (suc i) (omega arith) m (ap net (omega arith) ∙ f))
          (ap net (omega arith) ∙ e))

-- A proxied connection is bridged over the first stream that one of three attempts opens, and ends as the bridge does.
pub handle_client_proxy_connection-first :
    (net : ℕ → Opening) (j s : ℕ) (bridge : Result (Unit {0}))
    → j < 3
    → ((i : ℕ) → i < j → Fails (net (1 + i)))
    → net (1 + j) ≡ stream s
    → (open_stream net ≡ done s) × (handle_client_proxy_connection net bridge ≡ bridge)
unfolding handle_client_proxy_connection open_stream
handle_client_proxy_connection-first net j s bridge lt before e =
    let opened = open_loop-first net 3 1 j s none lt before e in
    (opened, ap (λ r. bridged r bridge) opened)
