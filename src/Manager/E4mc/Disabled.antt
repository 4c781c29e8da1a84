-- ===== src/Manager/E4mc/Disabled.antt =====
-- src/manager.rs and src/e4mc.rs: the log of the e4mc task, whose runtime always fails.
use p2p_core.Base.{
  ℕ, All, All-take, List, String, [], arith, false, inl, inr, length, refl, suc, sym, take,
  take-take, ◌*◌, ◌+◌, ◌∙◌, ◌∷◌, ◌≡◌, ◌≤◌, ◌⊎◌, ap,
}
use p2p_core.Models.{NetworkStatus}
use p2p_core.Manager.{mutate_status, push_log, recount}
use p2p_core.Manager.Logs.{push_logs, newest_first, push_logs-latest}
use p2p_core.Manager.E4mc.{
  E4mcTurn, Progress, e4mc_loop, run_started, start_e4mc_runtime, log, starting,
}

-- The entry of each failed turn.
abbrev pub unavailable : String
unavailable = "e4mc fallback unavailable: e4mc disabled. Retrying in 10s..."

-- A turn in which the token is not cancelled.
abbrev pub IsRunning : E4mcTurn → Type 0
IsRunning t =
    (t.cancelled ≡ false) × (t.cancelled_at_failure ≡ false) × (t.cancelled_at_end ≡ false)

abbrev turn_logs : ℕ → List E4mcTurn → List String
turn_logs port [] = []
turn_logs port (t ∷ ts) = starting port ∷ unavailable ∷ turn_logs port ts

run_disabled :
    (port : ℕ) (t : E4mcTurn) (p : Progress)
    → IsRunning t
    → run_started port t start_e4mc_runtime p ≡ log unavailable p
unfolding run_started start_e4mc_runtime
run_disabled port t p h = rw h.1 refl

e4mc_loop-turn_logs :
    (port : ℕ) (ts : List E4mcTurn) (p : Progress)
    → All IsRunning ts
    → e4mc_loop port ts p ≡ record p { status = push_logs (turn_logs port ts) p.status }
unfolding e4mc_loop start_e4mc_runtime
e4mc_loop-turn_logs port [] p h = refl
e4mc_loop-turn_logs port (t ∷ ts) p h =
    rw (h.0.0, h.0.2, run_disabled port t (log (starting port) p) h.0)
      (e4mc_loop-turn_logs port ts (log unavailable (log (starting port) p)) h.1)

All-newest_first :
    (P : String → Type 0) (es xs : List String) (m k : ℕ)
    → All P es
    → All P (take m xs)
    → k ≤ m + length es
    → All P (take k (newest_first es xs))
All-newest_first P [] xs m k h j le =
    rw (sym (take-take k m xs (omega arith))) (All-take P k (take m xs) j)
All-newest_first P (e ∷ es) xs m k h j le =
    All-newest_first P es (e ∷ xs) (suc m) k h.1 (h.0, j) (omega arith)

-- One of the two entries of the task.
abbrev pub IsTurnLog : ℕ → String → Type 0
IsTurnLog port e = (e ≡ starting port) ⊎ (e ≡ unavailable)

turn_logs-IsTurnLog : (port : ℕ) (ts : List E4mcTurn) → All (IsTurnLog port) (turn_logs port ts)
turn_logs-IsTurnLog port [] = tt
turn_logs-IsTurnLog port (t ∷ ts) = (inl refl, (inr refl, turn_logs-IsTurnLog port ts))

length-turn_logs : (port : ℕ) (ts : List E4mcTurn) → length (turn_logs port ts) ≡ 2 * length ts
length-turn_logs port [] = refl
length-turn_logs port (t ∷ ts) = omega (arith, length-turn_logs port ts)

-- Of a status, entries change the log and the count of the connected peers, which is counted anew.
push_logs-others :
    (e : String) (es : List String) (s : NetworkStatus)
    → push_logs (e ∷ es) s ≡ recount (record s { logs = (push_logs (e ∷ es) s).logs })
unfolding push_log mutate_status recount
push_logs-others e [] s = refl
push_logs-others e (x ∷ es) s =
    unfold push_log mutate_status recount in push_logs-others x es (push_log e s)

push_turn_logs-others :
    (port : ℕ) (ts : List E4mcTurn) (s : NetworkStatus)
    → 1 ≤ length ts
    → let es = turn_logs port ts in
      push_logs es s ≡ recount (record s { logs = (push_logs es s).logs })
push_turn_logs-others port [] s h = absurd (omega (arith, h))
push_turn_logs-others port (t ∷ ts) s h =
    push_logs-others (starting port) (unavailable ∷ turn_logs port ts) s

-- Where the token is not cancelled and the log has at most 64 entries before, 32 turns of the task or
-- more, each with the runtime that fails, leave nothing in the log but the two entries of the task;
-- the count of the connected peers is counted anew, all else of the status stays as it was, and the
-- application is told nothing.
pub e4mc_loop-floods :
    (port : ℕ) (ts : List E4mcTurn) (p : Progress)
    → All IsRunning ts
    → 32 ≤ length ts
    → length p.status.logs ≤ 64
    → (entries : List String) × (All (IsTurnLog port) entries)
      × (e4mc_loop port ts p ≡ record p { status = recount (record p.status { logs = entries }) })
e4mc_loop-floods port ts p h many short =
    let es = turn_logs port ts in
    let count = length-turn_logs port ts in
    let filled =
      All-newest_first (IsTurnLog port) es p.status.logs 0 64 (turn_logs-IsTurnLog port ts) tt
        (omega arith) in
    (
      (push_logs es p.status).logs,
      rw (push_logs-latest es p.status short) filled,
      e4mc_loop-turn_logs port ts p h
          ∙ ap (λ s. record p { status = s })
              (push_turn_logs-others port ts p.status (omega arith)),
    )
