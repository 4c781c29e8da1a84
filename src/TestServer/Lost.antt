-- ===== src/TestServer/Lost.antt =====
-- The log is shared with the manager, which has the newest entry first and keeps 64; the test server
-- has the newest entry last and keeps 240.
use p2p_core.Base.{
  ℕ, List, String, [], ap, arith, false, length, length-append, ltb, refl, suc, sym, take, zero,
  ◌++◌, ◌<◌, ◌∙◌, ◌∷◌, ◌≡◌, ◌≤◌,
}
use p2p_core.Models.{NetworkStatus}
use p2p_core.Manager.{push_log}
use p2p_core.Manager.Logs.{push_log-logs}
use p2p_core.TestServer.{log_status}

take-append_more : (n : ℕ) (xs ys : List String) → n ≤ length xs → take n (xs ++ ys) ≡ take n xs
take-append_more zero xs ys h = refl
take-append_more (suc n) [] ys h = absurd (omega arith)
take-append_more (suc n) (x ∷ xs) ys h = ap (λ t. x ∷ t) (take-append_more n xs ys (omega arith))

log_status-logs :
    (m : String) (s : NetworkStatus)
    → length s.logs < 240
    → (log_status m s).logs ≡ s.logs ++ (m ∷ [])
unfolding log_status
log_status-logs m s h =
    let fits : ltb 240 (length (s.logs ++ (m ∷ []))) ≡ false =
      ground (arith, length-append s.logs (m ∷ [])) in
    rw fits refl

-- Where the log of the manager has 63 entries or more, and fewer than 240, an entry of the test server
-- is lost with the next entry of the manager: the log is as if it had never been made.
pub push_log-log_status :
    (e m : String) (s : NetworkStatus)
    → 63 ≤ length s.logs
    → length s.logs < 240
    → (push_log e (log_status m s)).logs ≡ (push_log e s).logs
push_log-log_status e m s h k =
    push_log-logs e (log_status m s)
    ∙ ap (λ l. take 64 (e ∷ l)) (log_status-logs m s k)
    ∙ take-append_more 64 (e ∷ s.logs) (m ∷ []) (omega arith)
    ∙ sym (push_log-logs e s)
