-- ===== src/Manager/Logs.antt =====
-- The log of the status: the latest 64 entries, the newest first.
use p2p_core.Base.{
  String, List, [], length, take, ◌∷◌, ◌≡◌, ◌≤◌, Bool-cases, ap, arith, inl, inr, length-take, ltb,
  refl, suc, sym, take-all, take-take, zero, ℕ, ◌∙◌,
}
use p2p_core.Models.{NetworkStatus}
use p2p_core.Manager.{push_log, log_limit, mutate_status, recount}

-- The entries one after the other.
abbrev pub push_logs : List String → NetworkStatus → NetworkStatus
push_logs [] s = s
push_logs (e ∷ es) s = push_logs es (push_log e s)

-- The entries newest first, before what was there.
abbrev pub newest_first : List String → List String → List String
newest_first [] old = old
newest_first (e ∷ es) old = newest_first es (e ∷ old)

pub push_log-logs :
    (e : String) (s : NetworkStatus) → (push_log e s).logs ≡ take log_limit (e ∷ s.logs)
unfolding push_log mutate_status recount
push_log-logs e s = elim (Bool-cases (ltb log_limit (length (e ∷ s.logs)))) [
  | inl long ↦ rw long refl
  | inr short ↦ rw short (sym (take-all log_limit (e ∷ s.logs) (ground arith)))
]

take-less : (n m : ℕ) (xs ys : List String) → n ≤ m → take m xs ≡ take m ys → take n xs ≡ take n ys
take-less n m xs ys h e = sym (take-take n m xs h) ∙ ap (take n) e ∙ take-take n m ys h

newest_first-take :
    (es xs ys : List String) (n : ℕ)
    → take n xs ≡ take n ys
    → take n (newest_first es xs) ≡ take n (newest_first es ys)
newest_first-take [] xs ys n h = h
newest_first-take (e ∷ es) xs ys zero h = refl
newest_first-take (e ∷ es) xs ys (suc n) h =
    newest_first-take es (e ∷ xs) (e ∷ ys) (suc n)
      (ap (λ t. e ∷ t) (take-less n (suc n) xs ys (omega arith) h))

-- Whatever is logged, entry after entry, the log is the latest 64 of all entries, the newest first,
-- if it was at most 64 long before.
pub push_logs-latest :
    (es : List String) (s : NetworkStatus)
    → length s.logs ≤ 64
    → (push_logs es s).logs ≡ take 64 (newest_first es s.logs)
push_logs-latest [] s h = sym (take-all 64 s.logs h)
push_logs-latest (e ∷ es) s h =
    let one = push_log-logs e s in
    let short : length (push_log e s).logs ≤ 64 =
      rw one (omega (arith, length-take 64 (e ∷ s.logs))) in
    push_logs-latest es (push_log e s) short
    ∙ ap (λ t. take 64 (newest_first es t)) one
    ∙ newest_first-take es (take 64 (e ∷ s.logs)) (e ∷ s.logs) 64
        (take-take 64 64 (e ∷ s.logs) (omega arith))
