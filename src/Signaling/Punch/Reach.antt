-- ===== src/Signaling/Punch/Reach.antt =====
-- Which ports `punch_remote` reaches, and when it stops.
use p2p_core.Base.{
  ℕ, All, All-append, Bool, Bool-cases, List, [], arith, get_or, inl, inr, leb, length, ltb, refl,
  suc, take, true, zero, ◌%◌, ◌+◌, ◌<◌, ◌∷◌, ◌≡◌, ◌≤◌,
}
use p2p_core.Signaling.Punch.{punch_remote, predict, predicted, punch_loop, punch_round, targets}
use p2p_core.Net.{SocketAddr}

-- The same host, at a port of 16 bits no further than `d` from the announced one.
pub record IsNear (remote : SocketAddr) (d : ℕ) (a : SocketAddr) : Type 0 where
  pub host : a.ip ≡ remote.ip
  pub fits : a.port < 65536
  pub above : a.port ≤ remote.port + d
  pub below : remote.port ≤ a.port + d

take-nil {ℓ} : {A : Type ℓ} (n : ℕ) → take {A = A} n [] ≡ []
take-nil zero = refl
take-nil (suc n) = refl

module _ (remote : SocketAddr) (in_range : remote.port < 65536) where
  remote-IsNear : (d : ℕ) → IsNear remote d remote
  remote-IsNear d = ground arith

  predicted-IsNear : (d offset : ℕ) → offset ≤ d → All (IsNear remote d) (predicted remote offset)
  predicted-IsNear d offset h = ground arith

  predict-IsNear :
      (d n offset : ℕ) → offset + n ≤ d + 1 → All (IsNear remote d) (predict n offset remote)
  unfolding predict
  predict-IsNear d zero offset h = tt
  predict-IsNear d (suc n) offset h =
      All-append _ (predicted remote offset) _ (predicted-IsNear d offset (omega arith))
        (predict-IsNear d n (offset + 1) (omega arith))

  targets-IsNear : All (IsNear remote 100) (targets remote)
  unfolding targets
  targets-IsNear = (remote-IsNear 100, predict-IsNear 100 100 1 (omega arith))

  -- Away from the ends of the range each offset gives two targets.
  take-predict-IsNear :
      (d m n offset : ℕ)
      → offset + n ≤ 101
      → 100 ≤ remote.port
      → remote.port + 100 < 65536
      → offset + m ≤ d + 1
      → All (IsNear remote d) (take (m + m) (predict n offset remote))
  unfolding predict
  take-predict-IsNear d zero n offset h lo hi b = tt
  take-predict-IsNear d (suc m) zero offset h lo hi b =
      rw (take-nil {A = SocketAddr} (suc m + suc m)) tt
  take-predict-IsNear d (suc m) (suc n) offset h lo hi b =
      let up : ltb (remote.port + offset) 65536 ≡ true = ground arith in
      let down : leb offset remote.port ≡ true = ground arith in
      let two : suc m + suc m ≡ suc (suc (m + m)) = omega arith in
      rw (up, down, two)
        (
          ground arith,
          (ground arith, take-predict-IsNear d m n (offset + 1) (omega arith) lo hi (omega arith)),
        )

get_or-All {κ} :
    {A : Type 0} (P : A → Type κ) (xs : List A) (i : ℕ) (d : A) → All P xs → P d → P (get_or xs i d)
get_or-All P [] i d h p = p
get_or-All P (x ∷ xs) zero d h p = h.0
get_or-All P (x ∷ xs) (suc i) d h p = get_or-All P xs i d h.1 p

get_or-take :
    {A : Type 0} (n i : ℕ) (xs : List A) (d : A) → i < n → get_or (take n xs) i d ≡ get_or xs i d
get_or-take zero i xs d h = absurd (omega arith)
get_or-take (suc n) i [] d h = refl
get_or-take (suc n) zero (x ∷ xs) d h = refl
get_or-take (suc n) (suc i) (x ∷ xs) d h = get_or-take n i xs d (omega arith)

module _ (P : SocketAddr → Type 0) (remote : SocketAddr) (ts : List SocketAddr)
    (base : P remote) where
  round-All : (i : ℕ) → P (get_or ts (i % length ts) remote) → All P (punch_round remote ts i)
  unfolding punch_round
  round-All i h = ground arith

  loop-All :
      (cancelled : ℕ → Bool) (n i looks bound : ℕ)
      → ((j : ℕ) → j < bound → P (get_or ts (j % length ts) remote))
      → i + n ≤ bound
      → All P (punch_loop cancelled remote ts n i looks).0
  unfolding punch_loop
  loop-All cancelled zero i looks bound h fits = tt
  loop-All cancelled (suc n) i looks bound h fits = elim (Bool-cases (cancelled looks)) [
    | inl stop ↦ rw stop tt
    | inr go ↦ rw go (
        All-append P (punch_round remote ts i) _ (round-All i (h i (omega arith)))
          (loop-All cancelled n (i + 1) (looks + 1) bound h (omega arith)))
  ]

-- Both loops together, from what the first 150 turns choose.
remote-All :
    (P : SocketAddr → Type 0) (cancelled : ℕ → Bool) (remote : SocketAddr)
    → P remote
    → ((j : ℕ) → j < 150 → P (get_or (targets remote) (j % length (targets remote)) remote))
    → All P (punch_remote cancelled remote)
unfolding punch_remote
remote-All P cancelled remote base h =
    let ts = targets remote in
    let looks = (punch_loop cancelled remote ts 150 0 0).1 in
    All-append P (punch_loop cancelled remote ts 150 0 0).0
      (punch_loop cancelled remote ts 150 0 looks).0
      (loop-All P remote ts base cancelled 150 0 0 150 h (omega arith))
      (loop-All P remote ts base cancelled 150 0 looks 150 h (omega arith))

-- Every packet goes to the announced host, at a port of 16 bits within 100 of the announced one.
pub punch_remote-IsNear :
    (cancelled : ℕ → Bool) (remote : SocketAddr)
    → remote.port < 65536
    → All (IsNear remote 100) (punch_remote cancelled remote)
punch_remote-IsNear cancelled remote h =
    remote-All (IsNear remote 100) cancelled remote (remote-IsNear remote h 100) λ j _.
      get_or-All (IsNear remote 100) (targets remote) (j % length (targets remote)) remote
        (targets-IsNear remote h) (remote-IsNear remote h 100)

length-predict :
    (remote : SocketAddr) (n offset : ℕ)
    → offset + n ≤ 101
    → 100 ≤ remote.port
    → remote.port + 100 < 65536
    → length (predict n offset remote) ≡ n + n
unfolding predict
length-predict remote zero offset h lo hi = refl
length-predict remote (suc n) offset h lo hi =
    let up : ltb (remote.port + offset) 65536 ≡ true = ground arith in
    let down : leb offset remote.port ≡ true = ground arith in
    rw (up, down) (omega (arith, length-predict remote n (offset + 1) (omega arith) lo hi))

targets_interior :
    (remote : SocketAddr)
    → 100 ≤ remote.port
    → remote.port + 100 < 65536
    → (length (targets remote) ≡ 201) × All (IsNear remote 75) (take 151 (targets remote))
unfolding targets
targets_interior remote lo hi = (
  omega (arith, length-predict remote 100 1 (omega arith) lo hi),
  (
    remote-IsNear remote (omega arith) 75,
    take-predict-IsNear remote (omega arith) 75 75 100 1 (omega arith) lo hi (omega arith),
  ),
)

turn_interior :
    (remote : SocketAddr) (j : ℕ)
    → 100 ≤ remote.port
    → remote.port + 100 < 65536
    → j < 150
    → IsNear remote 75 (get_or (targets remote) (j % length (targets remote)) remote)
turn_interior remote j lo hi h =
    let (size, near) = targets_interior remote lo hi in
    let turn : j % length (targets remote) ≡ j = rw size (omega arith) in
    rw (turn, ← get_or-take 151 j (targets remote) remote (omega arith))
      (get_or-All (IsNear remote 75) (take 151 (targets remote)) j remote near
        (remote-IsNear remote (omega arith) 75))

-- Where the announced port is at least 100 away from both ends of the range, no packet goes further
-- than 75 ports from it: the loops take turns 0 to 149 of the 201 targets, and both begin anew.
pub punch_remote_interior :
    (cancelled : ℕ → Bool) (remote : SocketAddr)
    → 100 ≤ remote.port
    → remote.port + 100 < 65536
    → All (IsNear remote 75) (punch_remote cancelled remote)
punch_remote_interior cancelled remote lo hi =
    remote-All (IsNear remote 75) cancelled remote (remote-IsNear remote (omega arith) 75)
      λ j h. turn_interior remote j lo hi h
