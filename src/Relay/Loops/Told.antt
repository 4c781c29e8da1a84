-- ===== src/Relay/Loops/Told.antt =====
-- Once the sender of `ready_signal` is gone, a loop tells nothing more.
use p2p_core.Base.{
  List, [], false, refl, ◌∷◌, ◌≡◌, Bool, Bool-cases, Option-cases, String, ap, inl, inr, ◌∙◌,
}
use p2p_core.Relay.Loops.{
  Turn, Signal, Word, ready, failure, tell, after_session, host_loop, client_loop, client_loop_udp,
  client_turn, host_turn, udp_turn,
}

-- Once the sender is gone, nothing more is told.
abbrev pub IsTold : Signal → Type 0
IsTold s = s.waiting ≡ false

tell-told : (w : Word) (s : Signal) → IsTold s → tell w s ≡ s
tell-told w s h = rw h refl

after-told : (t : Turn) (s : Signal) → IsTold s → after_session t s ≡ s
after-told t s h = elim (Bool-cases t.got_ready) [
  | inl e ↦ rw e (tell-told ready s h)
  | inr e ↦ rw e refl
]

fail-told :
    (e : String) (t : Turn) (s : Signal) → IsTold s → tell (failure e) (after_session t s) ≡ s
fail-told e t s h = ap (tell (failure e)) (after-told t s h) ∙ tell-told (failure e) s h

pub host_loop-told : (ts : List Turn) (s : Signal) → IsTold s → (host_loop ts s).0 ≡ s
unfolding host_loop host_turn
host_loop-told [] s h = refl
host_loop-told (t ∷ ts) s h =
    let next : (u : Signal) → u ≡ s → (host_loop ts u).0 ≡ s =
      λ u e. ap (λ v. (host_loop ts v).0) e ∙ host_loop-told ts s h in
    elim (Bool-cases t.cancelled_before) [
      | inl c ↦ rw c refl
      | inr c ↦ elim (Bool-cases t.cancelled_after) [
        | inl d ↦ rw (c, d) (after-told t s h)
        | inr d ↦ elim (Option-cases t.failed) [
          | inl f ↦ rw (c, d, f) (next (after_session t s) (after-told t s h))
          | inr (e, f) ↦
              rw (c, d, f) (next (tell (failure e) (after_session t s)) (fail-told e t s h))
        ]
      ]
    ]

pub client_loop-told :
    (nf : String → Bool) (ts : List Turn) (s : Signal) → IsTold s → (client_loop nf ts s).0 ≡ s
unfolding client_loop client_turn
client_loop-told nf [] s h = refl
client_loop-told nf (t ∷ ts) s h =
    let next : (u : Signal) → u ≡ s → (client_loop nf ts u).0 ≡ s =
      λ u e. ap (λ v. (client_loop nf ts v).0) e ∙ client_loop-told nf ts s h in
    elim (Bool-cases t.cancelled_before) [
      | inl c ↦ rw c refl
      | inr c ↦ elim (Bool-cases t.cancelled_after) [
        | inl d ↦ rw (c, d) (after-told t s h)
        | inr d ↦ elim (Option-cases t.failed) [
          | inl f ↦ rw (c, d, f) (next (after_session t s) (after-told t s h))
          | inr (e, f) ↦ elim (Bool-cases (nf e)) [
            | inl g ↦ rw (c, d, f, g) (fail-told e t s h)
            | inr g ↦
                rw (c, d, f, g) (next (tell (failure e) (after_session t s)) (fail-told e t s h))
          ]
        ]
      ]
    ]

pub client_loop_udp-told : (ts : List Turn) (s : Signal) → IsTold s → (client_loop_udp ts s).0 ≡ s
unfolding client_loop_udp udp_turn
client_loop_udp-told [] s h = refl
client_loop_udp-told (t ∷ ts) s h =
    let next : (u : Signal) → u ≡ s → (client_loop_udp ts u).0 ≡ s =
      λ u e. ap (λ v. (client_loop_udp ts v).0) e ∙ client_loop_udp-told ts s h in
    elim (Bool-cases t.cancelled_before) [
      | inl c ↦ rw c refl
      | inr c ↦ elim (Bool-cases t.cancelled_after) [
        | inl d ↦ rw (c, d) (after-told t s h)
        | inr d ↦ elim (Option-cases t.failed) [
          | inl f ↦ rw (c, d, f) (next (after_session t s) (after-told t s h))
          | inr (e, f) ↦
              let quiet : (after_session t s).waiting ≡ false =
                ap (λ u. u.waiting) (after-told t s h) ∙ h in
              rw (c, d, f, quiet) (next (after_session t s) (after-told t s h))
        ]
      ]
    ]
