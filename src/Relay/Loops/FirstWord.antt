-- ===== src/Relay/Loops/FirstWord.antt =====
-- What the start functions learn of their loops: the first word, and no other.
use p2p_core.Base.{
  List, [], false, if◌then◌else◌, none, refl, some, ◌∷◌, ◌≡◌, Bool, Bool-cases, Option-cases,
  String, ap, inl, inr, ◌∙◌, sym, true,
}
use p2p_core.Relay.Loops.{
  Turn, Signal, Word, ready, failure, tell, after_session, host_loop, client_loop, client_loop_udp,
  unanswered, returned_ok, returned_err, client_turn, host_turn, udp_turn,
}
use p2p_core.Relay.Loops.Told.{host_loop-told, client_loop-told, client_loop_udp-told}

-- The first word that the turns have, up to the end of the token.
abbrev pub first_word : List Turn → List Word
first_word [] = []
first_word (t ∷ ts) =
    let later = first_word ts in
    if t.cancelled_before
    then []
    else if t.got_ready
    then ready ∷ []
    else if t.cancelled_after
    then []
    else elim t.failed [ none ↦ later | some e ↦ failure e ∷ [] ]

abbrev only : Word → Signal
only w = record { waiting = false; told = w ∷ [] }

after-ready :
    (t : Turn) (s : Signal) → t.got_ready ≡ true → s ≡ unanswered → after_session t s ≡ only ready
after-ready t s r e = rw (r, e) refl

after-quiet : (t : Turn) → t.got_ready ≡ false → after_session t unanswered ≡ unanswered
after-quiet t r = rw r refl

after-ready_told : (t : Turn) → t.got_ready ≡ true → after_session t (only ready) ≡ only ready
after-ready_told t r = rw r refl

first_word-ready :
    (t : Turn) (ts : List Turn)
    → t.cancelled_before ≡ false
    → t.got_ready ≡ true
    → ready ∷ [] ≡ first_word (t ∷ ts)
first_word-ready t ts c r = rw (c, r) refl

host_loop-ready :
    (t : Turn) (ts : List Turn)
    → t.cancelled_before ≡ false
    → t.got_ready ≡ true
    → host_loop (t ∷ ts) unanswered ≡ host_loop (t ∷ ts) (only ready)
unfolding host_loop host_turn
host_loop-ready t ts c r = rw c (
    ap (λ a. host_turn t (λ u. host_loop ts u) a)
      (after-ready t unanswered r refl ∙ sym (after-ready_told t r)))

host_loop-quiet :
    (t : Turn) (ts : List Turn)
    → t.cancelled_before ≡ false
    → t.got_ready ≡ false
    → host_loop (t ∷ ts) unanswered ≡ host_turn t (λ u. host_loop ts u) unanswered
unfolding host_loop host_turn
host_loop-quiet t ts c r = rw c (ap (λ a. host_turn t (λ u. host_loop ts u) a) (after-quiet t r))

heard-host_loop : (ts : List Turn) → (host_loop ts unanswered).0.told ≡ first_word ts
unfolding host_loop host_turn
heard-host_loop [] = refl
heard-host_loop (t ∷ ts) = elim (Bool-cases t.cancelled_before) [
  | inl c ↦ rw c refl
  | inr c ↦ elim (Bool-cases t.got_ready) [
    | inl r ↦
        let same = host_loop-ready t ts c r in
        ap (λ x. x.0.told) same
        ∙ ap (λ x. x.told) (host_loop-told (t ∷ ts) (only ready) refl)
        ∙ first_word-ready t ts c r
    | inr r ↦
        let same = host_loop-quiet t ts c r in
        ap (λ x. x.0.told) same ∙ elim (Bool-cases t.cancelled_after) [
          | inl d ↦ rw (c, r, d) refl
          | inr d ↦ elim (Option-cases t.failed) [
            | inl f ↦ rw (c, r, d, f) (heard-host_loop ts)
            | inr (e, f) ↦
                rw (c, r, d, f) (ap (λ x. x.told) (host_loop-told ts (only (failure e)) refl))
          ]
        ]
  ]
]

client_loop-ready :
    (nf : String → Bool) (t : Turn) (ts : List Turn)
    → t.cancelled_before ≡ false
    → t.got_ready ≡ true
    → client_loop nf (t ∷ ts) unanswered ≡ client_loop nf (t ∷ ts) (only ready)
unfolding client_loop client_turn
client_loop-ready nf t ts c r = rw c (
    ap (λ a. client_turn nf t (λ u. client_loop nf ts u) a)
      (after-ready t unanswered r refl ∙ sym (after-ready_told t r)))

client_loop-quiet :
    (nf : String → Bool) (t : Turn) (ts : List Turn)
    → t.cancelled_before ≡ false
    → t.got_ready ≡ false
    → client_loop nf (t ∷ ts) unanswered ≡ client_turn nf t (λ u. client_loop nf ts u) unanswered
unfolding client_loop client_turn
client_loop-quiet nf t ts c r =
    rw c (ap (λ a. client_turn nf t (λ u. client_loop nf ts u) a) (after-quiet t r))

heard-client_loop :
    (nf : String → Bool) (ts : List Turn) → (client_loop nf ts unanswered).0.told ≡ first_word ts
unfolding client_loop client_turn
heard-client_loop nf [] = refl
heard-client_loop nf (t ∷ ts) = elim (Bool-cases t.cancelled_before) [
  | inl c ↦ rw c refl
  | inr c ↦ elim (Bool-cases t.got_ready) [
    | inl r ↦
        let same = client_loop-ready nf t ts c r in
        ap (λ x. x.0.told) same
        ∙ ap (λ x. x.told) (client_loop-told nf (t ∷ ts) (only ready) refl)
        ∙ first_word-ready t ts c r
    | inr r ↦
        let same = client_loop-quiet nf t ts c r in
        ap (λ x. x.0.told) same ∙ elim (Bool-cases t.cancelled_after) [
          | inl d ↦ rw (c, r, d) refl
          | inr d ↦ elim (Option-cases t.failed) [
            | inl f ↦ rw (c, r, d, f) (heard-client_loop nf ts)
            | inr (e, f) ↦ elim (Bool-cases (nf e)) [
              | inl g ↦ rw (c, r, d, f, g) refl
              | inr g ↦
                  rw (c, r, d, f, g)
                    (ap (λ x. x.told) (client_loop-told nf ts (only (failure e)) refl))
            ]
          ]
        ]
  ]
]

client_loop_udp-ready :
    (t : Turn) (ts : List Turn)
    → t.cancelled_before ≡ false
    → t.got_ready ≡ true
    → client_loop_udp (t ∷ ts) unanswered ≡ client_loop_udp (t ∷ ts) (only ready)
unfolding client_loop_udp udp_turn
client_loop_udp-ready t ts c r = rw c (
    ap (λ a. udp_turn t (λ u. client_loop_udp ts u) a)
      (after-ready t unanswered r refl ∙ sym (after-ready_told t r)))

client_loop_udp-quiet :
    (t : Turn) (ts : List Turn)
    → t.cancelled_before ≡ false
    → t.got_ready ≡ false
    → client_loop_udp (t ∷ ts) unanswered ≡ udp_turn t (λ u. client_loop_udp ts u) unanswered
unfolding client_loop_udp udp_turn
client_loop_udp-quiet t ts c r =
    rw c (ap (λ a. udp_turn t (λ u. client_loop_udp ts u) a) (after-quiet t r))

heard-client_loop_udp : (ts : List Turn) → (client_loop_udp ts unanswered).0.told ≡ first_word ts
unfolding client_loop_udp udp_turn
heard-client_loop_udp [] = refl
heard-client_loop_udp (t ∷ ts) = elim (Bool-cases t.cancelled_before) [
  | inl c ↦ rw c refl
  | inr c ↦ elim (Bool-cases t.got_ready) [
    | inl r ↦
        let same = client_loop_udp-ready t ts c r in
        ap (λ x. x.0.told) same
        ∙ ap (λ x. x.told) (client_loop_udp-told (t ∷ ts) (only ready) refl)
        ∙ first_word-ready t ts c r
    | inr r ↦
        let same = client_loop_udp-quiet t ts c r in
        ap (λ x. x.0.told) same ∙ elim (Bool-cases t.cancelled_after) [
          | inl d ↦ rw (c, r, d) refl
          | inr d ↦ elim (Option-cases t.failed) [
            | inl f ↦ rw (c, r, d, f) (heard-client_loop_udp ts)
            | inr (e, f) ↦ rw (c, r, d, f) refl
          ]
        ]
  ]
]

-- The caller of each of the three loops is told exactly one thing, or nothing while no turn has a
-- word: that the first session to get ready is ready, or the error of the first one that failed before.
pub loops-first_word :
    (says_not_found : String → Bool) (ts : List Turn)
    → ((host_loop ts unanswered).0.told ≡ first_word ts)
      × ((client_loop says_not_found ts unanswered).0.told ≡ first_word ts)
      × ((client_loop_udp ts unanswered).0.told ≡ first_word ts)
loops-first_word says_not_found ts =
    (heard-host_loop ts, heard-client_loop says_not_found ts, heard-client_loop_udp ts)

-- A client loop returns an error only where its text says that the session was not found.
pub client_loop-returns :
    (says_not_found : String → Bool) (ts : List Turn) (s : Signal) (e : String)
    → (client_loop says_not_found ts s).1 ≡ returned_err e
    → says_not_found e ≡ true
unfolding client_loop client_turn
client_loop-returns nf [] s e h = cc h
client_loop-returns nf (t ∷ ts) s e h = elim (Bool-cases t.cancelled_before) [
  | inl c ↦ let no : returned_ok ≡ returned_err e = rw c at h in cc no
  | inr c ↦ elim (Bool-cases t.cancelled_after) [
    | inl d ↦ let no : returned_ok ≡ returned_err e = rw (c, d) at h in cc no
    | inr d ↦ elim (Option-cases t.failed) [
      | inl f ↦ client_loop-returns nf ts (after_session t s) e (rw (c, d, f) at h)
      | inr (x, f) ↦ elim (Bool-cases (nf x)) [
        | inl g ↦
            let same : returned_err x ≡ returned_err e = rw (c, d, f, g) at h in
            let is : x ≡ e = cc same in ap nf (sym is) ∙ g
        | inr g ↦
            client_loop-returns nf ts (tell (failure x) (after_session t s)) e
              (rw (c, d, f, g) at h)
      ]
    ]
  ]
]
