-- ===== src/Manager/E4mc.antt =====
-- src/manager.rs and src/e4mc.rs: the task of a host that keeps a public e4mc domain. What the probes
-- and the token come to is an argument; the runtime is the one of src/e4mc.rs, which always fails.
pub mod Disabled
use p2p_core.Base.{
  ℕ, Bool, List, Option, String, [], false, if◌then◌else◌, none, some, suc, true, zero, ◌++◌, ◌+◌,
  ◌∷◌,
}
use p2p_core.Text.{show_nat, ◌⧺◌}
use p2p_core.Models.{NetworkStatus}
use p2p_core.Manager.{mutate_status, or_else, push_log}
use p2p_core.Manager.Presence.{RoomProbe}
use p2p_core.Manager.Sessions.{Result, done, failed}

-- `e4mc::start_host_runtime` and `E4mcRuntime::wait`, a stub.
unfoldable pub start_e4mc_runtime : Result String
start_e4mc_runtime = failed "e4mc disabled"

unfoldable pub wait : Result (Unit {0})
wait = done tt

-- An attempt to verify a domain: whether the token is cancelled before it, and what the probe gives.
pub record Verification : Type 0 where
  pub cancelled : Bool
  pub probe : Result RoomProbe

-- One turn of the loop, with what the token says where the loop looks at it.
pub record E4mcTurn : Type 0 where
  pub cancelled : Bool
  pub attempts : ℕ → Verification
  pub cancelled_at_failure : Bool
  pub cancelled_at_end : Bool

-- The status, and what the application is told: a domain and whether it was verified.
pub record Progress : Type 0 where
  pub status : NetworkStatus
  pub told : List (String × Bool)

abbrev pub change : (NetworkStatus → NetworkStatus) → Progress → Progress
change f p = record p { status = f p.status }

abbrev pub log : String → Progress → Progress
log entry = change (push_log entry)

abbrev pub tell : String → Bool → Progress → Progress
tell domain verified p = record p { told = p.told ++ ((domain, verified) ∷ []) }

abbrev pub verifying : String → ℕ → ℕ → String
verifying domain port attempt =
    "Verifying e4mc public domain "
    ⧺ domain
    ⧺ " (attempt "
    ⧺ show_nat attempt
    ⧺ "/6) via public Minecraft port 25565 -> local "
    ⧺ show_nat port
    ⧺ "."

abbrev last_error_or : Option String → String
last_error_or none = "e4mc verification failed without a concrete error"
last_error_or (some e) = e

-- `n` attempts are left, of which the next has the number `attempt`.
unfoldable pub verify_loop :
    String → ℕ → (ℕ → Verification) → ℕ → ℕ → Option String → Progress → Result RoomProbe × Progress
verify_loop domain port net zero attempt last p = (failed (last_error_or last), p)
verify_loop domain port net (suc n) attempt last p =
    let logged = log (verifying domain port attempt) p in
    let again : String → Result RoomProbe × Progress =
      λ e. verify_loop domain port net n (attempt + 1) (some e) logged in
    if (net attempt).cancelled
    then (failed "e4mc verification cancelled", p)
    else elim (net attempt).probe [ done probe ↦ (done probe, logged) | failed e ↦ again e ]

unfoldable pub verify_e4mc_public_domain :
    String → ℕ → (ℕ → Verification) → Progress → Result RoomProbe × Progress
unfolding verify_loop show_nat
verify_e4mc_public_domain domain port net p = verify_loop domain port net 6 1 none p

-- The path is `e4mc-public` unless there is one.
abbrev pub with_domain : String → NetworkStatus → NetworkStatus
with_domain domain s = record s {
  e4mc_domain = some domain;
  e4mc_verified = false;
  transport_path = or_else s.transport_path (some "e4mc-public");
  note = some (
      "Host is active. Direct transport remains primary, e4mc assigned " ⧺ domain
      ⧺ " and is being verified.");
}

abbrev pub with_verified : String → NetworkStatus → NetworkStatus
with_verified domain s = record s {
  e4mc_domain = some domain;
  e4mc_verified = true;
  public_join_address = some domain;
  transport_path = or_else s.transport_path (some "e4mc-public");
  note = some (
      "Host is active. Direct transport remains primary, verified e4mc fallback is ready at "
      ⧺ domain ⧺ ".");
}

abbrev pub with_unverified : String → NetworkStatus → NetworkStatus
with_unverified domain s = record s {
  e4mc_domain = some domain;
  e4mc_verified = false;
  public_join_address = none;
  note = some (
      "Host is active, but e4mc domain " ⧺ domain
      ⧺ " failed verification. Direct transport remains available.");
}

abbrev version_or : Option String → String
version_or none = "unknown"
version_or (some v) = v

unfoldable pub finish_verification : String → Result RoomProbe → Progress → Progress
finish_verification domain (done probe) p = tell domain true (
    log
      ("e4mc public domain verified: "
        ⧺ domain
        ⧺ " -> Minecraft "
        ⧺ version_or probe.version
        ⧺ " ("
        ⧺ show_nat probe.online_players
        ⧺ "/"
        ⧺ show_nat probe.max_players
        ⧺ ")")
      (change (mutate_status (with_verified domain)) p))
finish_verification domain (failed e) p = tell domain false (
    log ("e4mc verification failed for " ⧺ domain ⧺ "; public link disabled: " ⧺ e)
      (change (mutate_status (with_unverified domain)) p))

-- `if let Err(error) = runtime.wait().await`
after_wait : Result (Unit {0}) → Bool → Progress → Progress
after_wait (done u) cancelled p = p
after_wait (failed e) cancelled p =
    if cancelled then p else log ("e4mc session terminated: " ⧺ e ⧺ ". Restarting in 5s...") p

verified_domain : String → Result RoomProbe × Progress → Progress
unfolding finish_verification
verified_domain domain (r, p) = finish_verification domain r p

unfoldable pub run_started : ℕ → E4mcTurn → Result String → Progress → Progress
unfolding after_wait verified_domain verify_e4mc_public_domain wait
run_started port t (failed e) p =
    if t.cancelled_at_failure
    then p
    else log ("e4mc fallback unavailable: " ⧺ e ⧺ ". Retrying in 10s...") p
run_started port t (done domain) p =
    let assigned =
      log ("e4mc public domain assigned: " ⧺ domain)
        (change (mutate_status (with_domain domain)) p) in
    after_wait wait t.cancelled_at_failure
      (verified_domain domain (verify_e4mc_public_domain domain port t.attempts assigned))

abbrev pub starting : ℕ → String
starting port = "Starting e4mc public fallback for local Minecraft 127.0.0.1:" ⧺ show_nat port ⧺ "."

-- The loop of the task over its turns, to its end or its abort.
unfoldable pub e4mc_loop : ℕ → List E4mcTurn → Progress → Progress
unfolding run_started show_nat start_e4mc_runtime
e4mc_loop port [] p = p
e4mc_loop port (t ∷ ts) p =
    let ran = run_started port t start_e4mc_runtime (log (starting port) p) in
    let rest = e4mc_loop port ts ran in
    if t.cancelled then p else if t.cancelled_at_end then ran else rest
