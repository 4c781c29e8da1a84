-- ===== src/Minecraft/Preflight/Reachable.antt =====
-- When the report says that the local server is reachable.
use p2p_core.Base.{ℕ, List, Option, none, some, true, ◌≡◌, Bool-cases, String, inl, inr, refl, ◌↔◌}
use p2p_core.Models.{LocalTargetState}
use p2p_core.Manager.Sessions.{Result, done, failed}
use p2p_core.Minecraft.Ports.Listing.{LanPortDetection}
use p2p_core.Minecraft.Preflight.{build_preflight_report, listens_on}

-- The port is reached by TCP, or the second listing has it.
abbrev pub IsServed : ℕ → Result (Unit {0}) → Option (List LanPortDetection) → Type 0
IsServed port (done u) listing = Unit
IsServed port (failed e) none = ⊥
IsServed port (failed e) (some ls) = listens_on port ls ≡ true

-- The report says reachable exactly where TCP reaches the port or the second listing has it, its state
-- says the same, and it names the port asked for.
pub build_preflight_report-IsServed :
    (port : ℕ) (first second : Option (List LanPortDetection)) (tcp : Result (Unit {0}))
    (version : Result String)
    → let report = build_preflight_report port first tcp second version in
      ((report.reachable ≡ true) ↔ IsServed port tcp second)
      × ((report.state ≡ LocalTargetState.reachable) ↔ IsServed port tcp second)
      × (report.local_port ≡ port)
unfolding build_preflight_report
build_preflight_report-IsServed port first second (done u) (done v) =
    ((λ h. tt, λ h. refl), (λ h. tt, λ h. refl), refl)
build_preflight_report-IsServed port first second (done u) (failed e) =
    ((λ h. tt, λ h. refl), (λ h. tt, λ h. refl), refl)
build_preflight_report-IsServed port first none (failed e) version =
    ((λ h. cc h, λ h. absurd h), (λ h. cc h, λ h. absurd h), refl)
build_preflight_report-IsServed port first (some ls) (failed e) version =
    elim (Bool-cases (listens_on port ls)) [
      | inl yes_it ↦ rw yes_it ((λ h. refl, λ h. refl), (λ h. refl, λ h. refl), refl)
      | inr not_it ↦ rw not_it ((λ h. cc h, λ h. cc h), (λ h. cc h, λ h. cc h), refl)
    ]
