-- ===== src/Gate.antt =====
-- internal/triagearr/gate.go: how a run's mode follows from its trigger.
use triagearr.Base.{◌≡◌, refl, ◌⊎◌, inl, ◌↔◌, Bool, true, false, arith, if◌then◌else◌}
use triagearr.Types.{RunTrigger, disk_pressure, http, cli, other_trigger, RunMode, dry_run, live}

by_trigger : RunTrigger → Bool → RunMode
by_trigger disk_pressure requested_live = live
by_trigger http requested_live = if requested_live then live else dry_run
by_trigger cli requested_live = if requested_live then live else dry_run
by_trigger (other_trigger t) requested_live = dry_run

unfoldable pub resolve_run_mode : Bool → RunTrigger → Bool → RunMode
unfolding by_trigger
resolve_run_mode daemon_live trigger requested_live =
    if daemon_live then by_trigger trigger requested_live else dry_run

-- The triggers that a human opted into: pressure always, a request only when it says so.
abbrev pub OptedIn : RunTrigger → Bool → Type 0
OptedIn disk_pressure requested = Unit
OptedIn http requested = requested ≡ true
OptedIn cli requested = requested ≡ true
OptedIn (other_trigger t) requested = ⊥

-- A run is live exactly when the daemon is live and a human opted in; it is a dry run otherwise.
pub resolve_run_mode-live :
    (daemon : Bool) (t : RunTrigger) (requested : Bool)
    → ((resolve_run_mode daemon t requested ≡ live) ↔ ((daemon ≡ true) × OptedIn t requested))
      × ((resolve_run_mode daemon t requested ≡ live)
          ⊎ (resolve_run_mode daemon t requested ≡ dry_run))
unfolding resolve_run_mode
resolve_run_mode-live true disk_pressure r = (((λ h. (refl, tt)), (λ h. refl)), inl refl)
resolve_run_mode-live true http true = (((λ h. (refl, refl)), (λ h. refl)), inl refl)
resolve_run_mode-live true http false = ground arith
resolve_run_mode-live true cli true = (((λ h. (refl, refl)), (λ h. refl)), inl refl)
resolve_run_mode-live true cli false = ground arith
resolve_run_mode-live true (other_trigger t) r = ground arith
resolve_run_mode-live false t r = ground arith
