-- ===== src/Tests/Acting.antt =====
-- The Actor, the retries and the run modes.
use triagearr.Base.{
  ℕ, ◌+◌, ◌≤◌, ◌≡◌, refl, ◌⊎◌, ◌↔◌, [], ◌∷◌, true, false, Option, none, some, arith, ◌==◌,
  if◌then◌else◌,
}
use triagearr.Types.{Error, http, live, dry_run}
use triagearr.Retry.{Host, default_config, retry_do}
use triagearr.Retry.Bounds.{retry_do-Ended, retry_do-waits-le, Ended}
use triagearr.Gate.{resolve_run_mode, resolve_run_mode-live, OptedIn}
use triagearr.Actor.World.{Does}
use triagearr.Actor.{process_candidate, execute}
use triagearr.Actor.Order.{IsOrdered, process_candidate-IsOrdered}
use triagearr.Actor.Closing.{opened, closed, process_candidate-Counts}
use triagearr.Actor.Runs.{Executes, execute-Executes}
use triagearr.Tests.Values.{calm, item_a}

process_candidate-IsOrdered_example :
    Does (process_candidate calm 1 item_a []) [] (λ r ext. IsOrdered calm item_a ext)
process_candidate-IsOrdered_example = process_candidate-IsOrdered calm item_a 1 []

process_candidate-Counts_example :
    Does (process_candidate calm 1 item_a []) [] (λ r ext. (opened ext ≡ 1) × (closed ext ≡ 1 ∷ []))
process_candidate-Counts_example = process_candidate-Counts calm item_a 1 []

execute-Executes_example : Does (execute calm 1 []) [] (Executes calm 1 [])
execute-Executes_example = execute-Executes calm 1 []

-- A state that counts the calls and adds up the waits.
abbrev Meter : Type 0
Meter = ℕ × ℕ

abbrev meter : Host Meter
meter = record { ctx_err = λ s. none; rand = λ s n. 0; sleep = λ d s. (s.0, s.1 + d) }

abbrev timeout : Error
timeout = record { transient = true; not_exist = false; message = [] }

abbrev refusal : Error
refusal = record { transient = false; not_exist = false; message = [] }

-- The operation fails twice.
abbrev flaky : Meter → Option Error × Meter
flaky s = (if s.0 == 2 then none else some timeout, (s.0 + 1, s.1))

abbrev refused : Meter → Option Error × Meter
refused s = (some refusal, (s.0 + 1, s.1))

flaky_run : retry_do meter default_config flaky (0, 0) ≡ (none, (3, 1_500_000_000))
unfolding retry_do
flaky_run = refl

retry_do-Ended_example :
    let (r, s) = retry_do meter default_config flaky (0, 0) in Ended meter default_config flaky r s
retry_do-Ended_example = retry_do-Ended meter default_config flaky (0, 0) (omega arith)

retry_do-waits-le_example : (retry_do meter default_config flaky (0, 0)).1.1 ≤ 0 + 2_250_000_000
retry_do-waits-le_example =
    retry_do-waits-le meter flaky (λ s m h. h) (λ s. s.1) (λ s. refl) (λ d s. refl) (0, 0)

resolve_run_mode-live_example :
    ((resolve_run_mode true http true ≡ live) ↔ ((true ≡ true) × OptedIn http true))
    × ((resolve_run_mode true http true ≡ live) ⊎ (resolve_run_mode true http true ≡ dry_run))
resolve_run_mode-live_example = resolve_run_mode-live true http true
