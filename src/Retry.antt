-- ===== src/Retry.antt =====
-- internal/x/retry/retry.go. The state `S` is whatever the operation, the clock and the random
-- source act on; an operation that fails returns its error.
pub mod Bounds
use triagearr.Base.{
  ℕ, zero, suc, ◌+◌, ◌*◌, ◌/◌, Option, none, some, Bool, leb, ltb, ◌==◌, if◌then◌else◌,
}
use triagearr.Types.{Error, Duration}

-- What the operation runs against: `ctx.Err()`, `rand.Int64N` and the `sleep` hook.
pub record Host (S : Type 0) : Type 0 where
  pub ctx_err : S → Option Error
  pub rand : S → ℕ → ℕ
  pub sleep : Duration → S → S

pub record Config : Type 0 where
  pub max_attempts : ℕ
  pub base_delay : Duration
  pub max_delay : Duration

-- 3 attempts, 500 ms, 4 s, in nanoseconds.
abbrev pub default_config : Config
default_config = record { max_attempts = 3; base_delay = 500_000_000; max_delay = 4_000_000_000 }

module _ {S : Type 0} (host : Host S) where
  pub jitter : ℕ → S → ℕ
  jitter max s = if max == 0 then 0 else host.rand s max

  pub next_delay : Config → Duration → Duration
  next_delay cfg delay = if ltb cfg.max_delay (delay * 2) then cfg.max_delay else delay * 2

  -- The tests that follow a call: success, a hard failure, the last round, or another round.
  pub settle : Bool → (Error → S → Option Error × S) → Option Error → S → Option Error × S
  settle last_round again none s = (none, s)
  settle last_round again (some e) s =
      if e.transient then (if last_round then (some e, s) else again e s) else (some e, s)

  pub unless_done : Option Error → S → (S → Option Error × S) → Option Error × S
  unless_done (some e) s k = (some e, s)
  unless_done none s k = k s

  module _ (cfg : Config) (op : S → Option Error × S) where
    -- The rounds left, the delay, the last error.
    pub attempts : ℕ → Duration → Option Error → S → Option Error × S
    attempts zero delay last s = (last, s)
    attempts (suc n) delay last s = unless_done (host.ctx_err s) s λ s0.
        settle (n == 0)
          (λ e s1.
            attempts n (next_delay cfg delay) (some e)
              (host.sleep (delay + jitter (delay / 2) s1) s1))
          (op s0).0 (op s0).1

    -- `retry.Do`.
    unfoldable pub retry_do : S → Option Error × S
    unfolding attempts next_delay jitter settle unless_done
    retry_do s = attempts cfg.max_attempts cfg.base_delay none s
