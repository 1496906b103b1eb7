-- ===== src/Retry/Bounds.antt =====
-- What a retried operation guarantees: the rounds, the waits, and what its result says.
use triagearr.Base.{
  ℕ, zero, suc, ◌+◌, ◌/◌, ◌≤◌, ◌<◌, ◌≡◌, ◌≢◌, refl, Option, none, some, true, false, arith, ◌⊎◌,
  inl, inr, ◌==◌, Bool-cases, Option-cases, ap, subst,
}
use triagearr.Types.{Error}
use triagearr.Retry.{
  Host, Config, default_config, jitter, next_delay, settle, unless_done, attempts, retry_do,
}

module _ {S : Type 0} (host : Host S) (cfg : Config) (op : S → Option Error × S) where
  module _
      -- What holds before a round with that many rounds and that delay left, and at the end.
      (P : ℕ → ℕ → S → Type 0) (Q : Option Error → S → Type 0)
      (cancelled : (n d : ℕ) (s : S) (e : Error) → P n d s → host.ctx_err s ≡ some e → Q (some e) s)
      (succeeds : (n d : ℕ) (s s1 : S) → P (suc n) d s → op s ≡ (none, s1) → Q none s1)
      (fails : (n d : ℕ) (s s1 : S) (e : Error)
        → P (suc n) d s
        → op s ≡ (some e, s1)
        → Q (some e) s1)
      (waits : (n d j : ℕ) (s s1 : S) (e : Error)
        → P (suc n) d s
        → op s ≡ (some e, s1)
        → e.transient ≡ true
        → n ≢ 0
        → j ≡ jitter host (d / 2) s1
        → P n (next_delay host cfg d) (host.sleep (d + j) s1)) where
    abbrev Post : Option Error × S → Type 0
    Post r = Q r.0 r.1

    pub settle-Post :
        (n d : ℕ) (s s1 : S) (again : Error → S → Option Error × S) (r : Option Error)
        → P (suc n) d s
        → op s ≡ (r, s1)
        → ((e : Error) → op s ≡ (some e, s1) → e.transient ≡ true → n ≢ 0 → Post (again e s1))
        → Post (settle host (n == 0) again r s1)
    unfolding settle
    settle-Post n d s s1 again none p e k = succeeds n d s s1 p e
    settle-Post n d s s1 again (some x) p e k = elim (Bool-cases x.transient) [
      | inr hard ↦ simp hard (fails n d s s1 x p e)
      | inl soft ↦ elim (Bool-cases (n == 0)) [
        | inl last ↦ simp (soft, last) (fails n d s s1 x p e)
        | inr more ↦ simp (soft, more) (k x e soft (ground arith))
      ]
    ]

    -- The rule for the loop: every exit establishes `Q`.
    pub attempts-Post :
        (n d : ℕ) (last : Option Error) (s : S)
        → n ≢ 0
        → P n d s
        → Post (attempts host cfg op n d last s)
    unfolding attempts unless_done
    attempts-Post zero d last s h p = absurd (h refl)
    attempts-Post (suc n) d last s h p = elim (Option-cases (host.ctx_err s)) [
      | inr (x, c) ↦ rw (c, unless_done) (cancelled (suc n) d s x p c)
      | inl c ↦
          rw (c, unless_done)
            (settle-Post n d s (op s).1 _ (op s).0 p refl (λ e f soft more.
              attempts-Post n (next_delay host cfg d) (some e) _ more
                (waits n d _ s (op s).1 e p f soft more refl)))
    ]

    pub retry_do-Post :
        (s : S)
        → cfg.max_attempts ≢ 0
        → P cfg.max_attempts cfg.base_delay s
        → Post (retry_do host cfg op s)
    unfolding retry_do
    retry_do-Post s h p = attempts-Post cfg.max_attempts cfg.base_delay none s h p

module _ {S : Type 0} (host : Host S) (cfg : Config) (op : S → Option Error × S) where
  -- How a call of `Do` that returned has ended: nil, and then the last call of the operation
  -- succeeded; the error of a call of the operation; or the context's error.
  abbrev pub Ended : Option Error → S → Type 0
  Ended none s' = (s0 : S) × (op s0 ≡ (none, s'))
  Ended (some e) s' = ((s0 : S) × (op s0 ≡ (some e, s'))) ⊎ (host.ctx_err s' ≡ some e)

  -- If at least one attempt is allowed, the error that `Do` returns is the last call's or the
  -- context's, and it is nil only after a success.
  pub retry_do-Ended :
      (s : S) → cfg.max_attempts ≢ 0 → let (r, s') = retry_do host cfg op s in Ended r s'
  retry_do-Ended s h =
      retry_do-Post host cfg op (λ n d s. Unit {0}) Ended (λ n d t e p c. inr c)
        (λ n d t t1 p e. (t, e)) (λ n d t t1 x p e. inl (t, e)) (λ n d j t t1 x p e so mo q. tt) s h
        tt

  attempts-hard :
      (s s1 : S) (e : Error)
      → host.ctx_err s ≡ none
      → op s ≡ (some e, s1)
      → e.transient ≡ false
      → (n : ℕ) → n ≢ 0
      → attempts host cfg op n cfg.base_delay none s ≡ (some e, s1)
  unfolding attempts unless_done settle
  attempts-hard s s1 e c f hard zero h = absurd (h refl)
  attempts-hard s s1 e c f hard (suc n) h = rw (c, unless_done) (rw f (simp hard))

  -- If at least one attempt is allowed and the context is not done, a first failure that is not
  -- transient is returned at once: nothing is slept and nothing called again.
  pub retry_do-hard :
      (s s1 : S) (e : Error)
      → cfg.max_attempts ≢ 0
      → host.ctx_err s ≡ none
      → op s ≡ (some e, s1)
      → e.transient ≡ false
      → retry_do host cfg op s ≡ (some e, s1)
  unfolding retry_do
  retry_do-hard s s1 e h c f hard = attempts-hard s s1 e c f hard cfg.max_attempts h

  -- If at least one attempt is allowed, the operation counts at most one call of itself and a sleep
  -- counts none, then `Do` makes no more calls than `maxAttempts`, whatever the operation returns.
  pub retry_do-calls-le :
      (calls : S → ℕ)
      → ((s : S) → calls (op s).1 ≤ calls s + 1)
      → ((d : ℕ) (s : S) → calls (host.sleep d s) ≡ calls s)
      → (s : S) → cfg.max_attempts ≢ 0
      → calls (retry_do host cfg op s).1 ≤ calls s + cfg.max_attempts
  retry_do-calls-le calls step still s h =
      retry_do-Post host cfg op (λ n d t. calls t + n ≤ calls s + cfg.max_attempts)
        (λ r t. calls t ≤ calls s + cfg.max_attempts) (λ n d t e p c. omega arith)
        (λ n d t t1 p e. omega (arith, step t, ap (λ (r : Option Error × S). calls r.1) e))
        (λ n d t t1 x p e. omega (arith, step t, ap (λ (r : Option Error × S). calls r.1) e))
        (λ n d j t t1 x p e so mo q.
          omega (arith, step t, still (d + j) t1, ap (λ (r : Option Error × S). calls r.1) e))
        s h (omega arith)

-- The defaults wait less than 2.25 s in all: 500 ms and 1 s, each with less than half of it added.
abbrev wait_left : ℕ → ℕ
wait_left zero = 0
wait_left (suc zero) = 0
wait_left (suc (suc zero)) = 1_500_000_000
wait_left (suc (suc (suc n))) = 2_250_000_000

abbrev delay_at : ℕ → ℕ
delay_at (suc (suc zero)) = 1_000_000_000
delay_at (suc (suc (suc zero))) = 500_000_000
delay_at _ = 2_000_000_000

module _ {S : Type 0} (host : Host S) (op : S → Option Error × S) where
  abbrev Budget : ℕ → ℕ → ℕ → ℕ → Type 0
  Budget start n d now = (n ≤ 3) × (d ≡ delay_at n) × (now + wait_left n ≤ start + 2_250_000_000)

  jitter-le : ((s : S) (m : ℕ) → 0 < m → host.rand s m < m) → (m : ℕ) (s : S) → jitter host m s ≤ m
  unfolding jitter
  jitter-le law m s = elim (Bool-cases (m == 0)) [
    | inl z ↦ rw z (omega arith)
    | inr p ↦ rw p (omega (arith, law s m (ground arith)))
  ]

  wait-Budget :
      (start n d j now : ℕ)
      → n ≢ 0
      → j ≤ d / 2
      → Budget start (suc n) d now
      → Budget start n (next_delay host default_config d) (now + (d + j))
  unfolding next_delay
  wait-Budget start zero d j now nz jd b = absurd (nz refl)
  wait-Budget start (suc zero) d j now nz jd b = ground arith
  wait-Budget start (suc (suc zero)) d j now nz jd b = ground arith
  wait-Budget start (suc (suc (suc n))) d j now nz jd b = absurd (omega arith)

  -- Under the default configuration, if the random source stays below its bound, the operation does
  -- not wait by itself and `sleep` waits as long as it is told, then one call of `Do` waits no
  -- longer than 2.25 seconds altogether, in nanoseconds.
  pub retry_do-waits-le :
      ((s : S) (m : ℕ) → 0 < m → host.rand s m < m)
      → (waited : S → ℕ) → ((s : S) → waited (op s).1 ≡ waited s)
      → ((d : ℕ) (s : S) → waited (host.sleep d s) ≡ waited s + d)
      → (s : S) → waited (retry_do host default_config op s).1 ≤ waited s + 2_250_000_000
  retry_do-waits-le law waited still sleeps s =
      retry_do-Post host default_config op (λ n d t. Budget (waited s) n d (waited t))
        (λ r t. waited t ≤ waited s + 2_250_000_000) (λ n d t e p c. omega arith)
        (λ n d t t1 p e. omega (arith, still t, ap (λ (r : Option Error × S). waited r.1) e))
        (λ n d t t1 x p e. omega (arith, still t, ap (λ (r : Option Error × S). waited r.1) e))
        (λ n d j t t1 x p e so mo q.
          subst (Budget (waited s) n (next_delay host default_config d))
            (omega (arith, still t, sleeps (d + j) t1, ap (λ (r : Option Error × S). waited r.1) e))
            (wait-Budget (waited s) n d j (waited t) mo (omega (arith, q, jitter-le law (d / 2) t1))
              p))
        s (omega arith) (omega arith)
