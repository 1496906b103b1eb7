-- ===== src/Actor/Capped.antt =====
-- How many candidates a run takes.
use triagearr.Base.{
  ℕ, ◌+◌, ◌≤◌, ◌<◌, ◌≡◌, refl, inl, inr, List, [], ◌∷◌, ◌++◌, Bool, true, false, not, arith, ltb,
  Bool-cases, length, is_empty, ◌&&◌,
}
use triagearr.Types.{RunItem}
use triagearr.Actor.World.{Trace, Env, M, ◌>>◌, Does, Does-bind, Does-weaken}
use triagearr.Actor.Calls.{sleep, stop_requested}
use triagearr.Actor.{process_candidate, pause, over_cap, round, run_items}
use triagearr.Actor.Closing.{opened, closed, opened-append, Counts, process_candidate-Counts}

module _ {F : Type 0} (w : Env F) where
  abbrev pub Capped : ℕ → List (RunItem F) → Bool → Trace F → Type 0
  Capped i items stopped ext =
      (opened ext ≤ length items)
      × (0 < w.max_deletions_per_run
          → i ≤ w.max_deletions_per_run
          → i + opened ext ≤ w.max_deletions_per_run)
      × (stopped ≡ false → w.max_deletions_per_run ≡ 0 → opened ext ≡ length items)

  pause-Does :
      (rest : List (RunItem F)) (tr : Trace F) → Does (pause w rest tr) tr (λ b. Counts 0 [])
  unfolding pause sleep opened closed
  pause-Does rest tr = elim (Bool-cases (not (is_empty rest) && ltb 0 w.inter_action_delay)) [
    | inl waits ↦ rw waits (tt, _ ∷ [], refl, (refl, refl))
    | inr goes_on ↦ rw goes_on (tt, [], refl, (refl, refl))
  ]

  next-Capped :
      (run_id i : ℕ) (item : RunItem F) (rest : List (RunItem F)) (next : M F Bool) (tr : Trace F)
      → (0 < w.max_deletions_per_run → i < w.max_deletions_per_run)
      → ((s : Trace F) → Does (next s) s (Capped (i + 1) rest))
      → Does
          ((process_candidate w run_id item >> (pause w rest >> next)) tr)
          tr
          (Capped i (item ∷ rest))
  next-Capped run_id i item rest next tr room ih =
      Does-bind (process_candidate w run_id item tr) (λ _. pause w rest >> next) tr
        (λ b ext. opened ext ≡ 1) (Capped i (item ∷ rest))
        (Does-weaken _ tr _ _ (process_candidate-Counts w item run_id tr) (λ b ext p. p.0))
        (λ b ext one.
          Does-bind (pause w rest (ext ++ tr)) (λ _. next) (ext ++ tr) (λ _. Counts 0 []) _
            (pause-Does rest (ext ++ tr))
            (λ c wait z. Does-weaken _ _ (Capped (i + 1) rest) _ (ih _) (λ d more p.
              let total = opened-append (more ++ wait) ext in
              let part = opened-append more wait in
              (
                omega (arith, total, part, p.0, z.0, one),
                λ capped under.
                    let here = room capped in
                    let there = p.1 capped (omega (arith, here)) in
                    omega (arith, total, part, z.0, one, there),
                λ ran uncapped.
                    let all = p.2 ran uncapped in omega (arith, total, part, z.0, one, all),
              ))))

  round-Capped :
      (run_id i : ℕ) (item : RunItem F) (rest : List (RunItem F)) (next : M F Bool) (b : Bool)
      (tr : Trace F)
      → ((s : Trace F) → Does (next s) s (Capped (i + 1) rest))
      → Does (round w run_id i item rest next b tr) tr (Capped i (item ∷ rest))
  unfolding round opened over_cap
  round-Capped run_id i item rest next true tr ih =
      (true, [], refl, (omega arith, (λ c u. omega (arith, u)), (λ e z. cc)))
  round-Capped run_id i item rest next false tr ih = elim (Bool-cases (over_cap w i)) [
    | inl full ↦ rw full (
      false,
      [],
      refl,
      (omega arith, (λ c u. omega (arith, u)), (λ e z. absurd (ground (arith, z)))),
    )
    | inr room ↦ rw room (next-Capped run_id i item rest next tr (λ c. ground (arith, c)) ih)
  ]

  pub run_items-Capped :
      (run_id i : ℕ) (items : List (RunItem F)) (tr : Trace F)
      → Does (run_items w run_id i items tr) tr (Capped i items)
  unfolding run_items stop_requested opened
  run_items-Capped run_id i [] tr =
      (false, [], refl, (omega arith, (λ c u. omega (arith, u)), (λ e z. refl)))
  run_items-Capped run_id i (item ∷ rest) tr =
      round-Capped run_id i item rest (run_items w run_id (i + 1) rest) _ tr
        (run_items-Capped run_id (i + 1) rest)
