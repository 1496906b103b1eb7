-- ===== src/DiskWatcher/Guard.antt =====
-- `fire`: what comes before the Actor runs, and the lock around it.
use triagearr.Base.{
  ℕ, ◌≡◌, ◌∙◌, refl, ◌⊎◌, inl, inr, List, [], ◌∷◌, ◌++◌, Bool, true, false, ◌&&◌, Option, none,
  some, arith, Bool-cases, any, any-append,
}
use triagearr.Types.{Error, Result, ok, err, DiskUsage, RunItem, Action}
use triagearr.Float.{Float}
use triagearr.Gate.{resolve_run_mode}
use triagearr.Decider.{RunPlan}
use triagearr.DiskWatcher.{
  Watcher, Answers, Effect, acquired, released, run_inserted, items_inserted, armed, executed,
  reported, alerted, sent_marked, state_cleared, run_in_progress, Outcome, acts, with_actions,
  notify_run, with_state, maybe_alert_shortfall, new_run, with_execution, with_items, with_id,
  with_plan, guarded, fire, is_short, alert_key,
}

-- An effect on the lock, or a run of the Actor.
abbrev pub is_critical : {F : Type 0} → Effect F → Bool
is_critical acquired = true
is_critical released = true
is_critical (executed id r) = true
is_critical (run_inserted r i) = false
is_critical (items_inserted i l r) = false
is_critical (armed i) = false
is_critical (reported r) = false
is_critical (alerted a) = false
is_critical (sent_marked k t r) = false
is_critical (state_cleared k r) = false

module _ (fl : Float) (w : Watcher fl.F) (a : Answers fl.F) where
  open fl use {F}

  -- No effect of a list is critical.
  abbrev pub Calm : List (Effect F) → Type 0
  Calm es = any is_critical es ≡ false

  with_actions-Calm :
      (snap : DiskUsage F) (id : ℕ) (items : List (RunItem F)) (r : Result (List Action))
      → Calm (with_actions fl w a snap id items r)
  unfolding with_actions
  with_actions-Calm snap id items (err e) = refl
  with_actions-Calm snap id items (ok []) = refl
  with_actions-Calm snap id items (ok (x ∷ xs)) = refl

  notify_run-Calm :
      (snap : DiskUsage F) (id : ℕ) (items : List (RunItem F))
      → Calm (notify_run fl w a snap id items)
  unfolding notify_run
  notify_run-Calm snap id items = elim (Bool-cases w.has_notifier) [
    | inl h ↦ simp h (with_actions-Calm snap id items (a.list_actions_by_run id))
    | inr h ↦ simp h refl
  ]

  with_state-Calm :
      (snap : DiskUsage F) (p : RunPlan F) (r : Result (Option ℕ))
      → Calm (with_state fl w a snap p r)
  unfolding with_state
  with_state-Calm snap p (err e) = refl
  with_state-Calm snap p (ok none) = refl
  with_state-Calm snap p (ok (some last)) = ground arith

  maybe_alert_shortfall-Calm :
      (snap : DiskUsage F) (p : RunPlan F) → Calm (maybe_alert_shortfall fl w a snap p)
  unfolding maybe_alert_shortfall
  maybe_alert_shortfall-Calm snap p = elim (Bool-cases (is_short p.stop_reason)) [
    | inr h ↦ simp h refl
    | inl h ↦ elim (Bool-cases w.has_notifier) [
      | inr k ↦ simp (h, k) refl
      | inl k ↦ simp (h, k) (with_state-Calm snap p (a.get_notification_state (alert_key fl w a)))
    ]
  ]

  -- The effects of a plan that is carried out under the lock: the Actor runs on a run that is
  -- recorded with its items and that a stop request can reach.
  abbrev pub Recorded : DiskUsage F → List (Effect F) → Type 0
  Recorded snap es =
      (p : RunPlan F) × (id : ℕ) × (rest : List (Effect F)) × (a.plan ≡ ok p)
      × (es
          ≡ run_inserted (new_run fl w a snap p) (ok id)
            ∷ items_inserted id p.items none
            ∷ armed id
            ∷ executed id (a.execute id)
            ∷ rest)
      × Calm rest

  with_execution-Recorded :
      (snap : DiskUsage F) (p : RunPlan F) (id : ℕ) (r : Option Error)
      → (rest : List (Effect F)) × ((with_execution fl w a snap p id r).1 ≡ executed id r ∷ rest)
        × Calm rest
  unfolding with_execution
  with_execution-Recorded snap p id (some e) = ([], refl, refl)
  with_execution-Recorded snap p id none =
      let first = notify_run fl w a snap id p.items in
      let second = maybe_alert_shortfall fl w a snap p in
      (
        first ++ second,
        refl,
        any-append is_critical first second
            ∙ simp (notify_run-Calm snap id p.items, maybe_alert_shortfall-Calm snap p) refl,
      )

  with_items-Recorded :
      (snap : DiskUsage F) (p : RunPlan F) (id : ℕ) (r : Option Error)
      → a.plan ≡ ok p
      → a.insert_run_items id p.items ≡ r
      → acts fl w a ≡ true
      → w.has_run_lock ≡ true
      → let es =
          run_inserted (new_run fl w a snap p) (ok id)
          ∷ items_inserted id p.items r
          ∷ (with_items fl w a snap p id r).1 in
        Calm es ⊎ Recorded snap es
  unfolding with_items
  with_items-Recorded snap p id (some e) q i h l = inl refl
  with_items-Recorded snap p id none q i h l =
      let (rest, made, calm) = with_execution-Recorded snap p id (a.execute id) in
      inr (p, id, rest, q, simp (h, l, made) refl, calm)

  with_id-Recorded :
      (snap : DiskUsage F) (p : RunPlan F) (r : Result ℕ)
      → a.plan ≡ ok p
      → acts fl w a ≡ true
      → w.has_run_lock ≡ true
      → let es = run_inserted (new_run fl w a snap p) r ∷ (with_id fl w a snap p r).1 in
        Calm es ⊎ Recorded snap es
  unfolding with_id
  with_id-Recorded snap p (err e) q h l = inl refl
  with_id-Recorded snap p (ok id) q h l =
      with_items-Recorded snap p id (a.insert_run_items id p.items) q refl h l

  with_plan-Recorded :
      (snap : DiskUsage F) (r : Result (RunPlan F))
      → a.plan ≡ r
      → acts fl w a ≡ true
      → w.has_run_lock ≡ true
      → Calm (with_plan fl w a snap r).1 ⊎ Recorded snap (with_plan fl w a snap r).1
  unfolding with_plan
  with_plan-Recorded snap (err e) q h l = inl refl
  with_plan-Recorded snap (ok p) q h l =
      with_id-Recorded snap p (a.insert_run (new_run fl w a snap p)) q h l

  -- A dry run is planned and recorded, no more.
  with_items-Calm :
      (snap : DiskUsage F) (p : RunPlan F) (id : ℕ) (r : Option Error)
      → acts fl w a ≡ false
      → Calm (with_items fl w a snap p id r).1
  unfolding with_items
  with_items-Calm snap p id (some e) h = refl
  with_items-Calm snap p id none h = simp h (maybe_alert_shortfall-Calm snap p)

  with_id-Calm :
      (snap : DiskUsage F) (p : RunPlan F) (r : Result ℕ)
      → acts fl w a ≡ false
      → Calm (with_id fl w a snap p r).1
  unfolding with_id
  with_id-Calm snap p (err e) h = refl
  with_id-Calm snap p (ok id) h = with_items-Calm snap p id (a.insert_run_items id p.items) h

  with_plan-Calm :
      (snap : DiskUsage F) (r : Result (RunPlan F))
      → acts fl w a ≡ false
      → Calm (with_plan fl w a snap r).1
  unfolding with_plan
  with_plan-Calm snap (err e) h = refl
  with_plan-Calm snap (ok p) h = with_id-Calm snap p (a.insert_run (new_run fl w a snap p)) h

  acts-eq : acts fl w a ≡ (w.daemon_live && w.has_actor)
  unfolding resolve_run_mode
  acts-eq = elim (Bool-cases w.daemon_live) [ inl h ↦ simp h refl | inr h ↦ simp h refl ]

  -- What one fire comes to.
  abbrev pub Fires : DiskUsage F → Outcome fl w a → Type 0
  Fires snap out =
      (((w.daemon_live && w.has_actor) ≡ false) × Calm out.1)
      ⊎ (((w.daemon_live && w.has_actor) ≡ true)
          × (a.try_acquire ≡ false)
          × (out ≡ (some run_in_progress, [])))
      ⊎ (((w.daemon_live && w.has_actor) ≡ true)
          × (a.try_acquire ≡ true)
          × ((mid : List (Effect F)) × (out.1 ≡ acquired ∷ mid ++ released ∷ [])
              × (Calm mid ⊎ Recorded snap mid)))

  -- With a run lock: a daemon that is not live, or has no Actor, never takes the lock nor runs the
  -- Actor. A live one that cannot take the lock does nothing; otherwise it takes it first and gives
  -- it back last, and runs the Actor in between at most once, on a run that was recorded with the
  -- items of the plan and armed for a stop request.
  pub fire-Fires : w.has_run_lock ≡ true → (snap : DiskUsage F) → Fires snap (fire fl w a snap)
  unfolding fire guarded
  fire-Fires l snap = elim (Bool-cases (w.daemon_live && w.has_actor)) [
    | inr h ↦ let no = acts-eq ∙ h in inl (h, simp no (with_plan-Calm snap a.plan no))
    | inl h ↦
        let yes = acts-eq ∙ h in
        elim (Bool-cases a.try_acquire) [
          | inr t ↦ inr (inl (h, t, simp (yes, l, t) refl))
          | inl t ↦ inr (
              inr (
                h,
                t,
                (
                  (with_plan fl w a snap a.plan).1,
                  simp (yes, l, t) refl,
                  with_plan-Recorded snap a.plan refl yes l,
                ),
              ))
        ]
  ]
