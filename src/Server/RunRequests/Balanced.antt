-- ===== src/Server/RunRequests/Balanced.antt =====
-- `handlePostRun` and `executeRunAsync`: who gives the run slot back, and when.
use triagearr.Base.{
  ℕ, ◌≡◌, refl, ◌⊎◌, inl, inr, List, [], ◌∷◌, ◌++◌, Bool, true, false, ◌&&◌, Option, none, some,
  Bool-cases, any, and-true, is_empty, All,
}
use triagearr.Base.Text.{Text, text_eq, codes}
use triagearr.Types.{Error, Result, ok, err, Run, http}
use triagearr.Gate.{resolve_run_mode}
use triagearr.Decider.{RunPlan}
use triagearr.DiskWatcher.{is_live_mode}
use triagearr.Server.RunRequests.{
  PostRunBody, no_body, not_decoded, decoded, RunAnswers, RunEffect, acquired, released, cancelled,
  run_inserted, items_inserted, armed, launched, executed, status_marked, stop_requested,
  async_failed, execute_run_async, items_stored, id_given, http_run, persisted, slot_guarded,
  mode_of, plan_made, requested_run, handle_post_run,
}

-- An effect on the slot, on the stop registry, or on torrents.
abbrev pub is_slot : {F : Type 0} → RunEffect F → Bool
is_slot acquired = true
is_slot released = true
is_slot cancelled = true
is_slot (run_inserted r i) = false
is_slot (items_inserted i l r) = false
is_slot (armed i) = true
is_slot (launched i) = true
is_slot (executed i r) = true
is_slot (status_marked i t r) = false
is_slot (stop_requested i r) = true

module _ {F : Type 0} (a : RunAnswers F) where
  abbrev pub IsIdle : List (RunEffect F) → Type 0
  IsIdle es = any is_slot es ≡ false

  -- The goroutine of a run executes it once, and gives the slot back once.
  abbrev pub IsReleased : ℕ → Type 0
  IsReleased id =
      (mid : List (RunEffect F)) × IsIdle mid
      × (execute_run_async a id ≡ executed id (a.execute id) ∷ mid ++ released ∷ cancelled ∷ [])

  async_failed-IsIdle : (id : ℕ) (r : Option Error) → IsIdle (async_failed a id r)
  unfolding async_failed
  async_failed-IsIdle id none = refl
  async_failed-IsIdle id (some e) = refl

  execute_run_async-IsReleased : (id : ℕ) → IsReleased id
  unfolding execute_run_async
  execute_run_async-IsReleased id =
      (async_failed a id (a.execute id), async_failed-IsIdle id (a.execute id), refl)

  -- The run and the items of a write are those of the plan that was made, and its outcome is what
  -- the store answered.
  abbrev pub IsOfPlan : RunEffect F → Type 0
  IsOfPlan (run_inserted r i) =
      (p : RunPlan F) × (a.plan ≡ ok p)
      × (r.triggered_by ≡ http)
      × (r.estimated_freed_bytes ≡ p.estimated_freed_bytes)
      × (r.stop_reason ≡ p.stop_reason)
      × (a.insert_run r ≡ i)
  IsOfPlan (items_inserted id items e) =
      (p : RunPlan F) × (a.plan ≡ ok p) × (items ≡ p.items) × (a.insert_run_items id p.items ≡ e)
  IsOfPlan _ = Unit

  -- The effects of a handler that holds the slot, with the run's row `r` and the plan `p`: they end by
  -- giving it back after a write that failed, or by arming and launching the run that was stored.
  abbrev pub Hands : Run F → RunPlan F → List (RunEffect F) → Type 0
  Hands r p es =
      ((e : Error) × (a.insert_run r ≡ err e) × (es ≡ run_inserted r (err e) ∷ released ∷ []))
      ⊎ ((id : ℕ) × (a.insert_run r ≡ ok id)
          × (((e : Error) × (a.insert_run_items id p.items ≡ some e)
                × (es
                    ≡ run_inserted r (ok id) ∷ items_inserted id p.items (some e) ∷ released ∷ []))
              ⊎ ((a.insert_run_items id p.items ≡ none)
                  × (es
                      ≡ run_inserted r (ok id)
                        ∷ items_inserted id p.items none
                        ∷ armed id
                        ∷ launched id
                        ∷ [])
                  × IsReleased id)))

  -- All effects of a run request, `requested` being the mode that it names.
  abbrev pub Requests : Text → List (RunEffect F) → Type 0
  Requests requested es =
      All IsOfPlan es
      × (IsIdle es
          ⊎ ((mid : List (RunEffect F)) × (r : Run F) × (p : RunPlan F) × (es ≡ acquired ∷ mid)
              × (a.daemon_live ≡ true)
              × (text_eq requested (codes "live") ≡ true)
              × (a.has_actor ≡ true)
              × (a.try_acquire ≡ true)
              × (a.plan ≡ ok p)
              × (r.status ≡ codes "pending")
              × Hands r p mid))

  -- The facts about a run's row.
  abbrev IsRowOf : Run F → RunPlan F → Type 0
  IsRowOf r p =
      (r.triggered_by ≡ http)
      × (r.estimated_freed_bytes ≡ p.estimated_freed_bytes)
      × (r.stop_reason ≡ p.stop_reason)

  items_stored-IsIdle :
      (r : Run F) (p : RunPlan F) (id : ℕ) (e : Option Error)
      → IsIdle (items_stored a false r p id e).1
  unfolding items_stored
  items_stored-IsIdle r p id (some e) = refl
  items_stored-IsIdle r p id none = refl

  items_stored-IsOfPlan :
      (live : Bool) (r : Run F) (p : RunPlan F) (id : ℕ) (e : Option Error)
      → All IsOfPlan (items_stored a live r p id e).1
  unfolding items_stored
  items_stored-IsOfPlan true r p id (some e) = (tt, tt)
  items_stored-IsOfPlan true r p id none = (tt, (tt, tt))
  items_stored-IsOfPlan false r p id (some e) = tt
  items_stored-IsOfPlan false r p id none = tt

  id_given-IsOfPlan :
      (live : Bool) (r : Run F) (p : RunPlan F) (i : Result ℕ)
      → a.plan ≡ ok p
      → All IsOfPlan (id_given a live r p i).1
  unfolding id_given
  id_given-IsOfPlan true r p (err e) made = (tt, tt)
  id_given-IsOfPlan false r p (err e) made = tt
  id_given-IsOfPlan live r p (ok id) made =
      ((p, made, refl, refl), items_stored-IsOfPlan live r p id (a.insert_run_items id p.items))

  persisted-IsOfPlan :
      (live : Bool) (r : Run F) (p : RunPlan F)
      → a.plan ≡ ok p
      → IsRowOf r p
      → All IsOfPlan (persisted a live r p).1
  unfolding persisted
  persisted-IsOfPlan live r p made (t, f, s) =
      ((p, made, t, f, s, refl), id_given-IsOfPlan live r p (a.insert_run r) made)

  id_given-IsIdle : (r : Run F) (p : RunPlan F) (i : Result ℕ) → IsIdle (id_given a false r p i).1
  unfolding id_given
  id_given-IsIdle r p (err e) = refl
  id_given-IsIdle r p (ok id) = items_stored-IsIdle r p id (a.insert_run_items id p.items)

  -- The items' write, with what the store answered.
  id_given-Hands :
      (r : Run F) (p : RunPlan F) (id : ℕ) (e : Option Error)
      → a.insert_run r ≡ ok id
      → a.insert_run_items id p.items ≡ e
      → Hands r p
          (run_inserted r (ok id) ∷ items_inserted id p.items e ∷ (items_stored a true r p id e).1)
  unfolding items_stored
  id_given-Hands r p id (some e) one two = inr (id, one, inl (e, two, refl))
  id_given-Hands r p id none one two =
      inr (id, one, inr (two, refl, execute_run_async-IsReleased id))

  persisted-Hands :
      (r : Run F) (p : RunPlan F) (i : Result ℕ)
      → a.insert_run r ≡ i
      → Hands r p (run_inserted r i ∷ (id_given a true r p i).1)
  unfolding id_given
  persisted-Hands r p (err e) one = inl (e, one, refl)
  persisted-Hands r p (ok id) one = id_given-Hands r p id (a.insert_run_items id p.items) one refl

  live-requested :
      (daemon asked : Bool)
      → is_live_mode (resolve_run_mode daemon http asked) ≡ true
      → (daemon ≡ true) × (asked ≡ true)
  unfolding resolve_run_mode
  live-requested true true h = (refl, refl)
  live-requested true false h = absurd cc
  live-requested false asked h = absurd cc

  slot_guarded-Requests :
      (requested : Text) (acts : Bool) (p : RunPlan F)
      → a.plan ≡ ok p
      → (is_live_mode (mode_of a requested) && a.has_actor) ≡ acts
      → Requests requested (slot_guarded a acts (mode_of a requested) p).1
  unfolding slot_guarded persisted http_run
  slot_guarded-Requests requested false p made h =
      let r = http_run a (mode_of a requested) false p in
      (
        persisted-IsOfPlan false r p made (refl, refl, refl),
        inl (id_given-IsIdle r p (a.insert_run r)),
      )
  slot_guarded-Requests requested true p made h = elim (Bool-cases a.try_acquire) [
    | inr busy ↦ simp busy (tt, inl refl)
    | inl free ↦
        let (is_live, actor) = and-true (is_live_mode (mode_of a requested)) a.has_actor h in
        let (daemon, asked) =
          live-requested a.daemon_live (text_eq requested (codes "live")) is_live in
        let r = http_run a (mode_of a requested) true p in
        let writes = persisted-IsOfPlan true r p made (refl, refl, refl) in
        let hands = persisted-Hands r p (a.insert_run r) refl in
        simp free (
          (tt, writes),
          inr ((persisted a true r p).1, r, p, refl, daemon, asked, actor, refl, made, refl, hands),
        )
  ]

  plan_made-Requests :
      (requested : Text) (r : Result (RunPlan F))
      → a.plan ≡ r
      → Requests requested (plan_made a requested r).1
  unfolding plan_made
  plan_made-Requests requested (err e) made = (tt, inl refl)
  plan_made-Requests requested (ok p) made =
      slot_guarded-Requests requested (is_live_mode (mode_of a requested) && a.has_actor) p made
        refl

  requested_run-Requests : (requested : Text) → Requests requested (requested_run a requested).1
  unfolding requested_run
  requested_run-Requests requested = elim (Bool-cases (is_empty a.volume.path)) [
    | inl h ↦ simp h (tt, inl refl)
    | inr h ↦ simp h (plan_made-Requests requested a.plan refl)
  ]

  -- The mode that a body names; no body names none.
  abbrev pub requested_mode : PostRunBody → Text
  requested_mode no_body = []
  requested_mode not_decoded = []
  requested_mode (decoded mode) = mode

  -- Whatever a run request writes is a run with the outcome of the plan that was made for it, or
  -- the items of that plan. Either it leaves the slot, the stop registry and the torrents alone; or the
  -- daemon is live, the body asks for a live run, there is an Actor and the slot was free. Then the
  -- handler takes the slot first and inserts a pending run, and then the plan's items under the id that
  -- the run got. If either write fails, it ends by giving the slot back, having launched nothing; else
  -- it ends by arming and launching that run, once, whose goroutine executes it once and gives the
  -- slot back once.
  pub handle_post_run-Requests :
      (body : PostRunBody) → Requests (requested_mode body) (handle_post_run a body).1
  unfolding handle_post_run
  handle_post_run-Requests no_body = requested_run-Requests []
  handle_post_run-Requests not_decoded = (tt, inl refl)
  handle_post_run-Requests (decoded mode) = requested_run-Requests mode
