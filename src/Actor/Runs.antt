-- ===== src/Actor/Runs.antt =====
-- `Execute`: which runs act at all, how many candidates they process, and how they end.
use triagearr.Base.{
  ℕ, ◌≤◌, ◌<◌, ◌≡◌, ◌≢◌, refl, ap, ◌⊎◌, inl, inr, List, [], ◌∷◌, ◌++◌, Bool, true, false, Option,
  none, some, arith, Any, Any-append_left, length,
}
use triagearr.Base.Text.{Text, codes}
use triagearr.Types.{
  Error, Result, ok, err, Run, RunItem, RunMode, live, dry_run, other_mode, RunTrigger,
  disk_pressure, http, cli, other_trigger,
}
use triagearr.Actor.World.{
  Event, run_read, status_marked, stop_marked, Trace, Env, ◌>>=◌, Does, Does-after, Does-bind,
  Does-weaken,
}
use triagearr.Actor.Closing.{opened, opened-nil, opened-one, opened-append}
use triagearr.Actor.Capped.{Capped, run_items-Capped}
use triagearr.Actor.Calls.{get_run, mark_run_status, mark_run_stopped}
use triagearr.Actor.{ended, is_live, is_allowed, run_items, close_run, start_run, with_run, execute}

-- The triggers that may execute a run.
abbrev pub IsKnown : RunTrigger → Type 0
IsKnown t = (t ≡ disk_pressure) ⊎ (t ≡ http) ⊎ (t ≡ cli)

is_live-cases :
    (m : RunMode) → ((m ≡ live) × (is_live m ≡ true)) ⊎ ((m ≢ live) × (is_live m ≡ false))
unfolding is_live
is_live-cases live = inl (refl, refl)
is_live-cases dry_run = inr ((λ h. cc), refl)
is_live-cases (other_mode m) = inr ((λ h. cc), refl)

is_allowed-cases :
    (t : RunTrigger)
    → (IsKnown t × (is_allowed t ≡ true)) ⊎ ((¬ IsKnown t) × (is_allowed t ≡ false))
unfolding is_allowed
is_allowed-cases disk_pressure = inl (inl refl, refl)
is_allowed-cases http = inl (inr (inl refl), refl)
is_allowed-cases cli = inl (inr (inr refl), refl)
is_allowed-cases (other_trigger t) =
    inr ((λ h. elim h [ inl a ↦ cc | inr (inl a) ↦ cc | inr (inr a) ↦ cc ]), refl)

module _ {F : Type 0} (w : Env F) (run_id : ℕ) where
  -- The run was recorded as stopped or as completed.
  abbrev pub IsTerminal : Event F → Type 0
  IsTerminal e = (e ≡ stop_marked run_id none) ⊎ (e ≡ status_marked run_id (codes "completed") none)

  -- What a run that went ahead has done.
  abbrev pub Acted : List (RunItem F) → Option Error → Trace F → Type 0
  Acted items r ext =
      (opened ext ≤ length items)
      × (0 < w.max_deletions_per_run → opened ext ≤ w.max_deletions_per_run)
      × (r ≡ none → Any IsTerminal ext)

  -- Why a run was not touched beyond being read.
  abbrev pub Refused : Trace F → Option Error → Type 0
  Refused tr r =
      ((x : Error) × (w.get_run tr run_id ≡ err x) × (r ≢ none))
      ⊎ ((run : Run F) × (items : List (RunItem F)) × (w.get_run tr run_id ≡ ok (run, items))
          × (((run.mode ≢ live) × (r ≡ none))
              ⊎ ((run.mode ≡ live) × ¬ IsKnown run.triggered_by × (r ≢ none))))

  -- How a run ends or acts.
  abbrev pub Executes : Trace F → Option Error → Trace F → Type 0
  Executes tr r ext =
      ((ext ≡ run_read run_id ∷ []) × Refused tr r)
      ⊎ ((run : Run F) × (items : List (RunItem F)) × (w.get_run tr run_id ≡ ok (run, items))
          × (run.mode ≡ live)
          × IsKnown run.triggered_by
          × Acted items r ext)

  ended-none : (s : Text) (r : Option Error) → ended s r ≡ none → r ≡ none
  unfolding ended
  ended-none s none e = refl
  ended-none s (some x) e = cc

  close_run-Acted :
      (stopped : Bool) (tr : Trace F)
      → Does
          (close_run w run_id stopped tr)
          tr
          (λ r ext. (opened ext ≡ 0) × (r ≡ none → Any IsTerminal ext))
  unfolding close_run mark_run_status mark_run_stopped
  close_run-Acted true tr =
      (_, _ ∷ [], refl, (opened-one _, λ e. inl (inl (ap (stop_marked run_id) (ended-none _ _ e)))))
  close_run-Acted false tr = (
    _,
    _ ∷ [],
    refl,
    (
      opened-one _,
      λ e. inl (inr (ap (status_marked run_id (codes "completed")) (ended-none _ _ e))),
    ),
  )

  start_run-Acted :
      (items : List (RunItem F)) (r : Option Error) (tr : Trace F)
      → Does (start_run w run_id items r tr) tr (Acted items)
  unfolding start_run
  start_run-Acted items none tr =
      Does-bind (run_items w run_id 0 items tr) (close_run w run_id) tr (Capped w 0 items)
        (Acted items) (run_items-Capped w run_id 0 items tr)
        (λ stopped ext p. Does-weaken _ _ _ _ (close_run-Acted stopped (ext ++ tr)) (λ r more q.
          let total = opened-append more ext in
          (
            omega (arith, total, p.0, q.0),
            λ c. let under = p.1 c (omega arith) in omega (arith, total, under, q.0),
            λ e. Any-append_left _ more ext (q.1 e),
          )))
  start_run-Acted items (some x) tr = (
    _,
    [],
    refl,
    (omega (arith, opened-nil [] refl), (λ c. omega (arith, opened-nil [] refl)), λ e. cc),
  )

  mark-Acted :
      (items : List (RunItem F)) (tr : Trace F)
      → Does
          ((mark_run_status w run_id (codes "running") >>= start_run w run_id items)
            (run_read run_id ∷ tr))
          tr
          (Acted items)
  unfolding mark_run_status
  mark-Acted items tr =
      let marked : Event F =
        status_marked run_id (codes "running")
          (w.mark_run_status (run_read run_id ∷ tr) run_id (codes "running")) in
      Does-after _ _ tr (Acted items) (
        Does-after _ _ (_ ∷ tr) _ (
          Does-weaken _ _ (Acted items) _ (start_run-Acted items _ (_ ∷ _ ∷ tr)) (λ r more p.
            let whole = opened-append (more ++ marked ∷ []) (run_read run_id ∷ []) in
            let part = opened-append more (marked ∷ []) in
            let first = opened-one {F = F} (run_read run_id) in
            let second = opened-one marked in
            (
              omega (arith, whole, part, first, second, p.0),
              λ c. let under = p.1 c in omega (arith, whole, part, first, second, under),
              λ e. Any-append_left _ (more ++ marked ∷ []) _ (Any-append_left _ more _ (p.2 e)),
            ))))

  with_run-Executes :
      (got : Result (Run F × List (RunItem F))) (tr : Trace F)
      → w.get_run tr run_id ≡ got
      → Does (with_run w run_id got (run_read run_id ∷ tr)) tr (Executes tr)
  unfolding with_run
  with_run-Executes (err x) tr e = (_, _ ∷ [], refl, inl (refl, inl (x, e, λ h. cc)))
  with_run-Executes (ok (run, items)) tr e = elim (is_live-cases run.mode) [
    | inr (m, dry) ↦ simp dry (_, _ ∷ [], refl, inl (refl, inr (run, items, e, inl (m, refl))))
    | inl (m, acts) ↦ elim (is_allowed-cases run.triggered_by) [
      | inr (t, other) ↦
          simp (acts, other) (_, _ ∷ [], refl, inl (refl, inr (run, items, e, inr (m, t, λ h. cc))))
      | inl (t, known) ↦
          simp (acts, known)
            (Does-weaken _ tr (Acted items) _ (mark-Acted items tr)
              (λ r ext p. inr (run, items, e, m, t, p)))
    ]
  ]

  -- A run that is not live, or whose trigger is neither pressure, HTTP nor the command line, is
  -- read and nothing else is called; so is one that cannot be read. Any other run processes no more
  -- candidates than it has items, and no more than the cap if there is one; and if it returns no
  -- error, it was recorded as stopped or as completed.
  pub execute-Executes : (tr : Trace F) → Does (execute w run_id tr) tr (Executes tr)
  unfolding execute get_run
  execute-Executes tr = with_run-Executes (w.get_run tr run_id) tr refl
