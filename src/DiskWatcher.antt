-- ===== src/DiskWatcher.antt =====
-- internal/triggers/disk_watcher.go, and the types of internal/notify/format.go that it fills: when
-- the watcher fires, what one fire does, and the two notifications. The answers to the calls of one
-- tick are given; what it does to the outside is a list of effects, oldest first. Log lines, and the
-- time limit on planning, are left out.
pub mod Guard
pub mod Throttle
mod Model
unfoldable pub use Model.*
use triagearr.Base.{
  ℕ, List, [], ◌∷◌, ◌++◌, map, Bool, true, false, not, ◌&&◌, Option, none, some, if◌then◌else◌,
  length, leb,
}
use triagearr.Base.Int.{ℤ, pos, ltb_ℤ}
use triagearr.Base.Words.{add64, sub64}
use triagearr.Base.Text.{Text, text_eq, codes}
use triagearr.Types.{
  Hash, Time, Duration, Error, Result, ok, err, DiskUsage, Run, RunItem, Action, ActionStatus,
  succeeded, RunMode, live, disk_pressure, RunStopReason, no_more_candidates, target_reached,
  user_stopped, dry_run, other_mode,
}
use triagearr.Float.{Float, zero_f, sub_time}
use triagearr.Gate.{resolve_run_mode}
use triagearr.Decider.{RunPlan, needed_bytes}

module _ (fl : Float) (w : Watcher fl.F) (a : Answers fl.F) where
  open fl use {F, lt}

  abbrev pub Outcome : Type 0
  Outcome = Option FireError × List (Effect F)

  -- `mode` and `live` of `fire`.
  abbrev pub run_mode : RunMode
  run_mode = resolve_run_mode w.daemon_live disk_pressure false

  abbrev pub acts : Bool
  acts = is_live_mode run_mode && w.has_actor

  report_item : List (Hash × Text) → List (RunItem F) → Action → ReportItem
  report_item names items x = record {
    name = name_of names x.torrent_hash;
    hash = x.torrent_hash;
    size_bytes = size_of items x.torrent_hash;
    status = x.status;
  }

  names_or_none : Result (List (Hash × Text)) → List (Hash × Text)
  names_or_none (err e) = []
  names_or_none (ok names) = names

  -- The report without an `after` figure.
  plain_report : DiskUsage F → ℕ → List (RunItem F) → List Action → Report F
  unfolding report_item names_or_none
  plain_report snap id items actions = record {
    volume_name = w.rule.name;
    mode = run_mode;
    run_id = id;
    free_pct_before = snap.free_percent;
    free_bytes_before = snap.free_bytes;
    free_pct_after = zero_f fl;
    free_bytes_after = 0;
    target_free_pct = w.rule.target_free_percent;
    items =
        map
          (report_item
            (names_or_none (a.torrent_names_by_hashes (map (λ x. x.torrent_hash) actions))) items)
          actions;
    total_freed_bytes = total_freed actions 0;
    real_freed_bytes = 0;
  }

  resampled : Option (Result (DiskUsage F)) → Report F → Report F
  resampled none r = r
  resampled (some (err e)) r = r
  resampled (some (ok after)) r = record r {
    free_pct_after = after.free_percent;
    free_bytes_after = after.free_bytes;
    real_freed_bytes = sub64 after.free_bytes r.free_bytes_before;
  }

  unfoldable pub report : DiskUsage F → ℕ → List (RunItem F) → List Action → Report F
  unfolding plain_report resampled
  report snap id items actions = resampled a.sample (plain_report snap id items actions)

  with_actions : DiskUsage F → ℕ → List (RunItem F) → Result (List Action) → List (Effect F)
  with_actions snap id items (err e) = []
  with_actions snap id items (ok []) = []
  with_actions snap id items (ok (x ∷ xs)) = reported (report snap id items (x ∷ xs)) ∷ []

  unfoldable pub notify_run : DiskUsage F → ℕ → List (RunItem F) → List (Effect F)
  unfolding with_actions
  notify_run snap id items =
      if not w.has_notifier then [] else with_actions snap id items (a.list_actions_by_run id)

  -- `key`.
  abbrev pub alert_key : Text
  alert_key = codes "target_unreachable:" ++ w.rule.name

  unfoldable pub alert : DiskUsage F → RunPlan F → Alert F
  alert snap p = record {
    volume_name = w.rule.name;
    mode = run_mode;
    free_pct = snap.free_percent;
    target_free_pct = w.rule.target_free_percent;
    need_bytes = needed_bytes fl snap.total_bytes snap.free_percent w.rule.target_free_percent;
    reclaimable_bytes = p.estimated_freed_bytes;
    candidate_count = length p.items;
  }

  -- `sent && now.Sub(last) < w.TargetUnreachableReminder`.
  is_reminded : Option Time → Bool
  is_reminded none = false
  is_reminded (some last) = ltb_ℤ (sub_time a.now_alert last) (pos w.target_unreachable_reminder)

  pub with_state : DiskUsage F → RunPlan F → Result (Option Time) → List (Effect F)
  unfolding is_reminded
  with_state snap p (err e) = []
  with_state snap p (ok sent) =
      if is_reminded sent
      then []
      else alerted (alert snap p)
        ∷ sent_marked alert_key a.now_alert (a.mark_notification_sent alert_key a.now_alert)
        ∷ []

  unfoldable pub maybe_alert_shortfall : DiskUsage F → RunPlan F → List (Effect F)
  unfolding with_state
  maybe_alert_shortfall snap p =
      if not (is_short p.stop_reason)
      then state_cleared alert_key (a.clear_notification_state alert_key) ∷ []
      else (if not w.has_notifier
          then []
          else with_state snap p (a.get_notification_state alert_key))

  pub new_run : DiskUsage F → RunPlan F → Run F
  new_run snap p = record {
    id = 0;
    triggered_by = disk_pressure;
    triggered_at = a.now_run;
    mode = run_mode;
    free_pct_at_fire = snap.free_percent;
    target_free_pct = w.rule.target_free_percent;
    estimated_freed_bytes = p.estimated_freed_bytes;
    stop_reason = p.stop_reason;
    status = codes "completed";
  }

  pub with_execution : DiskUsage F → RunPlan F → ℕ → Option Error → Outcome
  with_execution snap p id (some e) =
      (some (fire_failed (within (codes "actor execute: ") e)), executed id (some e) ∷ [])
  with_execution snap p id none =
      (none, executed id none ∷ notify_run snap id p.items ++ maybe_alert_shortfall snap p)

  abbrev pub and_then : List (Effect F) → Outcome → Outcome
  and_then es (r, more) = (r, es ++ more)

  pub with_items : DiskUsage F → RunPlan F → ℕ → Option Error → Outcome
  unfolding with_execution
  with_items snap p id (some e) =
      (some (fire_failed (within (codes "persisting run items: ") e)), [])
  with_items snap p id none =
      if acts
      then and_then (if w.has_run_lock then armed id ∷ [] else [])
          (with_execution snap p id (a.execute id))
      else (none, maybe_alert_shortfall snap p)

  pub with_id : DiskUsage F → RunPlan F → Result ℕ → Outcome
  unfolding with_items
  with_id snap p (err e) = (some (fire_failed (within (codes "persisting run: ") e)), [])
  with_id snap p (ok id) =
      let r = a.insert_run_items id p.items in
      and_then (items_inserted id p.items r ∷ []) (with_items snap p id r)

  pub with_plan : DiskUsage F → Result (RunPlan F) → Outcome
  unfolding with_id new_run
  with_plan snap (err e) = (some (fire_failed (within (codes "planning: ") e)), [])
  with_plan snap (ok p) =
      let r = a.insert_run (new_run snap p) in
      and_then (run_inserted (new_run snap p) r ∷ []) (with_id snap p r)

  -- `TryAcquire`, and the deferred `Release` on every way out.
  pub guarded : Bool → Outcome → Outcome
  guarded false out = (some run_in_progress, [])
  guarded true (r, es) = (r, acquired ∷ es ++ released ∷ [])

  unfoldable pub fire : DiskUsage F → Outcome
  unfolding with_plan guarded
  fire snap =
      let out = with_plan snap a.plan in
      if acts && w.has_run_lock then guarded a.try_acquire out else out

  pub record TickResult : Type 0 where
    pub watch : Watch
    pub effects : List (Effect F)
    pub error : Option Error

  fired : Watch → Outcome → TickResult
  fired now (some e, es) = record { watch = now; effects = es; error = none }
  fired now (none, es) = record {
    watch = record now { last_fire = a.now_tick };
    effects = es;
    error = none;
  }

  under_rule : Duration → Watch → DiskUsage F → TickResult
  unfolding fired
  under_rule grace was snap =
      let now = record was { firing_now = true } in
      let out = fire snap in
      if was.firing_now && ltb_ℤ (sub_time a.now_tick was.last_fire) (pos grace)
      then record { watch = now; effects = []; error = none }
      else fired now out

  with_snapshot : Duration → Watch → Result (Option (DiskUsage F)) → TickResult
  unfolding under_rule
  with_snapshot grace was (err e) = record {
    watch = was;
    effects = [];
    error = some (within (codes "reading disk_usage: ") e);
  }
  with_snapshot grace was (ok none) = record { watch = was; effects = []; error = none }
  with_snapshot grace was (ok (some snap)) =
      if not (lt snap.free_percent w.rule.threshold_free_percent)
      then record { watch = record was { firing_now = false }; effects = []; error = none }
      else under_rule grace was snap

  unfoldable pub tick : Duration → Watch → TickResult
  unfolding with_snapshot
  tick grace was = with_snapshot grace was a.latest_disk_usage

  -- `grace` of `Run`; a duration is not negative here.
  unfoldable pub grace_of : Duration
  grace_of = if leb w.re_fire_grace 0 then default_re_fire_grace else w.re_fire_grace
