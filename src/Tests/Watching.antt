-- ===== src/Tests/Watching.antt =====
-- The run lock and the disk watcher.
use triagearr.Base.{arith, ℕ, ◌≡◌, refl, [], ◌∷◌, Bool, true, false, none, some}
use triagearr.Base.Int.{ℤ, pos}
use triagearr.Base.Text.{codes}
use triagearr.Types.{ok, DiskUsage, no_more_candidates, succeeded, Action}
use triagearr.Float.{sub_time}
use triagearr.Decider.{RunPlan}
use triagearr.DiskWatcher.{Watcher, Watch, Answers, fire, tick, maybe_alert_shortfall}
use triagearr.DiskWatcher.Guard.{Fires, fire-Fires}
use triagearr.DiskWatcher.Throttle.{Ticks, tick-Ticks, Alerts, maybe_alert_shortfall-Alerts}
use triagearr.RunLock.{
  Slot, State, open_at, try_acquire, arm, release, request_stop, slot, with_slot, start, Reachable,
  initially, followed, acquire,
}
use triagearr.RunLock.Exclusive.{Reachable-exclusive, request_stop-arm-release}
use triagearr.Tests.Values.{whole, hash_a, item_a}

abbrev all_files : ℕ → Bool
all_files p = true

-- Process 1 has acquired the lock.
abbrev held_by_one : State
held_by_one = with_slot (start all_files) 1 (try_acquire 1 true (slot (start all_files) 1)).1

abbrev held_by_one-Reachable : Reachable all_files held_by_one
held_by_one-Reachable = followed initially (acquire 1 true tt)

Reachable-exclusive_example : ◌≡◌ {A = ℕ} 1 1
unfolding with_slot try_acquire open_at
Reachable-exclusive_example =
    Reachable-exclusive all_files held_by_one held_by_one-Reachable 1 1 refl refl refl refl

abbrev free_slot : Slot
free_slot = record {
  lock = record { ch = false; file = true; run_id = 0; cancel = none };
  owner = some 7;
}

-- Another process has the file.
rolled_back : try_acquire 1 false free_slot ≡ (false, free_slot)
unfolding try_acquire
rolled_back = refl

request_stop-arm-release_example :
    (request_stop 4 (arm 4 9 free_slot.lock) ≡ some 9)
    × (request_stop 4 (release 1 free_slot).lock ≡ none)
request_stop-arm-release_example = request_stop-arm-release 4 9 4 1 free_slot.lock free_slot

abbrev watcher : Watcher ℤ
watcher = record {
  rule = record {
    name = codes "media";
    path = codes "/data";
    threshold_free_percent = pos 10;
    target_free_percent = pos 20;
  };
  re_fire_grace = 60;
  daemon_live = true;
  has_actor = true;
  has_run_lock = true;
  has_notifier = true;
  target_unreachable_reminder = 100;
}

abbrev low : DiskUsage ℤ
low = record {
  path = codes "/data";
  timestamp = 0;
  total_bytes = 10000;
  used_bytes = 9500;
  free_bytes = 500;
  free_percent = pos 5;
}

abbrev short_plan : RunPlan ℤ
short_plan = record {
  volume = record { name = codes "media"; path = codes "/data"; target_free_percent = pos 20 };
  free_pct_at_fire = pos 5;
  estimated_freed_bytes = 700;
  stop_reason = some no_more_candidates;
  items = item_a ∷ [];
  filtered_cross_seed = 0;
}

abbrev deleted : Action
deleted = record {
  id = 1;
  run_id = 4;
  rank = 0;
  torrent_hash = hash_a;
  torrent_name = [];
  started_at = 0;
  finished_at = none;
  status = succeeded;
  freed_bytes = 700;
}

abbrev answers : Answers ℤ
answers = record {
  latest_disk_usage = ok (some low);
  now_tick = 1000;
  now_run = 1001;
  now_alert = 1002;
  try_acquire = true;
  plan = ok short_plan;
  insert_run = λ r. ok 4;
  insert_run_items = λ id items. none;
  execute = λ id. none;
  list_actions_by_run = λ id. ok (deleted ∷ []);
  torrent_names_by_hashes = λ hs. ok [];
  sample = none;
  get_notification_state = λ k. ok (some 900);
  mark_notification_sent = λ k t. none;
  clear_notification_state = λ k. none;
}

fire-Fires_example : Fires whole watcher answers low (fire whole watcher answers low)
fire-Fires_example = fire-Fires whole watcher answers refl low

abbrev fired_before : Watch
fired_before = record { last_fire = 950; firing_now = true }

-- The grace of 60 is not over.
waiting : (tick whole watcher answers 60 fired_before).effects ≡ []
unfolding tick sub_time
waiting = refl

tick-Ticks_example :
    Ticks whole watcher answers 40 fired_before (tick whole watcher answers 40 fired_before)
tick-Ticks_example = tick-Ticks whole watcher answers 40 fired_before (omega arith)

maybe_alert_shortfall-Alerts_example :
    Alerts whole watcher answers low short_plan
      (maybe_alert_shortfall whole watcher answers low short_plan)
maybe_alert_shortfall-Alerts_example =
    maybe_alert_shortfall-Alerts whole watcher answers low short_plan
