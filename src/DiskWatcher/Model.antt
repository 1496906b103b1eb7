-- ===== src/DiskWatcher/Model.antt =====
-- internal/triggers/disk_watcher.go and internal/notify/format.go: the watcher's fields, the answers
-- and the effects of one tick, and the sums of a report.
use triagearr.Base.{ℕ, List, [], ◌∷◌, ◌++◌, Bool, true, false, Option, none, some, if◌then◌else◌}
use triagearr.Base.Words.{add64}
use triagearr.Base.Text.{Text, text_eq}
use triagearr.Types.{
  Hash, Time, Duration, Error, Result, DiskUsage, Run, RunItem, Action, ActionStatus, succeeded,
  RunMode, live, RunStopReason, no_more_candidates, target_reached, user_stopped, dry_run,
  other_mode,
}
use triagearr.Decider.{RunPlan}

pub record ReportItem : Type 0 where
  pub name : Text
  pub hash : Hash
  pub size_bytes : ℕ
  pub status : ActionStatus

pub record Report (F : Type 0) : Type 0 where
  pub volume_name : Text
  pub mode : RunMode
  pub run_id : ℕ
  pub free_pct_before : F
  pub free_bytes_before : ℕ
  pub free_pct_after : F
  pub free_bytes_after : ℕ
  pub target_free_pct : F
  pub items : List ReportItem
  pub total_freed_bytes : ℕ
  pub real_freed_bytes : ℕ

pub record Alert (F : Type 0) : Type 0 where
  pub volume_name : Text
  pub mode : RunMode
  pub free_pct : F
  pub target_free_pct : F
  pub need_bytes : ℕ
  pub reclaimable_bytes : ℕ
  pub candidate_count : ℕ

pub record VolumeRule (F : Type 0) : Type 0 where
  pub name : Text
  pub path : Text
  pub threshold_free_percent : F
  pub target_free_percent : F

-- The fields of `DiskWatcher` that are set once. `has_notifier` is `!w.Notifier.Empty()`.
pub record Watcher (F : Type 0) : Type 0 where
  pub rule : VolumeRule F
  pub re_fire_grace : Duration
  pub daemon_live : Bool
  pub has_actor : Bool
  pub has_run_lock : Bool
  pub has_notifier : Bool
  pub target_unreachable_reminder : Duration

-- The fields that change.
pub record Watch : Type 0 where
  pub last_fire : Time
  pub firing_now : Bool

-- What the calls of one tick return; nothing is a nil error, and no `sample` is a nil `Sampler`. The
-- clock is read by `tick`, for the run and for the alert, in that order.
pub record Answers (F : Type 0) : Type 0 where
  pub latest_disk_usage : Result (Option (DiskUsage F))
  pub now_tick : Time
  pub now_run : Time
  pub now_alert : Time
  pub try_acquire : Bool
  pub plan : Result (RunPlan F)
  pub insert_run : Run F → Result ℕ
  pub insert_run_items : ℕ → List (RunItem F) → Option Error
  pub execute : ℕ → Option Error
  pub list_actions_by_run : ℕ → Result (List Action)
  pub torrent_names_by_hashes : List Hash → Result (List (Hash × Text))
  pub sample : Option (Result (DiskUsage F))
  pub get_notification_state : Text → Result (Option Time)
  pub mark_notification_sent : Text → Time → Option Error
  pub clear_notification_state : Text → Option Error

pub data Effect (F : Type 0) : Type 0 where
  acquired released : Effect F
  run_inserted : Run F → Result ℕ → Effect F
  items_inserted : ℕ → List (RunItem F) → Option Error → Effect F
  armed : ℕ → Effect F
  executed : ℕ → Option Error → Effect F
  reported : Report F → Effect F
  alerted : Alert F → Effect F
  sent_marked : Text → Time → Option Error → Effect F
  state_cleared : Text → Option Error → Effect F

-- What `fire` returns: `errRunInProgress`, or any other error.
pub data FireError : Type 0 where
  run_in_progress : FireError
  fire_failed : Error → FireError

abbrev pub default_re_fire_grace : Duration
default_re_fire_grace = 3_600_000_000_000

-- A Go map of texts by hash: a missing key is the empty text.
unfoldable pub name_of : List (Hash × Text) → Hash → Text
name_of [] h = []
name_of ((k, n) ∷ rest) h = if text_eq k h then n else name_of rest h

abbrev pub is_succeeded : ActionStatus → Bool
is_succeeded succeeded = true
is_succeeded _ = false

abbrev pub is_short : Option RunStopReason → Bool
is_short (some no_more_candidates) = true
is_short (some target_reached) = false
is_short (some user_stopped) = false
is_short none = false

abbrev pub is_live_mode : RunMode → Bool
is_live_mode live = true
is_live_mode dry_run = false
is_live_mode (other_mode m) = false

abbrev pub within : Text → Error → Error
within s e = record e { message = s ++ e.message }

-- The sum over the actions that succeeded.
unfoldable pub total_freed : List Action → ℕ → ℕ
total_freed [] total = total
total_freed (a ∷ rest) total =
    if is_succeeded a.status
    then total_freed rest (add64 total a.freed_bytes)
    else total_freed rest total

module _ {F : Type 0} where
  -- `sizeByHash`, filled from the front: `found` is the size of the last item of the hash so far.
  size_from : List (RunItem F) → Hash → ℕ → ℕ
  size_from [] h found = found
  size_from (it ∷ rest) h found =
      size_from rest h (if text_eq it.torrent_hash h then it.size_bytes else found)

  unfoldable pub size_of : List (RunItem F) → Hash → ℕ
  unfolding size_from
  size_of items h = size_from items h 0
