-- ===== src/Types.antt =====
-- internal/triagearr/types.go: the value types that the components share. A `float64` is the
-- parameter `F`, an instant or a duration is a count of nanoseconds, an instant from Go's zero time.
use triagearr.Base.{ℕ, Bool, Option}
use triagearr.Base.Text.{Text, codes}
use triagearr.Base.Int.{ℤ}

abbrev pub Hash : Type 0
Hash = Text

abbrev pub Time : Type 0
Time = ℕ

abbrev pub Duration : Type 0
Duration = ℕ

-- An `error` value: what `errors.Is` finds in its chain, and its message.
pub record Error : Type 0 where
  pub transient : Bool
  pub not_exist : Bool
  pub message : Text

-- A Go `(value, error)` result.
pub data Result {ℓ} (A : Type ℓ) : Type ℓ where
  ok : A → Result A
  err : Error → Result A

-- `type ArrType string`: the five kinds, and any other text.
pub data ArrType : Type 0 where
  sonarr radarr lidarr whisparr_v2 whisparr_v3 : ArrType

abbrev pub arr_label : ArrType → Text
arr_label sonarr = codes "sonarr"
arr_label radarr = codes "radarr"
arr_label lidarr = codes "lidarr"
arr_label whisparr_v2 = codes "whisparr_v2"
arr_label whisparr_v3 = codes "whisparr_v3"

pub record DeleteOpts : Type 0 where
  pub delete_files : Bool
  pub add_import_exclusion : Bool

-- `type TrackerStatus int`.
abbrev pub TrackerStatus : Type 0
TrackerStatus = ℕ

abbrev pub tracker_not_working : TrackerStatus
tracker_not_working = 4

pub record TorrentFile (F : Type 0) : Type 0 where
  pub name : Text
  pub size : ℕ
  pub progress : F

pub record DiskUsage (F : Type 0) : Type 0 where
  pub path : Text
  pub timestamp : Time
  pub total_bytes : ℕ
  pub used_bytes : ℕ
  pub free_bytes : ℕ
  pub free_percent : F

pub data RunTrigger : Type 0 where
  disk_pressure http cli : RunTrigger
  other_trigger : Text → RunTrigger

pub data RunMode : Type 0 where
  dry_run live : RunMode
  other_mode : Text → RunMode

pub data RunStopReason : Type 0 where
  target_reached no_more_candidates user_stopped : RunStopReason

pub record Run (F : Type 0) : Type 0 where
  pub id : ℕ
  pub triggered_by : RunTrigger
  pub triggered_at : Time
  pub mode : RunMode
  pub free_pct_at_fire : F
  pub target_free_pct : F
  pub estimated_freed_bytes : ℕ
  pub stop_reason : Option RunStopReason
  pub status : Text

pub record RunItem (F : Type 0) : Type 0 where
  pub run_id : ℕ
  pub rank : ℕ
  pub torrent_hash : Hash
  pub torrent_name : Text
  pub score : F
  pub size_bytes : ℕ
  pub would_free_bytes : ℕ

pub record Link : Type 0 where
  pub arr_type : Text
  pub file_id : ℕ
  pub media_id : ℕ
  pub download_id : Hash
  pub title_slug : Text
  pub dropped_path : Text
  pub imported_path : Text
  pub live_path : Text
  pub size : ℕ

pub data ActionStatus : Type 0 where
  pending running succeeded aborted_arr_fail failed_qbit : ActionStatus
  aborted_nlink_check skipped_cross_seed : ActionStatus

pub record Action : Type 0 where
  pub id : ℕ
  pub run_id : ℕ
  pub rank : ℕ
  pub torrent_hash : Hash
  pub torrent_name : Text
  pub started_at : Time
  pub finished_at : Option Time
  pub status : ActionStatus
  pub freed_bytes : ℕ

pub data AuditStep : Type 0 where
  arr_delete nlink_check qbit_delete : AuditStep

pub data AuditOutcome : Type 0 where
  outcome_ok failed skipped not_attempted : AuditOutcome

pub record AuditEntry : Type 0 where
  pub action_id : ℕ
  pub timestamp : Time
  pub step : AuditStep
  pub arr_type : Text
  pub arr_file_id : ℕ
  pub outcome : AuditOutcome
  pub detail : Text

-- One override row of `tracker_policies`; no threshold means that the default is inherited.
pub record TrackerPolicy (F : Type 0) : Type 0 where
  pub tracker_host : Text
  pub min_ratio : F
  pub min_seed_days : ℤ
  pub rare_threshold : Option ℤ
  pub enabled : Bool

pub record ScoringDefaults (F : Type 0) : Type 0 where
  pub min_ratio : F
  pub min_seed_days : ℤ
  pub rare_threshold : ℤ
