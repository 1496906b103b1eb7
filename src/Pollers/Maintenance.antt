-- ===== src/Pollers/Maintenance.antt =====
-- internal/pollers/downsampler.go: one run of the maintenance job, as the calls that it makes of the
-- store, in order, and what they return. The cron schedule is a library's.
use triagearr.Base.{List, [], ◌∷◌, Bool, Option, if◌then◌else◌}
use triagearr.Base.Int.{ℤ, pos, ◌-ℤ◌, ltb_ℤ}
use triagearr.Types.{Error}

-- `DailyRetention` and the others are signed nanoseconds.
pub record MaintenanceConfig : Type 0 where
  pub downsample_age : ℤ
  pub raw_retention : ℤ
  pub daily_retention : ℤ
  pub torrent_retention : ℤ
  pub vacuum_enabled : Bool
  pub vacuum_min_reclaim_bytes : ℤ

-- A call of the store, with its arguments.
pub data StoreCall : Type 0 where
  downsample_range : ℤ → StoreCall
  enforce_retention : ℤ → ℤ → StoreCall
  prune_stale_torrents : ℤ → StoreCall
  vacuum : ℤ → StoreCall
  checkpoint_wal optimize : StoreCall

-- A call and its error, of which none is nil.
abbrev pub Made : Type 0
Made = StoreCall × Option Error

-- What the store returns may depend on every call before, latest first.
abbrev pub MaintenanceStore : Type 0
MaintenanceStore = List Made → StoreCall → Option Error

module _ (st : MaintenanceStore) (c : MaintenanceConfig) (now : ℤ) where
  -- One call; its error is logged and dropped.
  make : StoreCall → List Made → List Made
  make call before = (call, st before call) ∷ before

  prune : List Made → List Made
  unfolding make
  prune before =
      if ltb_ℤ (pos 0) c.torrent_retention
      then make (prune_stale_torrents c.torrent_retention) before
      else before

  vacuumed : List Made → List Made
  unfolding make
  vacuumed before =
      if c.vacuum_enabled then make (vacuum c.vacuum_min_reclaim_bytes) before else before

  -- `runOnce`: the calls, latest first.
  unfoldable pub run_once : List Made
  unfolding make prune vacuumed
  run_once =
      let downsampled = make (downsample_range (now -ℤ c.downsample_age)) [] in
      let retained = make (enforce_retention c.raw_retention c.daily_retention) downsampled in
      make optimize (make checkpoint_wal (vacuumed (prune retained)))
