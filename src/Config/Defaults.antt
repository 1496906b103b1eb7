-- ===== src/Config/Defaults.antt =====
-- internal/config/config.go and load.go: the configuration, and `applyDefaults`. Fields that neither
-- the defaults nor the checks read are left out. Durations are signed nanoseconds.
use triagearr.Base.{ℕ, ◌*◌, ◌==◌, List, [], ◌∷◌, Bool, ◌&&◌, if◌then◌else◌}
use triagearr.Base.Int.{ℤ, pos, negsuc, ltb_ℤ}
use triagearr.Base.Text.{Text, codes}
use triagearr.Float.{Float}

pub record RateLimitsConfig : Type 0 where
  pub runs_per_minute : ℤ
  pub auth_per_minute : ℤ

pub record HttpConfig : Type 0 where
  pub bind : Text
  pub rate_limits : RateLimitsConfig

pub record RetentionConfig : Type 0 where
  pub snapshots_raw : ℤ
  pub snapshots_daily : ℤ
  pub torrents : ℤ

-- `Vacuum` is its `MinReclaimMB`.
pub record StorageConfig : Type 0 where
  pub sqlite_path : Text
  pub retention : RetentionConfig
  pub min_reclaim_mb : ℤ

pub record PollingConfig : Type 0 where
  pub torrent_client_interval : ℤ
  pub arr_interval : ℤ
  pub arr_file_min_interval : ℤ
  pub tracker_interval : ℤ
  pub disk_interval : ℤ
  pub health_interval : ℤ
  pub downsample_cron : Text

pub record ArrInstanceConfig : Type 0 where
  pub enabled : Bool
  pub url : Text
  pub api_key : Text
  pub timeout : ℤ

pub record ArrsConfig : Type 0 where
  pub sonarr : ArrInstanceConfig
  pub radarr : ArrInstanceConfig
  pub lidarr : ArrInstanceConfig
  pub whisparr_v2 : ArrInstanceConfig
  pub whisparr_v3 : ArrInstanceConfig

pub record TorrentClientInstanceConfig : Type 0 where
  pub enabled : Bool
  pub url : Text
  pub timeout : ℤ

pub record TorrentClientsConfig : Type 0 where
  pub qbittorrent : TorrentClientInstanceConfig
  pub transmission : TorrentClientInstanceConfig
  pub deluge : TorrentClientInstanceConfig
  pub rtorrent : TorrentClientInstanceConfig

pub record ActionConfig : Type 0 where
  pub max_deletions_per_run : ℤ
  pub inter_action_delay : ℤ

pub record ProviderRouting : Type 0 where
  pub min_severity : Text
  pub mute : List Text

-- The providers of notifications; `routing` is the squashed `ProviderRouting`.
pub record TelegramConfig : Type 0 where
  pub enabled : Bool
  pub bot_token : Text
  pub chat_id : Text
  pub routing : ProviderRouting

pub record DiscordConfig : Type 0 where
  pub enabled : Bool
  pub webhook_url : Text
  pub routing : ProviderRouting

pub record NtfyConfig : Type 0 where
  pub enabled : Bool
  pub server : Text
  pub topic : Text
  pub username : Text
  pub password : Text
  pub routing : ProviderRouting

pub record EmailConfig : Type 0 where
  pub enabled : Bool
  pub host : Text
  pub port : ℤ
  pub username : Text
  pub password : Text
  pub from : Text
  pub to : List Text
  pub use_starttls : Bool
  pub routing : ProviderRouting

pub record SlackConfig : Type 0 where
  pub enabled : Bool
  pub webhook_url : Text
  pub routing : ProviderRouting

pub record WebhookConfig : Type 0 where
  pub enabled : Bool
  pub url : Text
  pub secret : Text
  pub routing : ProviderRouting

pub record NotificationsConfig : Type 0 where
  pub telegram : TelegramConfig
  pub discord : DiscordConfig
  pub ntfy : NtfyConfig
  pub email : EmailConfig
  pub slack : SlackConfig
  pub webhook : WebhookConfig
  pub reminder_interval : ℤ

pub record WeightsConfig (F : Type 0) : Type 0 where
  pub ratio_obligation_met : F
  pub upload_velocity_inv : F
  pub age_days : F
  pub seeders_low_guard : F
  pub swarm_health_bonus : F
  pub tracker_dead_bonus : F

pub record ScoringSection (F : Type 0) : Type 0 where
  pub hnr_window_days : ℤ
  pub tracker_dead_grace : ℤ
  pub weights : WeightsConfig F

pub record DiskPressureConfig (F : Type 0) : Type 0 where
  pub enabled : Bool
  pub threshold_free_percent : F
  pub target_free_percent : F

pub record VolumeConfig (F : Type 0) : Type 0 where
  pub name : Text
  pub path : Text
  pub disk_pressure : DiskPressureConfig F

pub record Config (F : Type 0) : Type 0 where
  pub mode : Text
  pub http : HttpConfig
  pub storage : StorageConfig
  pub arrs : ArrsConfig
  pub torrent_clients : TorrentClientsConfig
  pub volume : VolumeConfig F
  pub polling : PollingConfig
  pub scoring : ScoringSection F
  pub action : ActionConfig
  pub notifications : NotificationsConfig

-- `if x == 0 { x = d }`.
abbrev pub or_int : ℤ → ℤ → ℤ
or_int d (pos n) = if n == 0 then d else pos n
or_int d (negsuc n) = negsuc n

-- `if s == "" { s = d }`.
abbrev pub or_text : Text → Text → Text
or_text d [] = d
or_text d (c ∷ s) = c ∷ s

abbrev pub second : ℕ
second = 1_000_000_000

abbrev pub minutes : ℕ → ℤ
minutes n = pos (n * 60_000_000_000)

abbrev pub hours_long : ℕ → ℤ
hours_long n = pos (n * 3_600_000_000_000)

unfoldable pub apply_arr_defaults : ArrInstanceConfig → ArrInstanceConfig
apply_arr_defaults i = record i { timeout = or_int (pos 30_000_000_000) i.timeout }

unfoldable pub apply_torrent_client_defaults :
    TorrentClientInstanceConfig → TorrentClientInstanceConfig
apply_torrent_client_defaults i = record i { timeout = or_int (pos 30_000_000_000) i.timeout }

unfoldable pub apply_action_defaults : ActionConfig → ActionConfig
apply_action_defaults a = record {
  max_deletions_per_run = or_int (pos 10) a.max_deletions_per_run;
  inter_action_delay = or_int (pos 2_000_000_000) a.inter_action_delay;
}

abbrev pub min_target_unreachable_reminder : ℤ
min_target_unreachable_reminder = pos 3_600_000_000_000

-- The cadence of reminders: a day if unset, and at least an hour.
unfoldable pub reminder_of : ℤ → ℤ
reminder_of (negsuc n) = min_target_unreachable_reminder
reminder_of (pos n) =
    if n == 0
    then hours_long 24
    else (if ltb_ℤ (pos n) min_target_unreachable_reminder
        then min_target_unreachable_reminder
        else pos n)

unfoldable pub apply_notification_defaults : NotificationsConfig → NotificationsConfig
apply_notification_defaults n = record n { reminder_interval = reminder_of n.reminder_interval }

unfoldable pub apply_polling_defaults : PollingConfig → PollingConfig
apply_polling_defaults p = record {
  torrent_client_interval = or_int (minutes 30) p.torrent_client_interval;
  arr_interval = or_int (hours_long 1) p.arr_interval;
  arr_file_min_interval = or_int (pos 200_000_000) p.arr_file_min_interval;
  tracker_interval = or_int (hours_long 6) p.tracker_interval;
  disk_interval = or_int (minutes 5) p.disk_interval;
  health_interval = or_int (minutes 5) p.health_interval;
  downsample_cron = or_text (codes "0 3 * * *") p.downsample_cron;
}

unfoldable pub apply_storage_defaults : StorageConfig → StorageConfig
apply_storage_defaults s = record {
  sqlite_path = or_text (codes "/config/triagearr.db") s.sqlite_path;
  retention = record {
    snapshots_raw = or_int (hours_long 168) s.retention.snapshots_raw;
    snapshots_daily = or_int (hours_long 8760) s.retention.snapshots_daily;
    torrents = or_int (hours_long 168) s.retention.torrents;
  };
  min_reclaim_mb = or_int (pos 50) s.min_reclaim_mb;
}

unfoldable pub apply_http_defaults : HttpConfig → HttpConfig
apply_http_defaults h = record {
  bind = or_text (codes "127.0.0.1:9494") h.bind;
  rate_limits = record {
    runs_per_minute = or_int (pos 60) h.rate_limits.runs_per_minute;
    auth_per_minute = or_int (pos 30) h.rate_limits.auth_per_minute;
  };
}

module _ (fl : Float) where
  open fl use {F, of_int, div, le}

  -- `if x == 0 { x = d }` of a float64, which NaN is not.
  unfoldable pub or_float : F → F → F
  or_float d x = if le x (of_int (pos 0)) && le (of_int (pos 0)) x then d else x

  -- 0.1 is the quotient of 1 and 10.
  unfoldable pub apply_scoring_defaults : ScoringSection F → ScoringSection F
  apply_scoring_defaults s = record {
    hnr_window_days = or_int (pos 14) s.hnr_window_days;
    tracker_dead_grace = or_int (hours_long 168) s.tracker_dead_grace;
    weights = record {
      ratio_obligation_met = or_float (of_int (pos 50)) s.weights.ratio_obligation_met;
      upload_velocity_inv = or_float (of_int (pos 30)) s.weights.upload_velocity_inv;
      age_days = or_float (div (of_int (pos 1)) (of_int (pos 10))) s.weights.age_days;
      seeders_low_guard = or_float (of_int (negsuc 999)) s.weights.seeders_low_guard;
      swarm_health_bonus = or_float (of_int (pos 5)) s.weights.swarm_health_bonus;
      tracker_dead_bonus = or_float (of_int (pos 40)) s.weights.tracker_dead_bonus;
    };
  }

  unfoldable pub apply_defaults : Config F → Config F
  apply_defaults c = record {
    mode = or_text (codes "dry-run") c.mode;
    http = apply_http_defaults c.http;
    storage = apply_storage_defaults c.storage;
    arrs = record {
      sonarr = apply_arr_defaults c.arrs.sonarr;
      radarr = apply_arr_defaults c.arrs.radarr;
      lidarr = apply_arr_defaults c.arrs.lidarr;
      whisparr_v2 = apply_arr_defaults c.arrs.whisparr_v2;
      whisparr_v3 = apply_arr_defaults c.arrs.whisparr_v3;
    };
    torrent_clients = record {
      qbittorrent = apply_torrent_client_defaults c.torrent_clients.qbittorrent;
      transmission = apply_torrent_client_defaults c.torrent_clients.transmission;
      deluge = apply_torrent_client_defaults c.torrent_clients.deluge;
      rtorrent = apply_torrent_client_defaults c.torrent_clients.rtorrent;
    };
    volume = record c.volume { name = or_text (codes "media") c.volume.name };
    polling = apply_polling_defaults c.polling;
    scoring = apply_scoring_defaults c.scoring;
    action = apply_action_defaults c.action;
    notifications = apply_notification_defaults c.notifications;
  }
