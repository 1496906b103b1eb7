-- ===== src/Tests/Loading.antt =====
-- The configuration, the import history and the health watcher.
use native.Mathlib.Nat.{mul-suc}
use triagearr.Base.{
  inl, Bool, any, ◌==◌, if◌then◌else◌, Bool-cases, append-nil, zero, suc, ◌≡◌, refl, arith, List,
  [], ◌∷◌, true, false, none, some, inr,
}
use triagearr.Base.Int.{ℤ, pos}
use triagearr.Base.Text.{Text, codes, text_eq}
use triagearr.Types.{Result, ok}
use triagearr.Config.Lines.{
  Expansion, literal, reference, expand_env, expanded, split_yaml_comment, split_from, split_lines,
}
use triagearr.Config.Lines.Comments.{Code, plain, single, done}
use triagearr.Config.Lines.Plain.{joined, expand_env-plain}
use triagearr.Config.Defaults.{
  Config, ArrInstanceConfig, TorrentClientInstanceConfig, ProviderRouting, apply_defaults,
}
use triagearr.Config.Validation.{load}
use triagearr.Config.Validation.Sound.{Loads, load-Loads}
use triagearr.ArrHistory.{page_size, HistoryRecord, Page, Strings, fetch, last_first}
use triagearr.ArrHistory.Paging.{Serves, taken, dropped, newer, fetch-newer}
use triagearr.HealthWatcher.{HealthStore, NotificationState, health_ticks}
use triagearr.HealthWatcher.Transitions.{Tracks, health_ticks-Tracks}
use triagearr.Pollers.Tracker.{Loop, begin_loop, react, signalled}
use triagearr.Pollers.Tracker.Catchup.{initially, woken, IsInStep, Reachable-IsInStep}
use triagearr.Tests.Values.{whole}

-- A text with a dollar sign is a reference to a name that is not set.
abbrev has_dollar : Text → Bool
has_dollar t = any (λ c. c == 36) t

abbrev dollars : Expansion
dollars = record {
  pieces = λ t. if has_dollar t then reference t (codes "HOME") none ∷ [] else literal t ∷ [];
  lookup_env = λ name. none;
}

dollars-joined : (t : Text) → joined dollars (dollars.pieces t) ≡ t
dollars-joined t = elim (Bool-cases (has_dollar t)) [
  | inl h ↦ simp h (append-nil t)
  | inr h ↦ simp h (append-nil t)
]

-- A comment with a reference.
abbrev commented : Text
commented = codes "a: 'x # y' # ${HOME}"

comment_found : split_yaml_comment commented ≡ (codes "a: 'x # y' ", codes "# ${HOME}")
unfolding split_yaml_comment split_from
comment_found = refl

-- The code of that line: `a: `, a quoted text and a blank.
abbrev commented_code : Code true (codes "a: 'x # y' ") true
commented_code = plain 97 (codes ": 'x # y' ") refl refl refl (
    plain 58 (codes " 'x # y' ") refl refl refl (
      plain 32 (codes "'x # y' ") refl refl refl (
        single (codes "x # y") (codes " ") (refl, (refl, (refl, (refl, (refl, tt)))))
          (plain 32 [] refl refl refl (done true)))))

expand_env-plain_example : expand_env dollars commented ≡ expanded commented
unfolding split_lines
expand_env-plain_example = expand_env-plain dollars commented dollars-joined (
  (
    codes "a: 'x # y' ",
    codes "# ${HOME}",
    (refl, true, commented_code, inr (refl, codes " ${HOME}", refl)),
    (tt, tt),
  ),
  tt,
)

abbrev off_arr : ArrInstanceConfig
off_arr = record { enabled = false; url = []; api_key = []; timeout = pos 0 }

abbrev on_arr : ArrInstanceConfig
on_arr = record {
  enabled = true;
  url = codes "http://sonarr:8989";
  api_key = codes "key";
  timeout = pos 0;
}

abbrev off_client : TorrentClientInstanceConfig
off_client = record { enabled = false; url = []; timeout = pos 0 }

abbrev muted : ProviderRouting
muted = record { min_severity = []; mute = codes "run.executed" ∷ [] }

abbrev raw : Config ℤ
raw = record {
  mode = [];
  http = record {
    bind = [];
    rate_limits = record { runs_per_minute = pos 0; auth_per_minute = pos 5 };
  };
  storage = record {
    sqlite_path = [];
    retention = record { snapshots_raw = pos 0; snapshots_daily = pos 0; torrents = pos 0 };
    min_reclaim_mb = pos 0;
  };
  arrs = record {
    sonarr = on_arr;
    radarr = off_arr;
    lidarr = off_arr;
    whisparr_v2 = off_arr;
    whisparr_v3 = off_arr;
  };
  torrent_clients = record {
    qbittorrent = off_client;
    transmission = off_client;
    deluge = off_client;
    rtorrent = off_client;
  };
  volume = record {
    name = [];
    path = codes "/data";
    disk_pressure = record {
      enabled = true;
      threshold_free_percent = pos 10;
      target_free_percent = pos 20;
    };
  };
  polling = record {
    torrent_client_interval = pos 0;
    arr_interval = pos 0;
    arr_file_min_interval = pos 0;
    tracker_interval = pos 0;
    disk_interval = pos 0;
    health_interval = pos 0;
    downsample_cron = [];
  };
  scoring = record {
    hnr_window_days = pos 0;
    tracker_dead_grace = pos 0;
    weights = record {
      ratio_obligation_met = pos 0;
      upload_velocity_inv = pos 0;
      age_days = pos 0;
      seeders_low_guard = pos 0;
      swarm_health_bonus = pos 0;
      tracker_dead_bonus = pos 0;
    };
  };
  action = record { max_deletions_per_run = pos 0; inter_action_delay = pos 0 };
  notifications = record {
    telegram = record {
      enabled = true;
      bot_token = codes "token";
      chat_id = codes "7";
      routing = muted;
    };
    discord = record { enabled = false; webhook_url = []; routing = muted };
    ntfy = record {
      enabled = false;
      server = [];
      topic = [];
      username = [];
      password = [];
      routing = muted;
    };
    email = record {
      enabled = false;
      host = [];
      port = pos 25;
      username = [];
      password = [];
      from = [];
      to = [];
      use_starttls = true;
      routing = muted;
    };
    slack = record { enabled = false; webhook_url = []; routing = muted };
    webhook = record { enabled = false; url = []; secret = []; routing = muted };
    reminder_interval = pos 60;
  };
}

load-Loads_example : Loads whole (λ u. true) (apply_defaults whole raw) (load whole (λ u. true) raw)
load-Loads_example = load-Loads whole (λ u. true) raw

abbrev imported : HistoryRecord
imported = record {
  id = pos 12;
  date = 5;
  event_type = codes "downloadFolderImported";
  download_id = codes "ABC";
  details = record {
    file_id = codes "7";
    download_client = [];
    dropped_path = [];
    imported_path = [];
  };
}

abbrev strings : Strings
strings = record { equal_fold = text_eq; parse_int = λ t. some (pos 7) }

abbrev history : List HistoryRecord
history = imported ∷ []

-- Every page that is asked for has the one record.
abbrev one_page : Text → Result Page
one_page path = ok (record { total_records = pos 1; records = history })

one_page-Serves : Serves page_size one_page history
unfolding taken dropped
one_page-Serves zero reached = (record { total_records = pos 1; records = history }, refl, refl)
one_page-Serves (suc n) reached = absurd (omega (arith, mul-suc 500 n))

fetch-newer_example :
    fetch strings one_page (pos 3) 2 ≡ some (ok (last_first (newer strings (pos 3) history)))
fetch-newer_example = fetch-newer strings (pos 3) one_page history one_page-Serves 2 (omega arith)

abbrev sick : HealthStore
sick = record {
  list_arr_instances =
      ok (record { kind = codes "sonarr"; healthy = false; last_error = none } ∷ []);
  list_torrent_client_instances = ok [];
  read_fault = λ k. none;
  mark_fault = λ k. none;
  clear_fault = λ k. none;
  now = λ k. 9;
}

abbrev well : HealthStore
well = record sick {
  list_arr_instances =
      ok (record { kind = codes "sonarr"; healthy = true; last_error = none } ∷ []);
}

abbrev no_rows : NotificationState
no_rows k = none

health_ticks-Tracks_example :
    Tracks (codes "health:arr:sonarr") no_rows (health_ticks true (sick ∷ sick ∷ well ∷ []) no_rows)
health_ticks-Tracks_example =
    health_ticks-Tracks (codes "health:arr:sonarr") true (sick ∷ sick ∷ well ∷ []) no_rows
      (((λ k. refl), (λ k. refl)), (((λ k. refl), (λ k. refl)), (((λ k. refl), (λ k. refl)), tt)))

-- A signal, and the loop after it.
abbrev signalled_once : Loop
signalled_once = (react signalled begin_loop).0

Reachable-IsInStep_example : IsInStep signalled_once ((signalled, none) ∷ [])
unfolding react begin_loop
Reachable-IsInStep_example =
    Reachable-IsInStep signalled_once ((signalled, none) ∷ []) (woken signalled tt initially)
