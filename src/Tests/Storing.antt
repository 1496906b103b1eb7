-- ===== src/Tests/Storing.antt =====
-- The tracker rows of a torrent, and a run.
use triagearr.Store.Runs.{RunDb, insert_run, insert_run_items, get_run_row}
use triagearr.Store.Runs.Stored.{get_run_row-insert_run}
use triagearr.Tests.Values.{run_a, item_a}
use triagearr.Base.Int.{ℤ}
use triagearr.Base.{ℕ, Option, ◌≡◌, refl, List, [], ◌∷◌, map, true, none, some, arith}
use triagearr.Base.Text.{Text, codes, text_eq}
use triagearr.Scorer.Trackers.{TrackerRow}
use triagearr.Store.{
  Database, TrackerInfo, new_row, replace_trackers, previous, carried, first_seen_dead,
  seed_dead_since,
}
use triagearr.Store.Dated.{IsDated, new_row-IsDated}
use triagearr.Store.Replaced.{Replaced, replace_trackers-Replaced}
use triagearr.Types.{AuditEntry, running, qbit_delete, failed}
use triagearr.Store.Actions.{ActionDb}
use triagearr.Tests.Values.{hash_a}

abbrev db : Database
db = record {
  begin_tx = none;
  load_prior = none;
  clear = none;
  insert = λ r. none;
  commit = none;
  now = 100;
  proxy = some 40;
}

abbrev dead_row : TrackerRow
dead_row = record {
  torrent_hash = hash_a;
  url = codes "a";
  host = codes "a";
  status = 4;
  msg = [];
  last_checked = 60;
  first_seen_dead = some 55;
}

abbrev reported : List TrackerInfo
reported =
    record { url = codes "a"; host = codes "a"; status = 4; msg = [] }
    ∷ record { url = codes "b"; host = codes "b"; status = 4; msg = [] }
    ∷ record { url = codes "c"; host = codes "c"; status = 2; msg = [] }
    ∷ []

-- Kept, seeded with the last activity, and cleared.
dates :
    map (λ (i : TrackerInfo). first_seen_dead db (dead_row ∷ []) i) reported
    ≡ some 55 ∷ some 40 ∷ none ∷ []
unfolding first_seen_dead previous carried seed_dead_since text_eq
dates = refl

-- A row of another torrent.
abbrev other_row : TrackerRow
other_row = record dead_row { torrent_hash = codes "other" }

abbrev table : List TrackerRow
table = dead_row ∷ other_row ∷ []

-- The rows of the torrent are replaced, and the other row stays.
replaced_table :
    map {B = Text × Option ℕ}
      (λ (r : TrackerRow). (r.torrent_hash, r.first_seen_dead))
      (replace_trackers db hash_a reported table).0
    ≡ (codes "other", some 55) ∷ (hash_a, some 55) ∷ (hash_a, some 40) ∷ (hash_a, none) ∷ []
unfolding replace_trackers new_row first_seen_dead previous carried seed_dead_since text_eq
replaced_table = refl

replace_trackers-Replaced_example :
    Replaced db hash_a table reported (replace_trackers db hash_a reported table)
replace_trackers-Replaced_example = replace_trackers-Replaced db hash_a table reported

abbrev new_b : TrackerInfo
new_b = record { url = codes "b"; host = codes "b"; status = 4; msg = [] }

new_row-IsDated_example :
    IsDated db hash_a (dead_row ∷ []) new_b (new_row db hash_a (dead_row ∷ []) new_b)
new_row-IsDated_example = new_row-IsDated db hash_a (dead_row ∷ []) new_b

-- One run is stored; the next has id 2.
abbrev one_run : RunDb ℤ
one_run = record { runs = run_a ∷ []; run_items = item_a ∷ []; next_id = 2 }

get_run_row-insert_run_example :
    ((insert_run none run_a one_run).0 ≡ some 2)
    × ((insert_run_items none 2 (item_a ∷ []) (insert_run none run_a one_run).1).0 ≡ true)
    × (get_run_row 2 (insert_run_items none 2 (item_a ∷ []) (insert_run none run_a one_run).1).1
        ≡ some (record run_a { id = 2 }, record item_a { run_id = 2 } ∷ []))
get_run_row-insert_run_example =
    get_run_row-insert_run run_a (item_a ∷ []) one_run ((omega arith, tt), (omega arith, tt))
      (omega arith, tt)

abbrev one_action : ActionDb
one_action = record {
  actions =
      record {
        id = 5;
        run_id = 1;
        rank = 0;
        torrent_hash = hash_a;
        torrent_name = codes "a";
        started_at = 3;
        finished_at = none;
        status = running;
        freed_bytes = 0;
      }
      ∷ [];
  audit_log = [];
  next_action = 6;
}

abbrev logged : AuditEntry
logged = record {
  action_id = 5;
  timestamp = 4;
  step = qbit_delete;
  arr_type = [];
  arr_file_id = 0;
  outcome = failed;
  detail = codes "timeout";
}
