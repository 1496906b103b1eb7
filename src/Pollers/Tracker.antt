-- ===== src/Pollers/Tracker.antt =====
-- internal/pollers/tracker_poller.go: the loop of `Run` as a machine that reacts to its timers and
-- signals, and a pass over torrents. The client, the store and the context are given.
pub mod Catchup
use triagearr.Base.{
  ℕ, suc, List, [], ◌∷◌, ◌++◌, Bool, true, false, Option, none, some, if◌then◌else◌, is_empty,
}
use triagearr.Base.Text.{codes}
use triagearr.Types.{Hash, Error, Result, ok, err}
use triagearr.Store.{TrackerInfo}
use triagearr.DiskWatcher.{within}

-- A pass of the poller.
pub data Pass : Type 0 where
  sweep catchup : Pass

-- What the select of `Run` may receive.
pub data Wake : Type 0 where
  full_fired signalled debounce_fired : Wake

-- `debouncing`, and whether the timers `full` and `debounce` are running.
pub record Loop : Type 0 where
  pub debouncing : Bool
  pub full_running : Bool
  pub debounce_running : Bool

-- The state after the first sweep, and after the debounce timer has been stopped.
unfoldable pub begin_loop : Loop
begin_loop = record { debouncing = false; full_running = true; debounce_running = false }

-- One round of the loop: the state, and the pass that was run.
unfoldable pub react : Wake → Loop → Loop × Option Pass
react full_fired l = (record l { full_running = true }, some sweep)
react signalled l =
    if l.debouncing
    then (l, none)
    else (record l { debouncing = true; debounce_running = true }, none)
react debounce_fired l = (record l { debouncing = false; debounce_running = false }, some catchup)

-- The client and the store during one pass. `cancelled` is the context before each torrent.
pub record PassAnswers : Type 0 where
  pub list_torrent_hashes : Result (List Hash)
  pub hashes_without_trackers : Result (List Hash)
  pub cancelled : ℕ → Bool
  pub list_trackers : Hash → Result (List TrackerInfo)
  pub replace_trackers : Hash → List TrackerInfo → Option Error

-- What became of each torrent, in order.
pub data Fetched : Type 0 where
  fetched : Hash → Fetched
  fetch_failed : Hash → Error → Fetched

abbrev pub replace_failed : Option Error → Option Error
replace_failed none = none
replace_failed (some e) = some (within (codes "replace trackers: ") e)

module _ (a : PassAnswers) where
  after_list : Hash → Result (List TrackerInfo) → Option Error
  after_list h (err e) = some (within (codes "list trackers: ") e)
  after_list h (ok infos) = replace_failed (a.replace_trackers h infos)

  -- `fetchOne`.
  unfoldable pub fetch_one : Hash → Option Error
  unfolding after_list
  fetch_one h = after_list h (a.list_trackers h)

  abbrev pub attempt_of : Hash → Option Error → Fetched
  attempt_of h none = fetched h
  attempt_of h (some e) = fetch_failed h e

  -- The loop of `fetchAll`, from the torrent with number `n`.
  unfoldable pub fetch_from_number : ℕ → List Hash → List Fetched
  fetch_from_number n [] = []
  fetch_from_number n (h ∷ rest) =
      let more = fetch_from_number (suc n) rest in
      if a.cancelled n then [] else attempt_of h (fetch_one h) ∷ more

  unfoldable pub fetch_all : List Hash → List Fetched
  fetch_all hashes = if is_empty hashes then [] else fetch_from_number 0 hashes

  over_hashes : Result (List Hash) → Result (List Fetched)
  over_hashes (err e) = err e
  over_hashes (ok hashes) = ok (fetch_all hashes)

  -- `fullSweep` and `catchup`.
  unfoldable pub run_pass : Pass → Result (List Fetched)
  unfolding over_hashes
  run_pass sweep = over_hashes a.list_torrent_hashes
  run_pass catchup = over_hashes a.hashes_without_trackers
