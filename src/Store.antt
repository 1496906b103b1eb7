-- ===== src/Store.antt =====
-- internal/store/trackers_repos.go: `ReplaceTrackers`, in one transaction. Whether SQLite fails at a
-- statement is given; a statement that fails leaves the transaction as it was. Runs has
-- internal/store/runs_repos.go, Actions internal/store/actions_repos.go.
pub mod Actions
pub mod Dated
pub mod Replaced
pub mod Runs
use triagearr.Base.{
  ℕ, List, [], ◌∷◌, ◌++◌, Bool, true, false, ◌&&◌, Option, none, some, ◌==◌, ltb, if◌then◌else◌,
  not, select,
}
use triagearr.Base.Text.{Text, text_eq, codes}
use triagearr.Types.{Hash, Time, Error, Result, ok, err, TrackerStatus, tracker_not_working}
use triagearr.Scorer.Trackers.{TrackerRow}

pub record TrackerInfo : Type 0 where
  pub url : Text
  pub host : Text
  pub status : TrackerStatus
  pub msg : Text

-- The answers: nothing is a nil error. `proxy` is the parsed
-- `COALESCE(last_activity, completion_on, added_on)`, if there is one.
pub record Database : Type 0 where
  pub begin_tx : Option Error
  pub load_prior : Option Error
  pub clear : Option Error
  pub insert : TrackerRow → Option Error
  pub commit : Option Error
  pub now : Time
  pub proxy : Option Time

-- `prevByURL[u]`: a later row replaces an earlier one.
unfoldable pub previous : List TrackerRow → Text → Option TrackerRow
previous [] u = none
previous (r ∷ rs) u = elim (previous rs u) [
  | some p ↦ some p
  | none ↦ if text_eq r.url u then some r else none
]

-- `seedDeadSince`.
unfoldable pub seed_dead_since : Option Time → Time → Time
seed_dead_since none now = now
seed_dead_since (some p) now = if ltb p now then p else now

-- `p.firstSeenDead` of a previous row that was dead.
unfoldable pub carried : Option TrackerRow → Option Time
carried none = none
carried (some r) = if r.status == tracker_not_working then r.first_seen_dead else none

or_seed : Option Time → Time → Option Time
or_seed (some d) seed = some d
or_seed none seed = some seed

-- `firstSeenDead` of the loop's body.
unfoldable pub first_seen_dead : Database → List TrackerRow → TrackerInfo → Option Time
unfolding or_seed
first_seen_dead db prior info =
    if info.status == tracker_not_working
    then or_seed (carried (previous prior info.url)) (seed_dead_since db.proxy db.now)
    else none

unfoldable pub new_row : Database → Hash → List TrackerRow → TrackerInfo → TrackerRow
new_row db h prior info = record {
  torrent_hash = h;
  url = info.url;
  host = info.host;
  status = info.status;
  msg = info.msg;
  last_checked = db.now;
  first_seen_dead = first_seen_dead db prior info;
}

within : Text → Error → Error
within s e = record e { message = s ++ e.message }

-- The rows of `torrent_trackers`, of all torrents, as they are committed, and as the statements of the
-- open transaction have left them.
pub record Tx : Type 0 where
  pub committed : List TrackerRow
  pub working : List TrackerRow

abbrev pub begun : List TrackerRow → Tx
begun rows = record { committed = rows; working = rows }

abbrev pub is_of : Hash → TrackerRow → Bool
is_of h r = text_eq r.torrent_hash h

-- `DELETE FROM torrent_trackers WHERE torrent_hash = ?`.
abbrev pub without_rows : Hash → Tx → Tx
without_rows h tx = record tx { working = select (λ r. not (is_of h r)) tx.working }

abbrev pub with_row : TrackerRow → Tx → Tx
with_row row tx = record tx { working = tx.working ++ row ∷ [] }

abbrev pub commit : Tx → Tx
commit tx = record tx { committed = tx.working }

-- `tx.Rollback()`, which does nothing behind a commit.
abbrev pub rollback : Tx → Tx
rollback tx = record tx { working = tx.committed }

-- A call with its error: the function returns it, with the transaction as it stands, or goes on.
or_return : Option Error → Text → Tx → Tx × Option Error → Tx × Option Error
unfolding within
or_return (some e) s tx next = (tx, some (within s e))
or_return none s tx next = next

-- The loop, and the commit behind it.
insert_rows : Database → Hash → List TrackerRow → List TrackerInfo → Tx → Tx × Option Error
unfolding or_return
insert_rows db h prior [] tx = or_return db.commit (codes "commit trackers: ") tx (commit tx, none)
insert_rows db h prior (info ∷ infos) tx =
    let row = new_row db h prior info in
    let next = insert_rows db h prior infos (with_row row tx) in
    or_return (db.insert row) (codes "inserting tracker: ") tx next

-- The body behind `BeginTxx`; the rows of the torrent are read before they are deleted.
in_transaction : Database → Hash → List TrackerInfo → Tx → Tx × Option Error
unfolding insert_rows or_return
in_transaction db h infos tx =
    let prior = select (is_of h) tx.working in
    or_return db.load_prior (codes "loading prior trackers: ") tx (
      or_return db.clear (codes "clearing trackers: ") tx
        (insert_rows db h prior infos (without_rows h tx)))

committed_rows : Tx × Option Error → List TrackerRow × Option Error
committed_rows (tx, e) = ((rollback tx).working, e)

-- The rows of all torrents afterwards, and the error.
unfoldable pub replace_trackers :
    Database → Hash → List TrackerInfo → List TrackerRow → List TrackerRow × Option Error
unfolding in_transaction or_return committed_rows
replace_trackers db h infos rows = committed_rows (
    or_return db.begin_tx (codes "begin tx for trackers: ") (begun rows)
      (in_transaction db h infos (begun rows)))
