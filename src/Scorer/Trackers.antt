-- ===== src/Scorer/Trackers.antt =====
-- internal/scorer/factors.go: the trackers of a torrent, and the two readings of their death.
use triagearr.Base.{
  ℕ, ◌+◌, ◌≡◌, refl, List, [], ◌∷◌, map, Bool, true, false, not, Option, none, some, arith, ltb,
  ◌==◌, if◌then◌else◌,
}
use triagearr.Base.Text.{Text}
use triagearr.Types.{Hash, Time, Duration, TrackerStatus, tracker_not_working}

pub record TrackerRow : Type 0 where
  pub torrent_hash : Hash
  pub url : Text
  pub host : Text
  pub status : TrackerStatus
  pub msg : Text
  pub last_checked : Time
  pub first_seen_dead : Option Time

pub record TrackerView : Type 0 where
  pub host : Text
  pub status : TrackerStatus
  pub last_checked : Time
  pub first_seen_dead : Option Time

tracker_view : TrackerRow → TrackerView
tracker_view r = record {
  host = r.host;
  status = r.status;
  last_checked = r.last_checked;
  first_seen_dead = r.first_seen_dead;
}

unfoldable pub tracker_views_from_rows : List TrackerRow → List TrackerView
unfolding tracker_view
tracker_views_from_rows = map tracker_view

-- The loop of `anyTrackerAlive`.
some_alive : List TrackerView → Bool
some_alive [] = false
some_alive (t ∷ ts) = if not (t.status == tracker_not_working) then true else some_alive ts

unfoldable pub any_tracker_alive : List TrackerView → Bool
unfolding some_alive
any_tracker_alive [] = true
any_tracker_alive (t ∷ ts) = some_alive (t ∷ ts)

-- `FirstSeenDead == nil || FirstSeenDead.After(now.Add(-grace))`, the sum on the other side.
too_recent : Option Time → Time → Duration → Bool
too_recent none now grace = true
too_recent (some dead) now grace = ltb now (dead + grace)

-- The loop of `allTrackersDeadSustained`.
none_recent : List TrackerView → Time → Duration → Bool
unfolding too_recent
none_recent [] now grace = true
none_recent (t ∷ ts) now grace =
    if not (t.status == tracker_not_working)
    then false
    else (if too_recent t.first_seen_dead now grace then false else none_recent ts now grace)

unfoldable pub all_trackers_dead_sustained : List TrackerView → Time → Duration → Bool
unfolding none_recent
all_trackers_dead_sustained [] now grace = false
all_trackers_dead_sustained (t ∷ ts) now grace = none_recent (t ∷ ts) now grace

none_recent-some_alive :
    (ts : List TrackerView) (now grace : ℕ)
    → none_recent ts now grace ≡ true
    → some_alive ts ≡ false
unfolding none_recent some_alive
none_recent-some_alive [] now grace h = refl
none_recent-some_alive (t ∷ ts) now grace h = ground (arith, none_recent-some_alive ts now grace)

-- A torrent whose trackers have all been dead for the grace period has no live tracker.
pub dead_sustained-not_alive :
    (ts : List TrackerView) (now grace : ℕ)
    → all_trackers_dead_sustained ts now grace ≡ true
    → any_tracker_alive ts ≡ false
unfolding all_trackers_dead_sustained any_tracker_alive
dead_sustained-not_alive [] now grace h = ground arith
dead_sustained-not_alive (t ∷ ts) now grace h = none_recent-some_alive (t ∷ ts) now grace h

-- Once dead for the grace period, a set of trackers stays so while nothing is polled anew.
none_recent-later :
    (ts : List TrackerView) (now later grace : ℕ)
    → ltb later now ≡ false
    → none_recent ts now grace ≡ true
    → none_recent ts later grace ≡ true
unfolding none_recent
none_recent-later [] now later grace l h = refl
none_recent-later (t ∷ ts) now later grace l h =
    ground (arith, none_recent-later ts now later grace l)
