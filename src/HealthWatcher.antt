-- ===== src/HealthWatcher.antt =====
-- internal/triggers/health_watcher.go: one notification for each change of a connection's health. The
-- table of sent notifications is the state; the rows of the instances, the errors of the store and
-- the clock are given. Log lines and the poll timer are left out.
pub mod Transitions
use triagearr.Base.{
  ℕ, List, [], ◌∷◌, ◌++◌, Bool, true, false, not, ◌&&◌, Option, none, some, if◌then◌else◌, is_some,
}
use triagearr.Base.Text.{Text, text_eq, codes}
use triagearr.Types.{Time, Error, Result, ok, err}
use triagearr.Notify.Event.{HealthEvent}

-- A row of `arr_instances` or `torrent_client_instances`.
pub record Instance : Type 0 where
  pub kind : Text
  pub healthy : Bool
  pub last_error : Option Text

-- The rows by `event_key`.
abbrev pub NotificationState : Type 0
NotificationState = Text → Option Time

-- What the store and the clock answer during one tick, by key; nothing is a nil error.
pub record HealthStore : Type 0 where
  pub list_arr_instances : Result (List Instance)
  pub list_torrent_client_instances : Result (List Instance)
  pub read_fault : Text → Option Error
  pub mark_fault : Text → Option Error
  pub clear_fault : Text → Option Error
  pub now : Text → Time

unfoldable pub health_key : Text → Text → Text
health_key kind component = codes "health:" ++ kind ++ codes ":" ++ component

-- `derefErr`.
deref_err : Option Text → Text
deref_err none = []
deref_err (some s) = s

abbrev pub put_row : Text → Option Time → NotificationState → NotificationState
put_row k row t q = if text_eq q k then row else t q

-- A statement that fails changes nothing.
abbrev pub written : Option Error → NotificationState → NotificationState → NotificationState
written (some e) was now = was
written none was now = now

module _ (st : HealthStore) where
  -- `reconcile` after the read of the row: what is dispatched, and the table.
  unfoldable pub transition :
      Text → HealthEvent → Bool → NotificationState → List HealthEvent × NotificationState
  transition key ev alerted t =
      if not ev.healthy && not alerted
      then (ev ∷ [], written (st.mark_fault key) t (put_row key (some (st.now key)) t))
      else (if ev.healthy && alerted
          then (ev ∷ [], written (st.clear_fault key) t (put_row key none t))
          else ([], t))

  unless_unread :
      Option Error → Text → HealthEvent → NotificationState → List HealthEvent × NotificationState
  unless_unread (some e) key ev t = ([], t)
  unless_unread none key ev t = transition key ev (is_some (t key)) t

  -- The event that a row would give; that of a recovery has no error.
  event_of : Text → Instance → HealthEvent
  unfolding deref_err
  event_of kind i = record {
    component = i.kind;
    kind = kind;
    healthy = i.healthy;
    last_error = if i.healthy then [] else deref_err i.last_error;
  }

  unfoldable pub reconcile :
      Text → Instance → NotificationState → List HealthEvent × NotificationState
  unfolding unless_unread event_of
  reconcile kind i t =
      let key = health_key kind i.kind in unless_unread (st.read_fault key) key (event_of kind i) t

  unfoldable pub reconcile_all :
      Text → List Instance → NotificationState → List HealthEvent × NotificationState
  reconcile_all kind [] t = ([], t)
  reconcile_all kind (i ∷ rest) t =
      let one = reconcile kind i t in
      let more = reconcile_all kind rest one.1 in (one.0 ++ more.0, more.1)

  with_clients :
      Result (List Instance)
      → NotificationState
      → Option Error × List HealthEvent × NotificationState
  with_clients (err e) t =
      (some (record e { message = codes "listing torrent_client_instances: " ++ e.message }), [], t)
  with_clients (ok tcs) t =
      let out = reconcile_all (codes "torrent_client") tcs t in (none, out.0, out.1)

  with_arrs :
      Result (List Instance)
      → NotificationState
      → Option Error × List HealthEvent × NotificationState
  unfolding with_clients
  with_arrs (err e) t =
      (some (record e { message = codes "listing arr_instances: " ++ e.message }), [], t)
  with_arrs (ok arrs) t =
      let first = reconcile_all (codes "arr") arrs t in
      let second = with_clients st.list_torrent_client_instances first.1 in
      (second.0, first.0 ++ second.1, second.2)

  -- `tick`: its error, what it dispatches, and the table.
  unfoldable pub health_tick :
      Bool → NotificationState → Option Error × List HealthEvent × NotificationState
  unfolding with_arrs
  health_tick has_notifier t =
      if not has_notifier then (none, [], t) else with_arrs st.list_arr_instances t

-- The ticks of a run, and what they dispatch.
unfoldable pub health_ticks :
    Bool → List HealthStore → NotificationState → List HealthEvent × NotificationState
health_ticks has_notifier [] t = ([], t)
health_ticks has_notifier (st ∷ rest) t =
    let one = health_tick st has_notifier t in
    let more = health_ticks has_notifier rest one.2 in (one.1 ++ more.0, more.1)
