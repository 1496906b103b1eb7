-- ===== src/Notify/Dispatch.antt =====
-- internal/notify/notify.go: the dispatcher. A provider is its name, its routing, what `Send` returns
-- and what the clock shows when the delivery is recorded. The mutex makes a record one step. A nil
-- `*Dispatcher` is one without providers.
pub mod Ring
use triagearr.Base.{
  ℕ, zero, suc, ◌-◌, List, [], ◌∷◌, ◌++◌, map, Bool, true, false, not, ◌||◌, Option, none, some,
  ltb, if◌then◌else◌, length, is_empty, is_some, select,
}
use triagearr.Base.Int.{ℤ}
use triagearr.Base.Text.{Text, text_eq, codes}
use triagearr.Types.{Time, Error}
use triagearr.Float.{Float}
use triagearr.DiskWatcher.{Report, Alert}
use triagearr.Notify.Event.{EventKind, no_kind, same_kind, HealthEvent, Event, Routing, allows}
use triagearr.Notify.Format.{Verbs}
use triagearr.Notify.Format.Events.{format_run, format_alert, format_health, sample_event}

pub record Notifier (F : Type 0) : Type 0 where
  pub name : Text
  pub routing : Routing
  pub send : Event F → Option Error
  pub sent_at : Time

pub record Delivery : Type 0 where
  pub provider : Text
  pub kind : EventKind
  pub severity : ℤ
  pub ok : Bool
  pub err : Text
  pub at : Time

pub record Dispatcher (F : Type 0) : Type 0 where
  pub notifiers : List (Notifier F)
  pub deliveries : List Delivery

abbrev pub delivery_ring_size : ℕ
delivery_ring_size = 100

-- `TestOptions`.
pub record TestOptions : Type 0 where
  pub provider : Text
  pub kind : EventKind

-- What `SendTestEvent` returns; the last are the joined errors by provider, of which none is nil.
pub data TestResult : Type 0 where
  no_provider : TestResult
  provider_not_enabled : Text → TestResult
  joined : List (Text × Error) → TestResult

module _ {ℓ} {A : Type ℓ} where
  -- `xs[n:]`.
  unfoldable pub drop : ℕ → List A → List A
  drop zero xs = xs
  drop (suc n) [] = []
  drop (suc n) (x ∷ xs) = drop n xs

  -- The last `n`.
  unfoldable pub keep_last : ℕ → List A → List A
  keep_last n xs = if ltb n (length xs) then drop (length xs - n) xs else xs

  abbrev pub reversed : List A → List A
  reversed [] = []
  reversed (x ∷ xs) = reversed xs ++ x ∷ []

abbrev pub error_text : Option Error → Text
error_text none = []
error_text (some e) = e.message

-- `record`.
unfoldable pub recorded : Delivery → List Delivery → List Delivery
recorded x ds = keep_last delivery_ring_size (ds ++ x ∷ [])

failure : Text → Option Error → List (Text × Error)
failure name none = []
failure name (some e) = (name, e) ∷ []

module _ {F : Type 0} where
  unfoldable pub new_dispatcher : List (Notifier F) → Dispatcher F
  new_dispatcher ns = record { notifiers = ns; deliveries = [] }

  -- `Dispatcher.Empty`.
  abbrev pub no_notifiers : Dispatcher F → Bool
  no_notifiers d = is_empty d.notifiers

  unfoldable pub delivery : Notifier F → Event F → Delivery
  delivery n ev = record {
    provider = n.name;
    kind = ev.kind;
    severity = ev.severity;
    ok = not (is_some (n.send ev));
    err = error_text (n.send ev);
    at = n.sent_at;
  }

  -- The loop of `dispatch`: the providers that were sent the event, and the ring.
  unfoldable pub send_all :
      Event F → List (Notifier F) → List Delivery → List (Notifier F) × List Delivery
  send_all ev [] ds = ([], ds)
  send_all ev (n ∷ rest) ds =
      let skipped = send_all ev rest ds in
      let sent = send_all ev rest (recorded (delivery n ev) ds) in
      if allows n.routing ev then (n ∷ sent.0, sent.1) else skipped

  -- `dispatch`.
  unfoldable pub dispatch : Event F → Dispatcher F → List (Notifier F) × Dispatcher F
  dispatch ev d =
      let out = send_all ev d.notifiers d.deliveries in (out.0, record d { deliveries = out.1 })

  -- `Deliveries`.
  unfoldable pub deliveries_newest_first : Dispatcher F → List Delivery
  deliveries_newest_first d = reversed d.deliveries

  -- The providers that a test is for; the empty name is for all.
  is_targeted : Text → Notifier F → Bool
  is_targeted provider n = is_empty provider || text_eq n.name provider

  -- The loop of `SendTestEvent`: the errors, whether a provider matched, and the ring.
  unfoldable pub test_all :
      Text
      → Event F
      → List (Notifier F)
      → List Delivery
      → List (Text × Error) × Bool × List Delivery
  unfolding is_targeted failure
  test_all provider ev [] ds = ([], false, ds)
  test_all provider ev (n ∷ rest) ds =
      let skipped = test_all provider ev rest ds in
      let sent = test_all provider ev rest (recorded (delivery n ev) ds) in
      if is_targeted provider n
      then (failure n.name (n.send ev) ++ sent.0, true, sent.2)
      else skipped

module _ (fl : Float) (v : Verbs fl.F) where
  open fl use {F}

  -- `Dispatch`, for a run; an event without a kind is dropped.
  unfoldable pub dispatch_run : Report F → Dispatcher F → List (Notifier F) × Dispatcher F
  dispatch_run r d =
      let ev = format_run fl v r in if same_kind ev.kind no_kind then ([], d) else dispatch ev d

  unfoldable pub dispatch_alert : Alert F → Dispatcher F → List (Notifier F) × Dispatcher F
  dispatch_alert a d = dispatch (format_alert fl v a) d

  unfoldable pub dispatch_health : HealthEvent → Dispatcher F → List (Notifier F) × Dispatcher F
  dispatch_health h d = dispatch (format_health fl v h) d

  test_result : Text → List (Text × Error) × Bool × List Delivery → TestResult
  test_result provider (errs, true, ds) = joined errs
  test_result provider (errs, false, ds) = provider_not_enabled provider

  -- `SendTestEvent`.
  unfoldable pub send_test_event : TestOptions → Dispatcher F → TestResult × Dispatcher F
  unfolding test_result
  send_test_event opts d =
      let out = test_all opts.provider (sample_event fl v opts.kind) d.notifiers d.deliveries in
      if no_notifiers d
      then (no_provider, d)
      else (test_result opts.provider out, record d { deliveries = out.2 })

  -- `SendTest`.
  unfoldable pub send_test : Dispatcher F → TestResult × Dispatcher F
  send_test d = send_test_event (record { provider = []; kind = no_kind }) d
