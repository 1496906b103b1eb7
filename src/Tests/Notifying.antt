-- ===== src/Tests/Notifying.antt =====
-- Notifications.
use triagearr.Base.{ℕ, ◌≡◌, ◌≤◌, refl, arith, ◌⊎◌, [], ◌∷◌, none, some, length}
use triagearr.Base.Int.{ℤ, pos}
use triagearr.Base.Words.{lt64}
use triagearr.Base.Text.{codes}
use triagearr.Notify.Event.{
  Event, test, run_failed, severity_info, severity_warning, severity_error, no_payload, allows,
  parse_severity, severity_string, severity_of, parse_severity-severity_string,
}
use triagearr.Notify.Format.{Verbs, scaled, human_bytes, scale, letter_at}
use triagearr.Notify.Format.Bytes.{Scales, scaled-Scales}
use triagearr.Notify.Format.Events.{sample_event, IsSample, sample_event-IsSample}
use triagearr.Notify.Dispatch.{Notifier, Dispatcher, new_dispatcher, dispatch, send_all}
use triagearr.Notify.Dispatch.Ring.{Dispatches, dispatch-Dispatches}
use triagearr.Tests.Values.{whole}

parse_severity-severity_string_example :
    (2 ≤ 2 → parse_severity (severity_string (pos 2)) ≡ some (pos 2))
    × ((s : ℤ)
        → parse_severity (codes "warning") ≡ some s
        → (codes "warning" ≡ []) ⊎ (codes "warning" ≡ severity_string s))
parse_severity-severity_string_example = parse_severity-severity_string 2 (codes "warning")

abbrev verbs : Verbs ℤ
verbs = record { fixed1 = λ x. codes "?"; quoted = λ t. t }

megabytes : human_bytes whole verbs 5_000_000 ≡ codes "? MiB"
unfolding human_bytes lt64 scale letter_at
megabytes = refl

scaled-Scales_example : (out : ℕ × ℕ) × (scaled 5_000_000 ≡ some out) × Scales 5_000_000 out
scaled-Scales_example = scaled-Scales 5_000_000 (omega arith) (omega arith)

sample_event-IsSample_example :
    IsSample whole verbs run_failed (sample_event whole verbs run_failed)
    × ((sample_event whole verbs run_failed).severity
        ≡ severity_of (sample_event whole verbs run_failed).kind)
sample_event-IsSample_example = sample_event-IsSample whole verbs run_failed

abbrev a_test : Event ℤ
a_test = record {
  kind = test;
  severity = severity_warning;
  title = [];
  text = [];
  payload = no_payload;
}

abbrev provider : ℤ → Notifier ℤ
provider floor = record {
  name = codes "mail";
  routing = record { min_severity = floor; mute = [] };
  send = λ ev. none;
  sent_at = 7;
}

abbrev providers : Dispatcher ℤ
providers = new_dispatcher (provider severity_error ∷ provider severity_info ∷ [])

-- Only the second has a floor that the event reaches.
one_sent : length (dispatch a_test providers).0 ≡ 1
unfolding dispatch send_all new_dispatcher allows
one_sent = refl

dispatch-Dispatches_example : Dispatches a_test providers (dispatch a_test providers)
unfolding new_dispatcher
dispatch-Dispatches_example = dispatch-Dispatches a_test providers (omega arith)
