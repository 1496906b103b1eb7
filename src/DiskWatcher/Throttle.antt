-- ===== src/DiskWatcher/Throttle.antt =====
-- `tick` and `maybeAlertShortfall`: how often the watcher fires, and how often it alerts.
use triagearr.Base.{
  ℕ, ◌+◌, ◌≤◌, ◌<◌, ◌≡◌, ◌≢◌, refl, ◌⊎◌, inl, inr, List, [], ◌∷◌, true, false, Option, none, some,
  arith, Bool-cases,
}
use triagearr.Base.Int.{pos, ltb_ℤ}
use triagearr.Types.{
  Time, Duration, Result, ok, err, DiskUsage, RunStopReason, no_more_candidates, target_reached,
  user_stopped,
}
use triagearr.Float.{Float, sub_time}
use triagearr.Decider.{RunPlan}
use triagearr.DiskWatcher.{
  Watcher, Watch, Answers, Effect, alerted, sent_marked, state_cleared, Outcome, fire, fired,
  under_rule, with_snapshot, tick, TickResult, alert, alert_key, is_reminded, is_short, with_state,
  maybe_alert_shortfall,
}

-- An interval that is not below a duration is at least as long.
sub_time-le :
    (now last grace : ℕ) → ltb_ℤ (sub_time now last) (pos grace) ≡ false → last + grace ≤ now
unfolding sub_time
sub_time-le now last grace h = ground arith

sub_time-lt :
    (now last grace : ℕ)
    → grace < 9223372036854775808
    → ltb_ℤ (sub_time now last) (pos grace) ≡ true
    → now < last + grace
unfolding sub_time
sub_time-lt now last grace bound h = ground arith

module _ (fl : Float) (w : Watcher fl.F) (a : Answers fl.F) where
  open fl use {F, lt}

  -- The watch keeps the time of its last fire, or moves it to now, as the fire ended.
  abbrev pub Moves : Watch → Outcome fl w a → Watch → Type 0
  Moves was out now =
      ((out.0 ≡ none) × (now.last_fire ≡ a.now_tick))
      ⊎ ((out.0 ≢ none) × (now.last_fire ≡ was.last_fire))

  -- What one tick comes to: nothing without a sample; above the rule, only that the watch is told so;
  -- under it, a fire, unless the sample before was under it too and the last fire is too near.
  abbrev pub Ticks : Duration → Watch → TickResult fl w a → Type 0
  Ticks grace was r =
      (((snap : DiskUsage F) → a.latest_disk_usage ≢ ok (some snap))
        × (r.effects ≡ [])
        × (r.watch ≡ was))
      ⊎ ((snap : DiskUsage F) × (a.latest_disk_usage ≡ ok (some snap))
          × (((lt snap.free_percent w.rule.threshold_free_percent ≡ false)
                × (r.effects ≡ [])
                × (r.watch ≡ record was { firing_now = false }))
              ⊎ ((lt snap.free_percent w.rule.threshold_free_percent ≡ true)
                  × (r.watch.firing_now ≡ true)
                  × (((was.firing_now ≡ true)
                        × (a.now_tick < was.last_fire + grace)
                        × (r.effects ≡ [])
                        × (r.watch.last_fire ≡ was.last_fire))
                      ⊎ (((was.firing_now ≡ false) ⊎ (was.last_fire + grace ≤ a.now_tick))
                          × (r.effects ≡ (fire fl w a snap).1)
                          × Moves was (fire fl w a snap) r.watch)))))

  fired-Moves :
      (was now : Watch) (out : Outcome fl w a)
      → now.last_fire ≡ was.last_fire
      → let r = fired fl w a now out in
        (r.effects ≡ out.1) × (r.watch.firing_now ≡ now.firing_now) × Moves was out r.watch
  unfolding fired
  fired-Moves was now (none, es) e = (refl, refl, inl (refl, refl))
  fired-Moves was now (some x, es) e = (refl, refl, inr ((λ h. cc), e))

  -- The last two cases of `Ticks`.
  abbrev Reacts : Duration → Watch → DiskUsage F → TickResult fl w a → Type 0
  Reacts grace was snap r =
      (r.watch.firing_now ≡ true)
      × (((was.firing_now ≡ true)
            × (a.now_tick < was.last_fire + grace)
            × (r.effects ≡ [])
            × (r.watch.last_fire ≡ was.last_fire))
          ⊎ (((was.firing_now ≡ false) ⊎ (was.last_fire + grace ≤ a.now_tick))
              × (r.effects ≡ (fire fl w a snap).1)
              × Moves was (fire fl w a snap) r.watch))

  under_rule-Reacts :
      (grace : Duration) (was : Watch) (snap : DiskUsage F)
      → grace < 9223372036854775808
      → Reacts grace was snap (under_rule fl w a grace was snap)
  unfolding under_rule
  under_rule-Reacts grace was snap bound =
      let now : Watch = record was { firing_now = true } in
      let (es, f, moved) = fired-Moves was now (fire fl w a snap) refl in
      elim (Bool-cases was.firing_now) [
        | inr above ↦ simp above (f, inr (inl refl, es, moved))
        | inl below ↦ elim (Bool-cases (ltb_ℤ (sub_time a.now_tick was.last_fire) (pos grace))) [
          | inl early ↦
              let near = sub_time-lt a.now_tick was.last_fire grace bound early in
              simp (below, early) (refl, inl (refl, near, refl, refl))
          | inr late ↦
              let far = sub_time-le a.now_tick was.last_fire grace late in
              simp (below, late) (f, inr (inr far, es, moved))
        ]
      ]

  with_snapshot-Ticks :
      (grace : Duration) (was : Watch) (r : Result (Option (DiskUsage F)))
      → grace < 9223372036854775808
      → a.latest_disk_usage ≡ r
      → Ticks grace was (with_snapshot fl w a grace was r)
  unfolding with_snapshot
  with_snapshot-Ticks grace was (err e) bound h = inl ((λ snap k. cc), refl, refl)
  with_snapshot-Ticks grace was (ok none) bound h = inl ((λ snap k. cc), refl, refl)
  with_snapshot-Ticks grace was (ok (some snap)) bound h =
      elim (Bool-cases (lt snap.free_percent w.rule.threshold_free_percent)) [
        | inr over ↦ simp over (inr (snap, h, inl (over, refl, refl)))
        | inl under ↦
            let (f, rest) = under_rule-Reacts grace was snap bound in
            simp under (inr (snap, h, inr (under, f, rest)))
      ]

  -- Let the grace fit in 63 bits. Without a sample a tick has no effect and changes nothing. A sample
  -- that is not under the threshold has no effect, and the watch then remembers that the rule does
  -- not fire. Under the threshold the watch remembers that it does, and the tick fires, with the
  -- effects of a fire, unless the rule fired at the sample before and the last fire is less than
  -- the grace ago. The time of the last fire becomes the tick's if the fire succeeds, and stays in
  -- all other cases.
  pub tick-Ticks :
      (grace : Duration) (was : Watch)
      → grace < 9223372036854775808
      → Ticks grace was (tick fl w a grace was)
  unfolding tick
  tick-Ticks grace was bound = with_snapshot-Ticks grace was a.latest_disk_usage bound refl

  -- The reminder's delay is over since the last alert of the episode, if there was one.
  abbrev pub Elapsed : Option Time → Type 0
  Elapsed none = Unit
  Elapsed (some last) = last + w.target_unreachable_reminder ≤ a.now_alert

  abbrev pub alert_effects : DiskUsage F → RunPlan F → List (Effect F)
  alert_effects snap p =
      alerted (alert fl w a snap p)
      ∷ sent_marked (alert_key fl w a) a.now_alert
          (a.mark_notification_sent (alert_key fl w a) a.now_alert)
      ∷ []

  -- What the alert comes to.
  abbrev pub Alerts : DiskUsage F → RunPlan F → List (Effect F) → Type 0
  Alerts snap p es =
      ((p.stop_reason ≢ some no_more_candidates)
        × (es
            ≡ state_cleared (alert_key fl w a) (a.clear_notification_state (alert_key fl w a))
              ∷ []))
      ⊎ ((p.stop_reason ≡ some no_more_candidates) × (es ≡ []))
      ⊎ ((p.stop_reason ≡ some no_more_candidates)
          × (w.has_notifier ≡ true)
          × ((sent : Option Time) × (a.get_notification_state (alert_key fl w a) ≡ ok sent)
              × Elapsed sent
              × (es ≡ alert_effects snap p)))

  is_reminded-Elapsed : (sent : Option Time) → is_reminded fl w a sent ≡ false → Elapsed sent
  unfolding is_reminded
  is_reminded-Elapsed none h = tt
  is_reminded-Elapsed (some last) h = sub_time-le a.now_alert last w.target_unreachable_reminder h

  with_state-Alerts :
      (snap : DiskUsage F) (p : RunPlan F) (r : Result (Option Time))
      → a.get_notification_state (alert_key fl w a) ≡ r
      → p.stop_reason ≡ some no_more_candidates
      → w.has_notifier ≡ true
      → Alerts snap p (with_state fl w a snap p r)
  unfolding with_state
  with_state-Alerts snap p (err e) g s n = inr (inl (s, refl))
  with_state-Alerts snap p (ok sent) g s n = elim (Bool-cases (is_reminded fl w a sent)) [
    | inl soon ↦ simp soon (inr (inl (s, refl)))
    | inr late ↦ simp late (inr (inr (s, n, (sent, g, is_reminded-Elapsed sent late, refl))))
  ]

  is_short-cases :
      (r : Option RunStopReason)
      → ((r ≡ some no_more_candidates) × (is_short r ≡ true))
        ⊎ ((r ≢ some no_more_candidates) × (is_short r ≡ false))
  is_short-cases none = inr ((λ h. cc), refl)
  is_short-cases (some no_more_candidates) = inl (refl, refl)
  is_short-cases (some target_reached) = inr ((λ h. cc), refl)
  is_short-cases (some user_stopped) = inr ((λ h. cc), refl)

  -- If the plan reaches the target, the throttle is cleared and nothing is sent. Otherwise an alert
  -- is sent only if a notifier is set and the state can be read, and the last alert that it holds is
  -- at least the reminder's delay ago; the alert is followed by the mark of its time, and without
  -- an alert nothing is written.
  pub maybe_alert_shortfall-Alerts :
      (snap : DiskUsage F) (p : RunPlan F) → Alerts snap p (maybe_alert_shortfall fl w a snap p)
  unfolding maybe_alert_shortfall
  maybe_alert_shortfall-Alerts snap p = elim (is_short-cases p.stop_reason) [
    | inr (other, h) ↦ simp h (inl (other, refl))
    | inl (short, h) ↦ elim (Bool-cases w.has_notifier) [
      | inr n ↦ simp (h, n) (inr (inl (short, refl)))
      | inl n ↦
          simp (h, n)
            (simp n at
              (with_state-Alerts snap p (a.get_notification_state (alert_key fl w a)) refl short n))
    ]
  ]
