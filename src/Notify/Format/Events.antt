-- ===== src/Notify/Format/Events.antt =====
-- internal/notify/format.go: the events themselves, and those of a test.
use triagearr.Base.{
  ℕ, ◌*◌, ◌≡◌, refl, ◌⊎◌, inl, inr, List, [], ◌∷◌, ◌++◌, Bool, true, false, if◌then◌else◌, is_empty,
}
use triagearr.Base.Int.{pos}
use triagearr.Base.Words.{sub64, lt64}
use triagearr.Base.Text.{Text, codes, decimal, trim_right}
use triagearr.Types.{live, succeeded, failed_qbit}
use triagearr.Float.{Float}
use triagearr.DiskWatcher.{Report, ReportItem, Alert}
use triagearr.Notify.Event.{
  EventKind, run_executed, run_partial, run_failed, target_unreachable, health_degraded,
  health_recovered, test, other_kind, no_kind, severity_of, severity_info, HealthEvent, no_payload,
  of_run, of_alert, of_health, Event, is_known, kind_severity,
}
use triagearr.Notify.Format.{
  Verbs, newline, mode_text, human_bytes, run_outcome, run_text, count, hard_failed,
}

-- `1 << 30`.
abbrev pub gib : ℕ
gib = 1_073_741_824

module _ (fl : Float) (v : Verbs fl.F) where
  open fl use {F, of_int, div}
  open v use {fixed1, quoted}

  run_title : EventKind → Report F → Text
  run_title run_failed r = codes "Triagearr — run failed on " ++ quoted r.volume_name
  run_title run_partial r = codes "Triagearr — run partial on " ++ quoted r.volume_name
  run_title _ r = codes "Triagearr — disk pressure on " ++ quoted r.volume_name

  abbrev pub no_event : Event F
  no_event = record {
    kind = no_kind;
    severity = severity_info;
    title = [];
    text = [];
    payload = no_payload;
  }

  run_event : EventKind → Report F → Event F
  unfolding run_title
  run_event kind r = record {
    kind = kind;
    severity = severity_of kind;
    title = run_title kind r;
    text = trim_right (run_text fl v r) 10;
    payload = of_run r;
  }

  -- `FormatRun`.
  unfoldable pub format_run : Report F → Event F
  unfolding run_event
  format_run r = if is_empty r.items then no_event else run_event (run_outcome fl v r) r

  shortfall : Alert F → ℕ
  shortfall a = let gap = sub64 a.need_bytes a.reclaimable_bytes in if lt64 gap 0 then 0 else gap

  alert_text : Alert F → Text
  unfolding shortfall
  alert_text a =
      codes "Triagearr — disk-pressure target unreachable on "
      ++ quoted a.volume_name
      ++ newline
      ++ codes "Free space: "
      ++ fixed1 a.free_pct
      ++ codes "% (target "
      ++ fixed1 a.target_free_pct
      ++ codes "%)"
      ++ newline
      ++ codes "Need "
      ++ human_bytes fl v a.need_bytes
      ++ codes " to reach target; only "
      ++ human_bytes fl v a.reclaimable_bytes
      ++ codes " reclaimable from "
      ++ decimal a.candidate_count
      ++ codes " candidate(s)."
      ++ newline
      ++ codes "Shortfall: "
      ++ human_bytes fl v (shortfall a)
      ++ codes " — not enough eligible content to delete."
      ++ newline
      ++ codes "Mode: "
      ++ mode_text a.mode

  -- `FormatAlert`.
  unfoldable pub format_alert : Alert F → Event F
  unfolding alert_text mode_text
  format_alert a = record {
    kind = target_unreachable;
    severity = severity_of target_unreachable;
    title = codes "Triagearr — target unreachable on " ++ quoted a.volume_name;
    text = alert_text a;
    payload = of_alert a;
  }

  health_kind : HealthEvent → EventKind
  health_kind h = if h.healthy then health_recovered else health_degraded

  health_title : HealthEvent → Text
  health_title h =
      codes "Triagearr — "
      ++ h.component
      ++ (if h.healthy then codes " recovered" else codes " unreachable")

  last_error : Text → Text
  last_error e =
      if is_empty e
      then codes "The connection's health check is failing."
      else codes "Last error: " ++ e

  health_text : HealthEvent → Text
  unfolding last_error
  health_text h =
      if h.healthy
      then codes "Triagearr — "
        ++ h.component
        ++ codes " recovered"
        ++ newline
        ++ codes "The "
        ++ h.component
        ++ codes " connection is reachable again."
      else codes "Triagearr — "
        ++ h.component
        ++ codes " unreachable"
        ++ newline
        ++ last_error h.last_error

  -- `FormatHealth`.
  unfoldable pub format_health : HealthEvent → Event F
  unfolding health_kind health_title health_text
  format_health h = record {
    kind = health_kind h;
    severity = severity_of (health_kind h);
    title = health_title h;
    text = health_text h;
    payload = of_health h;
  }

  good_item : ReportItem
  good_item = record {
    name = codes "Example.Movie.2024.2160p";
    hash = codes "abc123";
    size_bytes = 40 * gib;
    status = succeeded;
  }

  bad_item : ReportItem
  bad_item = record {
    name = codes "Example.Show.S01.1080p";
    hash = codes "def456";
    size_bytes = 30 * gib;
    status = failed_qbit;
  }

  sample_items : EventKind → List ReportItem
  unfolding good_item bad_item
  sample_items run_failed = bad_item ∷ []
  sample_items run_partial = good_item ∷ bad_item ∷ []
  sample_items _ = good_item ∷ []

  sample_freed : EventKind → ℕ
  sample_freed run_failed = 0
  sample_freed _ = 70 * gib

  -- `sampleReport`.
  unfoldable pub sample_report : EventKind → Report F
  unfolding sample_items sample_freed
  sample_report k = record {
    volume_name = codes "media";
    mode = live;
    run_id = 0;
    free_pct_before = of_int (pos 8);
    free_bytes_before = 80 * gib;
    free_pct_after = of_int (pos 15);
    free_bytes_after = 150 * gib;
    target_free_pct = of_int (pos 15);
    items = sample_items k;
    total_freed_bytes = sample_freed k;
    real_freed_bytes = 68 * gib;
  }

  -- 4.2 is the quotient of 42 and 10.
  sample_alert : Alert F
  sample_alert = record {
    volume_name = codes "media";
    mode = live;
    free_pct = div (of_int (pos 42)) (of_int (pos 10));
    target_free_pct = of_int (pos 15);
    need_bytes = 120 * gib;
    reclaimable_bytes = 30 * gib;
    candidate_count = 3;
  }

  sample_health : Bool → HealthEvent
  sample_health healthy = record {
    component = codes "sonarr";
    kind = codes "arr";
    healthy = healthy;
    last_error = if healthy then [] else codes "dial tcp: connection refused";
  }

  test_event : Event F
  test_event = record {
    kind = test;
    severity = severity_info;
    title = codes "Triagearr — test notification";
    text =
        codes "Triagearr — test notification"
        ++ newline
        ++ codes "If you can read this, notifications are wired up correctly.";
    payload = no_payload;
  }

  -- `sampleEvent`.
  unfoldable pub sample_event : EventKind → Event F
  unfolding sample_alert sample_health test_event
  sample_event run_executed = format_run (sample_report run_executed)
  sample_event run_partial = format_run (sample_report run_partial)
  sample_event run_failed = format_run (sample_report run_failed)
  sample_event target_unreachable = format_alert sample_alert
  sample_event health_degraded = format_health (sample_health false)
  sample_event health_recovered = format_health (sample_health true)
  sample_event test = test_event
  sample_event (other_kind k) = test_event

  -- The event of a kind that a test may ask for.
  abbrev pub IsSample : EventKind → Event F → Type 0
  IsSample k ev = ((is_known k ≡ true) × (ev.kind ≡ k)) ⊎ ((is_known k ≡ false) × (ev.kind ≡ test))

  -- The event of a test has the kind that was asked for if that is one of the seven, and `test`
  -- otherwise; and its severity is the one that `Catalogue` has for its kind.
  pub sample_event-IsSample :
      (k : EventKind)
      → IsSample k (sample_event k)
        × ((sample_event k).severity ≡ severity_of (sample_event k).kind)
  unfolding sample_event sample_report format_run format_alert format_health run_outcome count
      hard_failed is_known kind_severity
  sample_event-IsSample run_executed = (inl (refl, refl), refl)
  sample_event-IsSample run_partial = (inl (refl, refl), refl)
  sample_event-IsSample run_failed = (inl (refl, refl), refl)
  sample_event-IsSample target_unreachable = (inl (refl, refl), refl)
  sample_event-IsSample health_degraded = (inl (refl, refl), refl)
  sample_event-IsSample health_recovered = (inl (refl, refl), refl)
  sample_event-IsSample test = (inl (refl, refl), refl)
  sample_event-IsSample (other_kind k) = (inr (refl, refl), refl)
