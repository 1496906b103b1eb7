-- ===== src/Config/Validation/Sound.antt =====
-- `Validate` and `Load` decide whether a configuration can be run.
use triagearr.Base.{
  ◌≡◌, ◌≢◌, refl, ap, ◌⊎◌, inl, inr, [], ◌∷◌, map, Bool, true, false, not, ◌&&◌, ◌||◌, arith,
  is_empty, All, Bool-cases,
}
use triagearr.Base.Int.{ℤ, pos, negsuc, ◌≤ℤ◌}
use triagearr.Base.Text.{Text, text_eq, text_eq-eq, codes}
use triagearr.Float.{Float}
use triagearr.Config.Defaults.{
  Config, ArrInstanceConfig, TorrentClientInstanceConfig, ArrsConfig, DiskPressureConfig,
  apply_defaults, reminder_of, apply_notification_defaults, apply_http_defaults, or_text,
  min_target_unreachable_reminder,
}
use triagearr.Config.Validation.{
  Problem, first_problem, unless_ok, each_arr, each_client, has_backend, validate_provider,
  each_provider, validate_notifications, validate_arr, validate_client, validate_pressure, validate,
  Loaded, loaded, refused_config, loaded_unless, load, bad_url, no_api_key, no_backend, bad_mode,
  no_volume_path, threshold_range, target_range, target_too_low,
}
use triagearr.Config.Validation.Checks.{
  Decides, Decides-iff, unless_ok-Decides, first_problem-last, first_problem-cons,
  first_problem-map, skipped-Decides, some-given, given-some, not-true, true-not,
}
use triagearr.Config.Validation.Providers.{
  IsDeliverable, AreFilled, AreFilled-of, AreFilled-to, validate_provider-Decides,
}

module _ (parses : Text → Bool) where
  -- A URL that is given and parsed.
  abbrev pub IsUrl : Text → Type 0
  IsUrl u = (parses u ≡ true) × (u ≢ [])

  abbrev pub IsReachableArr : Text × ArrInstanceConfig → Type 0
  IsReachableArr (label, i) = i.enabled ≡ true → IsUrl i.url × (i.api_key ≢ [])

  abbrev pub IsReachableClient : Text × TorrentClientInstanceConfig → Type 0
  IsReachableClient (label, i) = i.enabled ≡ true → (has_backend label ≡ true) × IsUrl i.url

  IsUrl-Decides :
      (u : Text) (p : Problem) → Decides (unless_ok (parses u && not (is_empty u)) p) (IsUrl u)
  IsUrl-Decides u p =
      unless_ok-Decides (parses u && not (is_empty u)) p
        (λ h. (ground arith, some-given u (ground arith)))
        (λ h. let given = given-some u h.1 in let one = h.0 in simp (one, given) refl)

  validate_arr-Decides :
      (li : Text × ArrInstanceConfig) → Decides (validate_arr parses li) (IsReachableArr li)
  unfolding validate_arr
  validate_arr-Decides (label, i) =
      let url = unless_ok (parses i.url && not (is_empty i.url)) (bad_url label) in
      let key = unless_ok (not (is_empty i.api_key)) (no_api_key label) in
      skipped-Decides i.enabled (first_problem (url ∷ key ∷ [])) (
        first_problem-cons url (key ∷ []) (IsUrl-Decides i.url (bad_url label)) (
          first_problem-last key (
            unless_ok-Decides (not (is_empty i.api_key)) (no_api_key label) (some-given i.api_key)
              (given-some i.api_key))))

  validate_client-Decides :
      (li : Text × TorrentClientInstanceConfig)
      → Decides (validate_client parses li) (IsReachableClient li)
  unfolding validate_client
  validate_client-Decides (label, i) =
      let backend = unless_ok (has_backend label) (no_backend label) in
      let url = unless_ok (parses i.url && not (is_empty i.url)) (bad_url label) in
      skipped-Decides i.enabled (first_problem (backend ∷ url ∷ [])) (
        first_problem-cons backend (url ∷ [])
          (unless_ok-Decides (has_backend label) (no_backend label) (λ h. h) (λ h. h))
          (first_problem-last url (IsUrl-Decides i.url (bad_url label))))

module _ (fl : Float) where
  open fl use {F, of_int, lt, le}

  abbrev pub IsPercent : F → Type 0
  IsPercent x = (lt x (of_int (pos 0)) || lt (of_int (pos 100)) x) ≡ false

  -- The thresholds of an enabled rule; the target is over a threshold that is not zero.
  abbrev pub IsPressure : DiskPressureConfig F → Type 0
  IsPressure d =
      d.enabled ≡ true
      → IsPercent d.threshold_free_percent
        × (IsPercent d.target_free_percent
            × ((lt (of_int (pos 0)) d.threshold_free_percent
                  && le d.target_free_percent d.threshold_free_percent)
                ≡ false))

  refused-Decides : (b : Bool) (p : Problem) → Decides (unless_ok (not b) p) (b ≡ false)
  refused-Decides b p = unless_ok-Decides (not b) p (not-true b) (true-not b)

  validate_pressure-Decides :
      (d : DiskPressureConfig F) → Decides (validate_pressure fl d) (IsPressure d)
  unfolding validate_pressure
  validate_pressure-Decides d =
      let low =
        lt d.threshold_free_percent (of_int (pos 0))
        || lt (of_int (pos 100)) d.threshold_free_percent in
      let target =
        lt d.target_free_percent (of_int (pos 0)) || lt (of_int (pos 100)) d.target_free_percent in
      let order =
        lt (of_int (pos 0)) d.threshold_free_percent
        && le d.target_free_percent d.threshold_free_percent in
      let last = unless_ok (not order) target_too_low in
      let middle = unless_ok (not target) target_range in
      skipped-Decides d.enabled
        (first_problem (unless_ok (not low) threshold_range ∷ middle ∷ last ∷ []))
        (first_problem-cons (unless_ok (not low) threshold_range) (middle ∷ last ∷ [])
          (refused-Decides low threshold_range)
          (first_problem-cons middle (last ∷ []) (refused-Decides target target_range)
            (first_problem-last last (refused-Decides order target_too_low))))

  -- Every application has what it needs.
  abbrev pub AreReachable : (Text → Bool) → ArrsConfig → Type 0
  AreReachable parses a = All (IsReachableArr parses) (
      (codes "sonarr", a.sonarr)
      ∷ (codes "radarr", a.radarr)
      ∷ (codes "lidarr", a.lidarr)
      ∷ (codes "whisparr_v2", a.whisparr_v2)
      ∷ (codes "whisparr_v3", a.whisparr_v3)
      ∷ [])

  -- A configuration that can be run.
  abbrev pub IsRunnable : (Text → Bool) → Config F → Type 0
  IsRunnable parses c =
      ((c.mode ≡ codes "dry-run") ⊎ (c.mode ≡ codes "live"))
      × (AreReachable parses c.arrs
          × ((c.volume.path ≢ [])
              × (All (IsReachableClient parses) (each_client c.torrent_clients)
                  × (AreFilled c.notifications × IsPressure c.volume.disk_pressure))))

  mode-Decides :
      (m : Text)
      → Decides
          (unless_ok (text_eq m (codes "dry-run") || text_eq m (codes "live")) bad_mode)
          ((m ≡ codes "dry-run") ⊎ (m ≡ codes "live"))
  unfolding text_eq
  mode-Decides m =
      unless_ok-Decides (text_eq m (codes "dry-run") || text_eq m (codes "live")) bad_mode
        (λ h. elim (Bool-cases (text_eq m (codes "dry-run"))) [
          | inl dry ↦ inl (text_eq-eq m (codes "dry-run") dry)
          | inr other ↦ inr (text_eq-eq m (codes "live") (simp other at h))
        ])
        (λ h. elim h [ inl e ↦ simp e refl | inr e ↦ simp e refl ])

  validate-Decides :
      (parses : Text → Bool) (c : Config F) → Decides (validate fl parses c) (IsRunnable parses c)
  unfolding validate validate_notifications each_arr
  validate-Decides parses c =
      let arrs = first_problem (map (validate_arr parses) (each_arr c.arrs)) in
      let path = unless_ok (not (is_empty c.volume.path)) no_volume_path in
      let clients = first_problem (map (validate_client parses) (each_client c.torrent_clients)) in
      let n = c.notifications in
      let providers = first_problem (map (validate_provider n.email.to) (each_provider n)) in
      let pressure = validate_pressure fl c.volume.disk_pressure in
      first_problem-cons
        (unless_ok (text_eq c.mode (codes "dry-run") || text_eq c.mode (codes "live")) bad_mode)
        (arrs ∷ path ∷ clients ∷ providers ∷ pressure ∷ []) (mode-Decides c.mode)
        (first_problem-cons arrs (path ∷ clients ∷ providers ∷ pressure ∷ [])
          (first_problem-map (IsReachableArr parses) (validate_arr parses)
            (validate_arr-Decides parses) (each_arr c.arrs))
          (first_problem-cons path (clients ∷ providers ∷ pressure ∷ [])
            (unless_ok-Decides (not (is_empty c.volume.path)) no_volume_path
              (some-given c.volume.path) (given-some c.volume.path))
            (first_problem-cons clients (providers ∷ pressure ∷ [])
              (first_problem-map (IsReachableClient parses) (validate_client parses)
                (validate_client-Decides parses) (each_client c.torrent_clients))
              (first_problem-cons providers (pressure ∷ [])
                (Decides-iff providers (AreFilled-of n) (AreFilled-to n) (
                  first_problem-map (IsDeliverable n.email.to) (validate_provider n.email.to)
                    (validate_provider-Decides n.email.to) (each_provider n)))
                (first_problem-last pressure (validate_pressure-Decides c.volume.disk_pressure))))))

  reminder_of-le : (i : ℤ) → min_target_unreachable_reminder ≤ℤ reminder_of i
  unfolding reminder_of
  reminder_of-le (negsuc n) = omega arith
  reminder_of-le (pos n) = ground arith

  or_text-given : (s : Text) → or_text (codes "127.0.0.1:9494") s ≢ []
  or_text-given [] = λ e. absurd cc
  or_text-given (c ∷ s) = λ e. absurd cc

  -- What `Load` comes to: the configuration with its defaults, if that can be run, with a reminder of
  -- at least an hour and an address to listen on; or a refusal, if it cannot.
  abbrev pub Loads : (Text → Bool) → Config F → Loaded fl → Type 0
  Loads parses c out =
      ((out ≡ loaded c)
        × IsRunnable parses c
        × (min_target_unreachable_reminder ≤ℤ c.notifications.reminder_interval)
        × (c.http.bind ≢ []))
      ⊎ ((p : Problem) × (out ≡ refused_config p) × ¬ IsRunnable parses c)

  -- `Load` returns the configuration with its defaults if that can be run, and then the reminder
  -- is of at least an hour and the address to listen on is not empty; it refuses it if it
  -- cannot. It can be run if the mode is one of the two, every enabled arr has a parsed URL and
  -- a key, the volume has a path, every enabled client is of a kind with a backend and has a
  -- parsed URL, every enabled provider has its required fields (a token and a chat, a
  -- webhook, a topic, a host, a sender and a recipient, a webhook, a URL), every routing has a known floor
  -- and known muted kinds, and the two percentages of an enabled disk rule are in range, the
  -- target over a positive threshold.
  pub load-Loads :
      (parses : Text → Bool) (raw : Config F)
      → Loads parses (apply_defaults fl raw) (load fl parses raw)
  unfolding load loaded_unless apply_defaults apply_notification_defaults apply_http_defaults
  load-Loads parses raw = elim (validate-Decides parses (apply_defaults fl raw)) [
    | inr (e, h) ↦ inl (
      ap (loaded_unless fl (apply_defaults fl raw)) e,
      h,
      reminder_of-le raw.notifications.reminder_interval,
      or_text-given raw.http.bind,
    )
    | inl (p, e, not_so) ↦ inr (p, ap (loaded_unless fl (apply_defaults fl raw)) e, not_so)
  ]
