-- ===== src/Config/Validation.antt =====
-- internal/config/load.go: `Validate`, in the order of its checks. Whether `url.Parse` takes a text is
-- a parameter. Which of several missing fields of a provider an error names, the order of a Go map,
-- is left out.
pub mod Checks
pub mod Providers
pub mod Sound
use triagearr.Base.{
  ℕ, List, [], ◌∷◌, ◌++◌, map, Bool, true, false, not, ◌&&◌, ◌||◌, Option, none, some,
  if◌then◌else◌, is_empty, is_some, any, all,
}
use triagearr.Base.Int.{pos}
use triagearr.Base.Text.{Text, text_eq, codes}
use triagearr.Float.{Float}
use triagearr.Notify.Event.{
  EventKind, run_executed, run_partial, run_failed, target_unreachable, health_degraded,
  health_recovered, test, other_kind, is_known, parse_severity,
}
use triagearr.Config.Defaults.{
  Config, ArrInstanceConfig, ArrsConfig, TorrentClientInstanceConfig, TorrentClientsConfig,
  ProviderRouting, NotificationsConfig, DiskPressureConfig, apply_defaults,
}

-- Why a configuration is refused; the texts are labels.
pub data Problem : Type 0 where
  bad_mode no_volume_path threshold_range target_range target_too_low : Problem
  bad_url no_api_key no_backend missing_field no_recipient bad_severity unknown_kind :
      Text → Problem

unfoldable pub first_problem : List (Option Problem) → Option Problem
first_problem [] = none
first_problem (some p ∷ rest) = some p
first_problem (none ∷ rest) = first_problem rest

-- A check: the problem, unless the test passes.
abbrev pub unless_ok : Bool → Problem → Option Problem
unless_ok true p = none
unless_ok false p = some p

-- `EachPtr`.
unfoldable pub each_arr : ArrsConfig → List (Text × ArrInstanceConfig)
each_arr a =
    (codes "sonarr", a.sonarr)
    ∷ (codes "radarr", a.radarr)
    ∷ (codes "lidarr", a.lidarr)
    ∷ (codes "whisparr_v2", a.whisparr_v2)
    ∷ (codes "whisparr_v3", a.whisparr_v3)
    ∷ []

unfoldable pub each_client : TorrentClientsConfig → List (Text × TorrentClientInstanceConfig)
each_client c =
    (codes "qbittorrent", c.qbittorrent)
    ∷ (codes "transmission", c.transmission)
    ∷ (codes "deluge", c.deluge)
    ∷ (codes "rtorrent", c.rtorrent)
    ∷ []

unfoldable pub has_backend : Text → Bool
has_backend kind = text_eq kind (codes "qbittorrent")

-- `notify.EventKind(k)`.
unfoldable pub event_kind : Text → EventKind
event_kind k =
    if text_eq k (codes "run.executed")
    then run_executed
    else (if text_eq k (codes "run.partial")
        then run_partial
        else (if text_eq k (codes "run.failed")
            then run_failed
            else (if text_eq k (codes "disk.target_unreachable")
                then target_unreachable
                else (if text_eq k (codes "health.degraded")
                    then health_degraded
                    else (if text_eq k (codes "health.recovered")
                        then health_recovered
                        else (if text_eq k (codes "test") then test else other_kind k))))))

-- `validateRouting`.
unfoldable pub validate_routing : Text → ProviderRouting → Option Problem
validate_routing provider r = first_problem (
    unless_ok (is_some (parse_severity r.min_severity)) (bad_severity provider)
    ∷ unless_ok (all (λ k. is_known (event_kind k)) r.mute) (unknown_kind provider)
    ∷ [])

abbrev pub is_email : Text → Bool
is_email name = text_eq name (codes "email")

-- `providerCheck`: `required` has the labels of the required fields and their values.
pub record ProviderCheck : Type 0 where
  pub name : Text
  pub enabled : Bool
  pub routing : ProviderRouting
  pub required : List (Text × Text)

-- One round of the loop of `validateNotifications`; `to` is that of email.
unfoldable pub validate_provider : List Text → ProviderCheck → Option Problem
validate_provider to p = first_problem (
    unless_ok (not p.enabled || all (λ f. not (is_empty f.1)) p.required) (missing_field p.name)
    ∷ unless_ok (not p.enabled || (not (is_email p.name) || not (is_empty to)))
        (no_recipient p.name)
    ∷ validate_routing p.name p.routing
    ∷ [])

-- `checks`.
unfoldable pub each_provider : NotificationsConfig → List ProviderCheck
each_provider n =
    record {
      name = codes "telegram";
      enabled = n.telegram.enabled;
      routing = n.telegram.routing;
      required =
          (codes "bot_token", n.telegram.bot_token) ∷ (codes "chat_id", n.telegram.chat_id) ∷ [];
    }
    ∷ record {
      name = codes "discord";
      enabled = n.discord.enabled;
      routing = n.discord.routing;
      required = (codes "webhook_url", n.discord.webhook_url) ∷ [];
    }
    ∷ record {
      name = codes "ntfy";
      enabled = n.ntfy.enabled;
      routing = n.ntfy.routing;
      required = (codes "topic", n.ntfy.topic) ∷ [];
    }
    ∷ record {
      name = codes "email";
      enabled = n.email.enabled;
      routing = n.email.routing;
      required = (codes "host", n.email.host) ∷ (codes "from", n.email.from) ∷ [];
    }
    ∷ record {
      name = codes "slack";
      enabled = n.slack.enabled;
      routing = n.slack.routing;
      required = (codes "webhook_url", n.slack.webhook_url) ∷ [];
    }
    ∷ record {
      name = codes "webhook";
      enabled = n.webhook.enabled;
      routing = n.webhook.routing;
      required = (codes "url", n.webhook.url) ∷ [];
    }
    ∷ []

unfoldable pub validate_notifications : NotificationsConfig → Option Problem
validate_notifications n = first_problem (map (validate_provider n.email.to) (each_provider n))

module _ (parses : Text → Bool) where
  unfoldable pub validate_arr : Text × ArrInstanceConfig → Option Problem
  validate_arr (label, i) =
      if not i.enabled
      then none
      else first_problem (
          unless_ok (parses i.url && not (is_empty i.url)) (bad_url label)
          ∷ unless_ok (not (is_empty i.api_key)) (no_api_key label)
          ∷ [])

  unfoldable pub validate_client : Text × TorrentClientInstanceConfig → Option Problem
  validate_client (label, i) =
      if not i.enabled
      then none
      else first_problem (
          unless_ok (has_backend label) (no_backend label)
          ∷ unless_ok (parses i.url && not (is_empty i.url)) (bad_url label)
          ∷ [])

module _ (fl : Float) where
  open fl use {F, of_int, lt, le}

  -- In [0, 100].
  abbrev pub is_percent : F → Bool
  is_percent x = not (lt x (of_int (pos 0)) || lt (of_int (pos 100)) x)

  unfoldable pub validate_pressure : DiskPressureConfig F → Option Problem
  validate_pressure d =
      if not d.enabled
      then none
      else first_problem (
          unless_ok (is_percent d.threshold_free_percent) threshold_range
          ∷ unless_ok (is_percent d.target_free_percent) target_range
          ∷ unless_ok
              (not (
                lt (of_int (pos 0)) d.threshold_free_percent
                && le d.target_free_percent d.threshold_free_percent))
              target_too_low
          ∷ [])

  unfoldable pub validate : (Text → Bool) → Config F → Option Problem
  validate parses c = first_problem (
      unless_ok (text_eq c.mode (codes "dry-run") || text_eq c.mode (codes "live")) bad_mode
      ∷ first_problem (map (validate_arr parses) (each_arr c.arrs))
      ∷ unless_ok (not (is_empty c.volume.path)) no_volume_path
      ∷ first_problem (map (validate_client parses) (each_client c.torrent_clients))
      ∷ validate_notifications c.notifications
      ∷ validate_pressure c.volume.disk_pressure
      ∷ [])

  -- `Load` from the unmarshalled configuration on.
  pub data Loaded : Type 0 where
    loaded : Config F → Loaded
    refused_config : Problem → Loaded

  loaded_unless : Config F → Option Problem → Loaded
  loaded_unless c none = loaded c
  loaded_unless c (some p) = refused_config p

  unfoldable pub load : (Text → Bool) → Config F → Loaded
  unfolding loaded_unless
  load parses raw = loaded_unless (apply_defaults fl raw) (validate parses (apply_defaults fl raw))
