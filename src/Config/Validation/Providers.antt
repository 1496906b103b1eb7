-- ===== src/Config/Validation/Providers.antt =====
-- What `validateNotifications` accepts.
use triagearr.Base.{
  ◌≡◌, ◌≢◌, refl, List, [], ◌∷◌, Bool, true, not, ◌||◌, arith, is_empty, is_some, all, All,
}
use triagearr.Base.Text.{Text, text_eq}
use triagearr.Notify.Event.{is_known, parse_severity}
use triagearr.Config.Defaults.{ProviderRouting, NotificationsConfig}
use triagearr.Config.Validation.{
  ProviderCheck, unless_ok, event_kind, validate_routing, is_email, validate_provider,
  each_provider, missing_field, no_recipient, bad_severity, unknown_kind,
}
use triagearr.Config.Validation.Checks.{
  Decides, unless_ok-Decides, first_problem-last, first_problem-cons, some-given, given-some,
  all-given, given-all, implies-to, implies-from,
}

all-known :
    (l : List Text)
    → all (λ k. is_known (event_kind k)) l ≡ true
    → All (λ k. is_known (event_kind k) ≡ true) l
all-known [] h = tt
all-known (k ∷ l) h = (ground arith, all-known l (ground arith))

known-all :
    (l : List Text)
    → All (λ k. is_known (event_kind k) ≡ true) l
    → all (λ k. is_known (event_kind k)) l ≡ true
known-all [] h = refl
known-all (k ∷ l) h = let more = known-all l h.1 in let one = h.0 in simp (one, more) refl

abbrev pub IsRoutable : ProviderRouting → Type 0
IsRoutable r =
    (is_some (parse_severity r.min_severity) ≡ true)
    × All (λ k. is_known (event_kind k) ≡ true) r.mute

abbrev pub IsDeliverable : List Text → ProviderCheck → Type 0
IsDeliverable to p =
    (p.enabled ≡ true → All (λ f. f.1 ≢ []) p.required)
    × ((p.enabled ≡ true → is_email p.name ≡ true → to ≢ []) × IsRoutable p.routing)

-- A provider with a floor and muted kinds that are known and, if it is enabled, with all `values`.
abbrev pub IsFilled : Bool → List Text → ProviderRouting → Type 0
IsFilled enabled values r = (enabled ≡ true → All (λ v. v ≢ []) values) × IsRoutable r

-- What each provider needs.
abbrev pub AreFilled : NotificationsConfig → Type 0
AreFilled n =
    IsFilled n.telegram.enabled (n.telegram.bot_token ∷ n.telegram.chat_id ∷ []) n.telegram.routing
    × IsFilled n.discord.enabled (n.discord.webhook_url ∷ []) n.discord.routing
    × IsFilled n.ntfy.enabled (n.ntfy.topic ∷ []) n.ntfy.routing
    × IsFilled n.email.enabled (n.email.host ∷ n.email.from ∷ []) n.email.routing
    × (n.email.enabled ≡ true → n.email.to ≢ [])
    × IsFilled n.slack.enabled (n.slack.webhook_url ∷ []) n.slack.routing
    × IsFilled n.webhook.enabled (n.webhook.url ∷ []) n.webhook.routing

pub AreFilled-of :
    (n : NotificationsConfig) → All (IsDeliverable n.email.to) (each_provider n) → AreFilled n
unfolding each_provider text_eq
AreFilled-of n (t, (d, (y, (e, (s, (w, u)))))) = (
  (t.0, t.1.1),
  (d.0, d.1.1),
  (y.0, y.1.1),
  (e.0, e.1.1),
  (λ on. e.1.0 on refl),
  (s.0, s.1.1),
  (w.0, w.1.1),
)

pub AreFilled-to :
    (n : NotificationsConfig) → AreFilled n → All (IsDeliverable n.email.to) (each_provider n)
unfolding each_provider text_eq
AreFilled-to n (t, d, y, e, to, s, w) = (
  (t.0, ((λ on k. absurd cc), t.1)),
  (
    (d.0, ((λ on k. absurd cc), d.1)),
    (
      (y.0, ((λ on k. absurd cc), y.1)),
      (
        (e.0, ((λ on k. to on), e.1)),
        ((s.0, ((λ on k. absurd cc), s.1)), ((w.0, ((λ on k. absurd cc), w.1)), tt)),
      ),
    ),
  ),
)

validate_routing-Decides :
    (name : Text) (r : ProviderRouting) → Decides (validate_routing name r) (IsRoutable r)
unfolding validate_routing
validate_routing-Decides name r =
    first_problem-cons (unless_ok (is_some (parse_severity r.min_severity)) (bad_severity name))
      (unless_ok (all (λ k. is_known (event_kind k)) r.mute) (unknown_kind name) ∷ [])
      (unless_ok-Decides (is_some (parse_severity r.min_severity)) (bad_severity name) (λ h. h)
        (λ h. h))
      (first_problem-last
        (unless_ok (all (λ k. is_known (event_kind k)) r.mute) (unknown_kind name))
        (unless_ok-Decides (all (λ k. is_known (event_kind k)) r.mute) (unknown_kind name)
          (all-known r.mute) (known-all r.mute)))

pub validate_provider-Decides :
    (to : List Text) (p : ProviderCheck) → Decides (validate_provider to p) (IsDeliverable to p)
unfolding validate_provider
validate_provider-Decides to p =
    let name = p.name in
    let fields = all (λ (f : Text × Text). not (is_empty f.1)) p.required in
    let recipients = not (is_email name) || not (is_empty to) in
    first_problem-cons (unless_ok (not p.enabled || fields) (missing_field name))
      (unless_ok (not p.enabled || recipients) (no_recipient name)
        ∷ validate_routing name p.routing
        ∷ [])
      (unless_ok-Decides (not p.enabled || fields) (missing_field name)
        (implies-to p.enabled fields (all-given p.required))
        (implies-from p.enabled fields (given-all p.required)))
      (first_problem-cons (unless_ok (not p.enabled || recipients) (no_recipient name))
        (validate_routing name p.routing ∷ [])
        (unless_ok-Decides (not p.enabled || recipients) (no_recipient name)
          (implies-to p.enabled recipients
            (implies-to (is_email name) (not (is_empty to)) (some-given to)))
          (implies-from p.enabled recipients
            (implies-from (is_email name) (not (is_empty to)) (given-some to))))
        (first_problem-last (validate_routing name p.routing)
          (validate_routing-Decides name p.routing)))
