-- ===== src/Notify/Event.antt =====
-- internal/notify/notify.go: severities, event kinds, and a provider's subscription.
use triagearr.Base.{
  ℕ, zero, suc, ◌≤◌, ◌≡◌, ◌∙◌, refl, ap, ◌⊎◌, inl, inr, List, [], ◌∷◌, ◌++◌, map, Bool, true, false,
  Option, none, some, arith, if◌then◌else◌, is_some, any, Bool-cases,
}
use triagearr.Base.Int.{ℤ, pos, negsuc, leb_ℤ}
use triagearr.Base.Text.{Text, text_eq, text_eq-eq, codes, decimal}
use triagearr.DiskWatcher.{Report, Alert}

-- `Severity` is an int.
abbrev pub severity_info : ℤ
severity_info = pos 0

abbrev pub severity_warning : ℤ
severity_warning = pos 1

abbrev pub severity_error : ℤ
severity_error = pos 2

-- `%d`.
unfoldable pub decimal_ℤ : ℤ → Text
decimal_ℤ (pos n) = decimal n
decimal_ℤ (negsuc n) = codes "-" ++ decimal (suc n)

-- `Severity.String`.
unfoldable pub severity_string : ℤ → Text
severity_string (pos zero) = codes "info"
severity_string (pos (suc zero)) = codes "warning"
severity_string (pos (suc (suc zero))) = codes "error"
severity_string s = codes "severity(" ++ decimal_ℤ s ++ codes ")"

-- `ParseSeverity`; nothing is its error.
unfoldable pub parse_severity : Text → Option ℤ
parse_severity s =
    if text_eq s []
    then some severity_info
    else (if text_eq s (codes "info")
        then some severity_info
        else (if text_eq s (codes "warning")
            then some severity_warning
            else (if text_eq s (codes "error") then some severity_error else none)))

-- `EventKind`, a string, which may be another one than the seven.
pub data EventKind : Type 0 where
  run_executed run_partial run_failed target_unreachable : EventKind
  health_degraded health_recovered test : EventKind
  other_kind : Text → EventKind

-- The zero value of the type.
abbrev pub no_kind : EventKind
no_kind = other_kind []

-- `kindSeverity`.
unfoldable pub kind_severity : EventKind → Option ℤ
kind_severity run_executed = some severity_info
kind_severity run_partial = some severity_warning
kind_severity run_failed = some severity_error
kind_severity target_unreachable = some severity_warning
kind_severity health_degraded = some severity_error
kind_severity health_recovered = some severity_info
kind_severity test = some severity_info
kind_severity (other_kind k) = none

-- The zero value where the map has no such key.
abbrev pub or_zero : Option ℤ → ℤ
or_zero none = pos 0
or_zero (some s) = s

-- `EventKind.Severity`.
abbrev pub severity_of : EventKind → ℤ
severity_of k = or_zero (kind_severity k)

-- `EventKind.Known`.
unfoldable pub is_known : EventKind → Bool
is_known k = is_some (kind_severity k)

-- `==` on kinds.
unfoldable pub same_kind : EventKind → EventKind → Bool
same_kind run_executed run_executed = true
same_kind run_partial run_partial = true
same_kind run_failed run_failed = true
same_kind target_unreachable target_unreachable = true
same_kind health_degraded health_degraded = true
same_kind health_recovered health_recovered = true
same_kind test test = true
same_kind (other_kind s) (other_kind t) = text_eq s t
same_kind _ _ = false

-- `Catalogue`, an entry being a kind and its severity.
unfoldable pub catalogue : List (EventKind × ℤ)
catalogue =
    map (λ k. (k, severity_of k))
      (run_executed ∷ run_partial ∷ run_failed ∷ target_unreachable ∷ health_degraded
        ∷ health_recovered ∷ test ∷ [])

pub record HealthEvent : Type 0 where
  pub component : Text
  pub kind : Text
  pub healthy : Bool
  pub last_error : Text

-- The payload of an event; Go has three pointers, of which at most one is set.
pub data Payload (F : Type 0) : Type 0 where
  no_payload : Payload F
  of_run : Report F → Payload F
  of_alert : Alert F → Payload F
  of_health : HealthEvent → Payload F

pub record Event (F : Type 0) : Type 0 where
  pub kind : EventKind
  pub severity : ℤ
  pub title : Text
  pub text : Text
  pub payload : Payload F

-- `mute` are the keys that are true in the map.
pub record Routing : Type 0 where
  pub min_severity : ℤ
  pub mute : List EventKind

-- `Routing.Allows`.
unfoldable pub allows : {F : Type 0} → Routing → Event F → Bool
allows r ev = if any (same_kind ev.kind) r.mute then false else leb_ℤ r.min_severity ev.severity

small-parse : (n : ℕ) → n ≤ 2 → parse_severity (severity_string (pos n)) ≡ some (pos n)
unfolding parse_severity severity_string text_eq
small-parse zero h = refl
small-parse (suc zero) h = refl
small-parse (suc (suc zero)) h = refl
small-parse (suc (suc (suc n))) h = absurd (omega arith)

parse-text : (t : Text) (s : ℤ) → parse_severity t ≡ some s → (t ≡ []) ⊎ (t ≡ severity_string s)
unfolding parse_severity severity_string
parse-text t s h = elim (Bool-cases (text_eq t [])) [
  | inl none_given ↦ inl (text_eq-eq t [] none_given)
  | inr given ↦ elim (Bool-cases (text_eq t (codes "info"))) [
    | inl info ↦
        let e : some severity_info ≡ some s = simp (given, info) at h in
        let k : severity_info ≡ s = cc in
        inr (text_eq-eq t (codes "info") info ∙ ap severity_string k)
    | inr not_info ↦ elim (Bool-cases (text_eq t (codes "warning"))) [
      | inl warning ↦
          let e : some severity_warning ≡ some s = simp (given, not_info, warning) at h in
          let k : severity_warning ≡ s = cc in
          inr (text_eq-eq t (codes "warning") warning ∙ ap severity_string k)
      | inr not_warning ↦ elim (Bool-cases (text_eq t (codes "error"))) [
        | inl is_error ↦
            let e : some severity_error ≡ some s =
              simp (given, not_info, not_warning, is_error) at h in
            let k : severity_error ≡ s = cc in
            inr (text_eq-eq t (codes "error") is_error ∙ ap severity_string k)
        | inr unknown ↦
            let e : none ≡ some s = simp (given, not_info, not_warning, unknown) at h in absurd cc
      ]
    ]
  ]
]

-- Each of the three severities is read back from its text as itself; and a text that is read as a
-- severity is empty or the text of this severity.
pub parse_severity-severity_string :
    (n : ℕ) (t : Text)
    → (n ≤ 2 → parse_severity (severity_string (pos n)) ≡ some (pos n))
      × ((s : ℤ) → parse_severity t ≡ some s → (t ≡ []) ⊎ (t ≡ severity_string s))
parse_severity-severity_string n t = (small-parse n, parse-text t)
