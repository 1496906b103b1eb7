-- ===== src/Scorer/Policy.antt =====
-- internal/scorer/factors.go, `trackerPolicyFor`: the policy of a torrent with several trackers.
pub mod Strictest
use triagearr.Base.{
  ℕ, ◌≡◌, refl, List, [], ◌∷◌, Bool, true, false, Option, none, some, arith, ◌||◌, if◌then◌else◌,
}
use triagearr.Base.Int.{ℤ, pos, ltb_ℤ}
use triagearr.Base.Text.{Text, text_eq}
use triagearr.Types.{TrackerPolicy, ScoringDefaults}
use triagearr.Float.{Float, zero_f}
use triagearr.Scorer.Trackers.{TrackerView}

pub record EffectivePolicy (F : Type 0) : Type 0 where
  pub min_ratio : F
  pub min_seed_days : ℤ
  pub rare_threshold : ℤ

-- A Go map keyed by host.
unfoldable pub policy_of :
    {F : Type 0} → Text → List (Text × TrackerPolicy F) → Option (TrackerPolicy F)
policy_of host [] = none
policy_of host ((h, p) ∷ rest) = if text_eq h host then some p else policy_of host rest

module _ (fl : Float) where
  open fl use {F, lt}

  -- The policy when nothing overrides it.
  unfoldable pub from_defaults : ScoringDefaults F → EffectivePolicy F
  from_defaults d = record {
    min_ratio = d.min_ratio;
    min_seed_days = d.min_seed_days;
    rare_threshold = d.rare_threshold;
  }

  inherited : Option ℤ → ℤ → ℤ
  inherited none d = d
  inherited (some r) d = r

  overridden : ScoringDefaults F → Option (TrackerPolicy F) → EffectivePolicy F
  unfolding from_defaults inherited
  overridden d none = from_defaults d
  overridden d (some p) =
      if p.enabled
      then record {
        min_ratio = p.min_ratio;
        min_seed_days = p.min_seed_days;
        rare_threshold = inherited p.rare_threshold d.rare_threshold;
      }
      else from_defaults d

  -- `perTracker` of the loop's body.
  unfoldable pub per_tracker :
      ScoringDefaults F → List (Text × TrackerPolicy F) → TrackerView → EffectivePolicy F
  unfolding overridden
  per_tracker d overrides t = overridden d (policy_of t.host overrides)

  -- The three merges at the end of the loop's body; `first` is `i == 0`.
  merge : Bool → EffectivePolicy F → EffectivePolicy F → EffectivePolicy F
  merge first p out = record {
    min_ratio = if lt out.min_ratio p.min_ratio then p.min_ratio else out.min_ratio;
    min_seed_days =
        if ltb_ℤ out.min_seed_days p.min_seed_days then p.min_seed_days else out.min_seed_days;
    rare_threshold =
        if first || ltb_ℤ p.rare_threshold out.rare_threshold
        then p.rare_threshold
        else out.rare_threshold;
  }

  merge_rest :
      ScoringDefaults F
      → List (Text × TrackerPolicy F)
      → List TrackerView
      → EffectivePolicy F
      → EffectivePolicy F
  merge_rest d o [] out = out
  merge_rest d o (t ∷ ts) out = merge_rest d o ts (merge false (per_tracker d o t) out)

  -- What the loop begins with.
  abbrev pub unset : ScoringDefaults F → EffectivePolicy F
  unset d = record {
    min_ratio = zero_f fl;
    min_seed_days = pos 0;
    rare_threshold = d.rare_threshold;
  }

  unfoldable pub tracker_policy_for :
      List TrackerView → ScoringDefaults F → List (Text × TrackerPolicy F) → EffectivePolicy F
  unfolding merge merge_rest
  tracker_policy_for [] d o = from_defaults d
  tracker_policy_for (t ∷ ts) d o = merge_rest d o ts (merge true (per_tracker d o t) (unset d))
