-- ===== src/Tests/Scoring.antt =====
-- The scorer.
use triagearr.Base.{ℕ, ◌*◌, ◌≡◌, refl, ◌⊎◌, List, [], ◌∷◌, map, true, false, none, some, All, Any}
use triagearr.Base.Int.{ℤ, pos, negsuc}
use triagearr.Base.Text.{Text, codes, text_eq}
use triagearr.Types.{TrackerPolicy, ScoringDefaults}
use triagearr.Float.{sub_time, hours}
use triagearr.Scorer.Trackers.{TrackerView, any_tracker_alive, all_trackers_dead_sustained}
use triagearr.Scorer.Policy.{EffectivePolicy, tracker_policy_for, per_tracker, policy_of}
use triagearr.Scorer.Policy.Strictest.{AtLeast, tracker_policy_for-strictest}
use triagearr.Scorer.Factors.{
  ScoringTorrent, SnapshotStats, ScoringConfig, eval_factors, factor_velocity_inv,
  factor_tracker_dead, factor_age, factor_swarm_bonus, factor_candidate_boost, factor_hnr_veto,
  factor_seeders_guard, factor_ratio_obligation, in_window, seed_days, seed_start,
}
use triagearr.Scorer.Factors.Gates.{
  IsAccounted, eval_factors-IsAccounted, eval_factors-graveyard, contributions,
}
use triagearr.Tests.Values.{whole, whole-IsOrdered, hash_a}

abbrev day : ℕ
day = 86_400_000_000_000

abbrev pub grab : ScoringTorrent
grab = record {
  hash = hash_a;
  name = 65 ∷ [];
  category = [];
  tags = [];
  size = 700;
  added_on = 100 * day;
  completion_on = none;
  is_private = true;
  protected = false;
  candidate_boost = true;
}

abbrev pub stats : SnapshotStats ℤ
stats = record { seeders_avg_7d = pos 2; velocity_bytes_per_day = pos 5; latest_ratio = pos 1 }

abbrev pub config : ScoringConfig ℤ
config = record {
  hnr_window_days = pos 14;
  tracker_dead_grace = 7 * day;
  weights = record {
    ratio_obligation_met = pos 50;
    upload_velocity_inv = pos 30;
    age_days = pos 1;
    seeders_low_guard = negsuc 999;
    swarm_health_bonus = pos 5;
    tracker_dead_bonus = pos 40;
  };
}

abbrev policy : EffectivePolicy ℤ
policy = record { min_ratio = pos 1; min_seed_days = pos 30; rare_threshold = pos 3 }

abbrev dead_tracker : TrackerView
dead_tracker = record {
  host = codes "a";
  status = 4;
  last_checked = 110 * day;
  first_seen_dead = some (100 * day);
}

abbrev live_tracker : TrackerView
live_tracker = record { host = codes "b"; status = 2; last_checked = 0; first_seen_dead = none }

abbrev pub defaults : ScoringDefaults ℤ
defaults = record { min_ratio = pos 1; min_seed_days = pos 30; rare_threshold = pos 3 }

abbrev strict_b : TrackerPolicy ℤ
strict_b = record {
  tracker_host = codes "b";
  min_ratio = pos 2;
  min_seed_days = pos 10;
  rare_threshold = some (pos 1);
  enabled = true;
}

-- In its window on a live tracker: the veto outweighs the boost.
veto_and_boost :
    contributions
      (eval_factors whole grab stats (pos 1) (live_tracker ∷ []) config policy true (110 * day))
    ≡ pos 0 ∷ pos 0 ∷ pos 10 ∷ negsuc 999 ∷ pos 0 ∷ negsuc 9999 ∷ pos 0 ∷ pos 2000 ∷ []
unfolding eval_factors factor_ratio_obligation factor_velocity_inv factor_age factor_seeders_guard
    factor_swarm_bonus factor_hnr_veto factor_tracker_dead factor_candidate_boost
    all_trackers_dead_sustained in_window seed_days seed_start sub_time hours
veto_and_boost = refl

eval_factors-graveyard_example :
    contributions (
      eval_factors whole grab stats
        (pos 1)
        (dead_tracker ∷ [])
        config
        policy
        (any_tracker_alive (dead_tracker ∷ []))
        (110 * day))
    ≡ pos 0
      ∷ (factor_velocity_inv whole (pos 5) (pos 1) (pos 30)).contribution
      ∷ (factor_age whole grab (110 * day) (pos 1)).contribution
      ∷ pos 0
      ∷ (factor_swarm_bonus whole (pos 2) (pos 5)).contribution
      ∷ pos 0
      ∷ pos 40
      ∷ (factor_candidate_boost whole grab (pos 2000)).contribution
      ∷ []
unfolding all_trackers_dead_sustained
eval_factors-graveyard_example =
    eval_factors-graveyard whole grab stats (pos 1) (dead_tracker ∷ []) config policy (110 * day)
      refl

eval_factors-IsAccounted_example :
    All
      (IsAccounted whole)
      (eval_factors whole grab stats (pos 1) (live_tracker ∷ []) config policy true (110 * day))
eval_factors-IsAccounted_example =
    eval_factors-IsAccounted whole grab stats (pos 1) (live_tracker ∷ []) config policy (110 * day)
      true

abbrev overrides : List (Text × TrackerPolicy ℤ)
overrides = (codes "b", strict_b) ∷ []

strictest_run :
    tracker_policy_for whole (dead_tracker ∷ live_tracker ∷ []) defaults overrides
    ≡ record { min_ratio = pos 2; min_seed_days = pos 30; rare_threshold = pos 1 }
unfolding tracker_policy_for per_tracker policy_of text_eq
strictest_run = refl

tracker_policy_for-strictest_example :
    let out = tracker_policy_for whole (dead_tracker ∷ live_tracker ∷ []) defaults overrides in
    let ps = map (per_tracker whole defaults overrides) (dead_tracker ∷ live_tracker ∷ []) in
    All
      (λ u. AtLeast whole out (per_tracker whole defaults overrides u))
      (dead_tracker ∷ live_tracker ∷ [])
    × Any (λ p. out.rare_threshold ≡ p.rare_threshold) ps
    × ((out.min_seed_days ≡ pos 0) ⊎ Any (λ p. out.min_seed_days ≡ p.min_seed_days) ps)
    × ((out.min_ratio ≡ pos 0) ⊎ Any (λ p. out.min_ratio ≡ p.min_ratio) ps)
tracker_policy_for-strictest_example =
    tracker_policy_for-strictest whole whole-IsOrdered defaults overrides dead_tracker
      (live_tracker ∷ [])
