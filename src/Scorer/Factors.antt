-- ===== src/Scorer/Factors.antt =====
-- internal/scorer/types.go and factors.go: the eight factors of a delete score.
pub mod Gates
use triagearr.Base.{
  ℕ, List, [], ◌∷◌, Bool, true, false, not, ◌&&◌, Option, none, some, ◌==◌, if◌then◌else◌,
}
use triagearr.Base.Int.{ℤ, pos, negsuc}
use triagearr.Base.Text.{Text}
use triagearr.Types.{Hash, Time, Duration}
use triagearr.Float.{Float, zero_f, one_f, sub_time, days}
use triagearr.Scorer.Trackers.{TrackerView, all_trackers_dead_sustained}
use triagearr.Scorer.Policy.{EffectivePolicy}

pub data FactorName : Type 0 where
  ratio_obligation velocity_inv age seeders_guard : FactorName
  swarm_bonus hnr_veto tracker_dead candidate_boost : FactorName

-- The gate labels: `GatePublic`, `GateAllDead` and `GateNoSwarmSignal`.
pub data Gate : Type 0 where
  gate_public gate_all_dead gate_no_swarm_signal : Gate

pub record Factor (F : Type 0) : Type 0 where
  pub name : FactorName
  pub value : F
  pub weight : F
  pub contribution : F
  pub gate : Option Gate

-- `store.ScoringTorrent`.
pub record ScoringTorrent : Type 0 where
  pub hash : Hash
  pub name : Text
  pub category : Text
  pub tags : Text
  pub size : ℕ
  pub added_on : Time
  pub completion_on : Option Time
  pub is_private : Bool
  pub protected : Bool
  pub candidate_boost : Bool

-- `store.SnapshotStats`.
pub record SnapshotStats (F : Type 0) : Type 0 where
  pub seeders_avg_7d : F
  pub velocity_bytes_per_day : F
  pub latest_ratio : F

pub record ScoringWeights (F : Type 0) : Type 0 where
  pub ratio_obligation_met : F
  pub upload_velocity_inv : F
  pub age_days : F
  pub seeders_low_guard : F
  pub swarm_health_bonus : F
  pub tracker_dead_bonus : F

pub record ScoringConfig (F : Type 0) : Type 0 where
  pub hnr_window_days : ℤ
  pub tracker_dead_grace : Duration
  pub weights : ScoringWeights F

-- Go's zero time is instant 0.
completed_or : Option Time → Time → Time
completed_or none added = added
completed_or (some c) added = if c == 0 then added else c

unfoldable pub seed_start : ScoringTorrent → Time
unfolding completed_or
seed_start t = completed_or t.completion_on t.added_on

module _ (fl : Float) where
  open fl use {F, of_int, add, sub, mul, div, log10, lt, le}

  -- `HnRVetoWeight` and `CandidateBoostWeight`.
  abbrev pub hnr_veto_weight : F
  hnr_veto_weight = of_int (negsuc 9999)

  abbrev pub candidate_boost_weight : F
  candidate_boost_weight = of_int (pos 2000)

  -- `f := Factor{Name: name, Weight: w}`, and the three ways in which the factors go on from there.
  plain : FactorName → F → Factor F
  plain n w = record {
    name = n;
    value = zero_f fl;
    weight = w;
    contribution = zero_f fl;
    gate = none;
  }

  gated : FactorName → F → Gate → Factor F
  unfolding plain
  gated n w g = record (plain n w) { gate = some g }

  full : FactorName → F → Factor F
  unfolding plain
  full n w = record (plain n w) { value = one_f fl; contribution = w }

  valued : FactorName → F → F → Factor F
  unfolding plain
  valued n v w = record (plain n w) { value = v; contribution = mul v w }

  -- `now.Sub(seedStart(t)).Hours() / 24.0`.
  unfoldable pub seed_days : ScoringTorrent → Time → F
  seed_days t now = days fl (sub_time now (seed_start t))

  unfoldable pub factor_ratio_obligation :
      ScoringTorrent → F → EffectivePolicy F → Bool → Time → F → Factor F
  unfolding plain gated full
  factor_ratio_obligation t ratio policy any_alive now w =
      if not t.is_private
      then gated ratio_obligation w gate_public
      else (if not any_alive
          then gated ratio_obligation w gate_all_dead
          else (if le policy.min_ratio ratio && le (of_int policy.min_seed_days) (seed_days t now)
              then full ratio_obligation w
              else plain ratio_obligation w))

  -- The two bounds on `v`, in the code's order.
  clamp_unit : F → F
  clamp_unit v =
      let v1 : F = if lt v (zero_f fl) then zero_f fl else v in
      if lt (one_f fl) v1 then one_f fl else v1

  unfoldable pub factor_velocity_inv : F → F → F → Factor F
  unfolding plain gated valued clamp_unit
  factor_velocity_inv velocity global_avg w =
      if le global_avg (zero_f fl)
      then gated velocity_inv w gate_no_swarm_signal
      else valued velocity_inv (clamp_unit (sub (one_f fl) (div velocity global_avg))) w

  not_negative : F → F
  not_negative x = if lt x (zero_f fl) then zero_f fl else x

  unfoldable pub factor_age : ScoringTorrent → Time → F → Factor F
  unfolding plain valued not_negative
  factor_age t now w = valued age (not_negative (days fl (sub_time now t.added_on))) w

  unfoldable pub factor_seeders_guard : F → ℤ → Bool → F → Factor F
  unfolding plain gated full
  factor_seeders_guard seeders_avg threshold alive w =
      if not alive
      then gated seeders_guard w gate_all_dead
      else (if le seeders_avg (of_int threshold)
          then full seeders_guard w
          else plain seeders_guard w)

  unfoldable pub factor_swarm_bonus : F → F → Factor F
  unfolding plain valued not_negative
  factor_swarm_bonus seeders_avg w =
      valued swarm_bonus (log10 (add (not_negative seeders_avg) (one_f fl))) w

  -- `now.Sub(seedStart(t)).Hours()/24.0 < float64(windowDays)`.
  unfoldable pub in_window : ScoringTorrent → ℤ → Time → Bool
  in_window t window_days now = lt (seed_days t now) (of_int window_days)

  unfoldable pub factor_hnr_veto : ScoringTorrent → Bool → ℤ → Time → Factor F
  unfolding plain gated full
  factor_hnr_veto t alive window_days now =
      if not t.is_private
      then gated hnr_veto hnr_veto_weight gate_public
      else (if not (in_window t window_days now)
          then plain hnr_veto hnr_veto_weight
          else (if not alive
              then gated hnr_veto hnr_veto_weight gate_all_dead
              else full hnr_veto hnr_veto_weight))

  unfoldable pub factor_tracker_dead : List TrackerView → Time → Duration → F → Factor F
  unfolding plain full
  factor_tracker_dead trackers now grace w =
      if all_trackers_dead_sustained trackers now grace
      then full tracker_dead w
      else plain tracker_dead w

  unfoldable pub factor_candidate_boost : ScoringTorrent → F → Factor F
  unfolding plain full
  factor_candidate_boost t w =
      if t.candidate_boost then full candidate_boost w else plain candidate_boost w

  unfoldable pub eval_factors :
      ScoringTorrent
      → SnapshotStats F
      → F
      → List TrackerView
      → ScoringConfig F
      → EffectivePolicy F
      → Bool
      → Time
      → List (Factor F)
  eval_factors t snaps global_avg trackers cfg policy alive now =
      let w : ScoringWeights F = cfg.weights in
      factor_ratio_obligation t snaps.latest_ratio policy alive now w.ratio_obligation_met
      ∷ factor_velocity_inv snaps.velocity_bytes_per_day global_avg w.upload_velocity_inv
      ∷ factor_age t now w.age_days
      ∷ factor_seeders_guard snaps.seeders_avg_7d policy.rare_threshold alive w.seeders_low_guard
      ∷ factor_swarm_bonus snaps.seeders_avg_7d w.swarm_health_bonus
      ∷ factor_hnr_veto t alive cfg.hnr_window_days now
      ∷ factor_tracker_dead trackers now cfg.tracker_dead_grace w.tracker_dead_bonus
      ∷ factor_candidate_boost t candidate_boost_weight
      ∷ []
