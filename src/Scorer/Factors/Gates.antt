-- ===== src/Scorer/Factors/Gates.antt =====
-- What the gates and the two readings of tracker death promise of every evaluation.
use triagearr.Base.{
  ◌≡◌, refl, ◌⊎◌, inl, inr, List, [], ◌∷◌, Bool, true, false, none, arith, map, All, Bool-cases,
}
use triagearr.Base.Int.{ℤ, pos}
use triagearr.Types.{Time, Duration}
use triagearr.Float.{Float, HasUnit, zero_f, one_f}
use triagearr.Scorer.Trackers.{
  TrackerView, any_tracker_alive, all_trackers_dead_sustained, dead_sustained-not_alive,
}
use triagearr.Scorer.Policy.{EffectivePolicy}
use triagearr.Scorer.Factors.{
  Factor, ScoringTorrent, SnapshotStats, ScoringConfig, clamp_unit, factor_ratio_obligation,
  factor_velocity_inv, factor_age, factor_seeders_guard, factor_swarm_bonus, factor_hnr_veto,
  factor_tracker_dead, factor_candidate_boost, eval_factors,
}

abbrev pub contributions : {F : Type 0} → List (Factor F) → List F
contributions = map (λ f. f.contribution)

module _ (fl : Float) where
  open fl use {F, mul, lt, le, of_int}

  -- A gated factor counts for nothing; any other counts for nothing, for its whole weight, or for
  -- its value times its weight.
  abbrev pub IsAccounted : Factor F → Type 0
  IsAccounted f =
      ((f.value ≡ zero_f fl) × (f.contribution ≡ zero_f fl))
      ⊎ ((f.gate ≡ none) × (f.value ≡ one_f fl) × (f.contribution ≡ f.weight))
      ⊎ ((f.gate ≡ none) × (f.contribution ≡ mul f.value f.weight))

  module _ (t : ScoringTorrent) (now : Time) where
    factor_ratio_obligation-IsAccounted :
        (r : F) (p : EffectivePolicy F) (alive : Bool) (w : F)
        → IsAccounted (factor_ratio_obligation fl t r p alive now w)
    unfolding factor_ratio_obligation
    factor_ratio_obligation-IsAccounted r p alive w = ground arith

    factor_hnr_veto-IsAccounted :
        (alive : Bool) (w : ℤ) → IsAccounted (factor_hnr_veto fl t alive w now)
    unfolding factor_hnr_veto
    factor_hnr_veto-IsAccounted alive w = ground arith

  factor_velocity_inv-IsAccounted : (v g w : F) → IsAccounted (factor_velocity_inv fl v g w)
  unfolding factor_velocity_inv
  factor_velocity_inv-IsAccounted v g w = elim (Bool-cases (le g (zero_f fl))) [
    | inl cold ↦ simp cold (inl (refl, refl))
    | inr warm ↦ simp warm (inr (inr (refl, refl)))
  ]

  factor_seeders_guard-IsAccounted :
      (s : F) (n : ℤ) (alive : Bool) (w : F) → IsAccounted (factor_seeders_guard fl s n alive w)
  unfolding factor_seeders_guard
  factor_seeders_guard-IsAccounted s n alive w = ground arith

  factor_tracker_dead-IsAccounted :
      (ts : List TrackerView) (now : Time) (g : Duration) (w : F)
      → IsAccounted (factor_tracker_dead fl ts now g w)
  unfolding factor_tracker_dead
  factor_tracker_dead-IsAccounted ts now g w = ground arith

  factor_candidate_boost-IsAccounted :
      (t : ScoringTorrent) (w : F) → IsAccounted (factor_candidate_boost fl t w)
  unfolding factor_candidate_boost
  factor_candidate_boost-IsAccounted t w = ground arith

  module _ (t : ScoringTorrent) (snaps : SnapshotStats F) (global_avg : F)
      (trackers : List TrackerView) (cfg : ScoringConfig F) (policy : EffectivePolicy F)
      (now : Time) where
    -- Every factor of an evaluation, whatever its inputs, either counts for nothing with the value 0,
    -- or has no gate and counts for its whole weight with the value 1, or for its value times its
    -- weight.
    pub eval_factors-IsAccounted :
        (alive : Bool)
        → All IsAccounted (eval_factors fl t snaps global_avg trackers cfg policy alive now)
    unfolding eval_factors factor_age factor_swarm_bonus
    eval_factors-IsAccounted alive = (
      factor_ratio_obligation-IsAccounted t now _ policy alive _,
      (
        factor_velocity_inv-IsAccounted _ _ _,
        (
          inr (inr (refl, refl)),
          (
            factor_seeders_guard-IsAccounted _ _ alive _,
            (
              inr (inr (refl, refl)),
              (
                factor_hnr_veto-IsAccounted t now alive _,
                (
                  factor_tracker_dead-IsAccounted trackers now _ _,
                  (factor_candidate_boost-IsAccounted t _, tt),
                ),
              ),
            ),
          ),
        ),
      ),
    )

    -- Where every tracker has been dead for the grace period, the graveyard bonus is paid in full,
    -- and the ratio obligation, the rare-content guard and the hit-and-run veto count for nothing.
    pub eval_factors-graveyard :
        all_trackers_dead_sustained trackers now cfg.tracker_dead_grace ≡ true
        → contributions (
            eval_factors fl t snaps global_avg trackers cfg policy (any_tracker_alive trackers) now)
          ≡ zero_f fl
            ∷ (factor_velocity_inv fl snaps.velocity_bytes_per_day global_avg
                cfg.weights.upload_velocity_inv).contribution
            ∷ (factor_age fl t now cfg.weights.age_days).contribution
            ∷ zero_f fl
            ∷ (factor_swarm_bonus fl snaps.seeders_avg_7d
                cfg.weights.swarm_health_bonus).contribution
            ∷ zero_f fl
            ∷ cfg.weights.tracker_dead_bonus
            ∷ (factor_candidate_boost fl t (of_int (pos 2000))).contribution
            ∷ []
    unfolding eval_factors factor_ratio_obligation factor_seeders_guard factor_hnr_veto
        factor_tracker_dead
    eval_factors-graveyard dead =
        let e = dead_sustained-not_alive trackers now cfg.tracker_dead_grace dead in ground arith

  clamp_unit_bounds :
      HasUnit fl
      → (v : F)
      → (lt (clamp_unit fl v) (zero_f fl) ≡ false) × (lt (one_f fl) (clamp_unit fl v) ≡ false)
  unfolding clamp_unit
  clamp_unit_bounds u v = ground arith

  -- Where 0 and 1 compare as they should, the value of the velocity factor is neither below 0 nor
  -- above 1.
  pub factor_velocity_inv-bounds :
      HasUnit fl
      → (v g w : F)
      → (lt (factor_velocity_inv fl v g w).value (zero_f fl) ≡ false)
        × (lt (one_f fl) (factor_velocity_inv fl v g w).value ≡ false)
  unfolding factor_velocity_inv
  factor_velocity_inv-bounds u v g w = elim (Bool-cases (le g (zero_f fl))) [
    | inl cold ↦ simp cold (u.zero_lt_zero, u.one_lt_zero)
    | inr warm ↦ simp warm (clamp_unit_bounds u (fl.sub (one_f fl) (fl.div v g)))
  ]
