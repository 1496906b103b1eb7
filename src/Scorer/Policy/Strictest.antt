-- ===== src/Scorer/Policy/Strictest.antt =====
-- `trackerPolicyFor` returns the strictest of the trackers' policies.
use triagearr.Base.{
  ◌≡◌, refl, ◌⊎◌, inl, inr, map, List, [], ◌∷◌, Bool, true, false, arith, if◌then◌else◌, All, Any,
}
use triagearr.Base.Int.{pos, ltb_ℤ, ◌≤ℤ◌}
use triagearr.Base.Text.{Text}
use triagearr.Types.{TrackerPolicy, ScoringDefaults}
use triagearr.Float.{Float, IsOrdered, zero_f}
use triagearr.Scorer.Trackers.{TrackerView}
use triagearr.Scorer.Policy.{
  EffectivePolicy, per_tracker, merge, merge_rest, tracker_policy_for, unset,
}

module _ (fl : Float) where
  open fl use {F, lt}

  -- `out` asks for at least what `p` asks for.
  abbrev pub AtLeast : EffectivePolicy F → EffectivePolicy F → Type 0
  AtLeast out p =
      (p.min_seed_days ≤ℤ out.min_seed_days)
      × (out.rare_threshold ≤ℤ p.rare_threshold)
      × (lt out.min_ratio p.min_ratio ≡ false)

  module _ (ord : IsOrdered fl) where
    merge-AtLeast_new : (b : Bool) (p out : EffectivePolicy F) → AtLeast (merge fl b p out) p
    unfolding merge
    merge-AtLeast_new true p out =
        ground (arith, ord.lt_irrefl p.min_ratio, ord.lt_asym out.min_ratio p.min_ratio)
    merge-AtLeast_new false p out =
        ground (arith, ord.lt_irrefl p.min_ratio, ord.lt_asym out.min_ratio p.min_ratio)

    merge-AtLeast_old :
        (p q out : EffectivePolicy F) → AtLeast out q → AtLeast (merge fl false p out) q
    unfolding merge
    merge-AtLeast_old p q out h = ground (
      arith,
      ord.lt_asym out.min_ratio p.min_ratio,
      ord.not_lt_trans p.min_ratio out.min_ratio q.min_ratio,
    )

    module _ (d : ScoringDefaults F) (o : List (Text × TrackerPolicy F)) where
      merge_rest-AtLeast_old :
          (ts : List TrackerView) (q out : EffectivePolicy F)
          → AtLeast out q
          → AtLeast (merge_rest fl d o ts out) q
      unfolding merge_rest
      merge_rest-AtLeast_old [] q out h = h
      merge_rest-AtLeast_old (t ∷ ts) q out h =
          merge_rest-AtLeast_old ts q (merge fl false (per_tracker fl d o t) out)
            (merge-AtLeast_old (per_tracker fl d o t) q out h)

      merge_rest-AtLeast :
          (ts : List TrackerView) (out : EffectivePolicy F)
          → All (λ t. AtLeast (merge_rest fl d o ts out) (per_tracker fl d o t)) ts
      unfolding merge_rest
      merge_rest-AtLeast [] out = tt
      merge_rest-AtLeast (t ∷ ts) out = (
        merge_rest-AtLeast_old ts (per_tracker fl d o t) _
            (merge-AtLeast_new false (per_tracker fl d o t) out),
        merge_rest-AtLeast ts (merge fl false (per_tracker fl d o t) out),
      )

      strictest-AtLeast :
          (ts : List TrackerView)
          → All (λ t. AtLeast (tracker_policy_for fl ts d o) (per_tracker fl d o t)) ts
      unfolding tracker_policy_for
      strictest-AtLeast [] = tt
      strictest-AtLeast (t ∷ ts) = (
        merge_rest-AtLeast_old ts (per_tracker fl d o t) _
            (merge-AtLeast_new true (per_tracker fl d o t) (unset fl d)),
        merge_rest-AtLeast ts (merge fl true (per_tracker fl d o t) (unset fl d)),
      )

  -- Each field of `out` is the field of some policy, or what the loop began with.
  abbrev Attained : List (EffectivePolicy F) → EffectivePolicy F → EffectivePolicy F → Type 0
  Attained ps start out =
      ((out.min_seed_days ≡ start.min_seed_days)
        ⊎ Any (λ p. out.min_seed_days ≡ p.min_seed_days) ps)
      × ((out.rare_threshold ≡ start.rare_threshold)
          ⊎ Any (λ p. out.rare_threshold ≡ p.rare_threshold) ps)
      × ((out.min_ratio ≡ start.min_ratio) ⊎ Any (λ p. out.min_ratio ≡ p.min_ratio) ps)

  chosen :
      {A : Type 0} (ps : List (EffectivePolicy F)) (g : EffectivePolicy F → A) (b : Bool) (s : A)
      (x : EffectivePolicy F) (r : A)
      → (r ≡ (if b then g x else s)) ⊎ Any (λ p. r ≡ g p) ps
      → (r ≡ s) ⊎ ((r ≡ g x) ⊎ Any (λ p. r ≡ g p) ps)
  chosen ps g true s x r (inl h) = inr (inl h)
  chosen ps g false s x r (inl h) = inl h
  chosen ps g b s x r (inr h) = inr (inr h)

  module _ (d : ScoringDefaults F) (o : List (Text × TrackerPolicy F)) where
    merge_rest-Attained :
        (ts : List TrackerView) (out : EffectivePolicy F)
        → Attained (map (per_tracker fl d o) ts) out (merge_rest fl d o ts out)
    unfolding merge_rest merge
    merge_rest-Attained [] out = (inl refl, inl refl, inl refl)
    merge_rest-Attained (t ∷ ts) out =
        let p : EffectivePolicy F = per_tracker fl d o t in
        let ih = merge_rest-Attained ts (merge fl false p out) in
        (
          chosen _ (λ q. q.min_seed_days) (ltb_ℤ out.min_seed_days p.min_seed_days)
              out.min_seed_days p _ ih.0,
          chosen _ (λ q. q.rare_threshold) (ltb_ℤ p.rare_threshold out.rare_threshold)
              out.rare_threshold p _ ih.1,
          chosen _ (λ q. q.min_ratio) (lt out.min_ratio p.min_ratio) out.min_ratio p _ ih.2,
        )

  module _ (ord : IsOrdered fl) (d : ScoringDefaults F) (o : List (Text × TrackerPolicy F)) where
    -- Where the comparison of numbers is an order, the policy of a torrent with trackers asks for at
    -- least what each of them asks for. Its rare-content threshold is some tracker's, and so are its
    -- seed days and its ratio if not 0.
    pub tracker_policy_for-strictest :
        (t : TrackerView) (ts : List TrackerView)
        → let out = tracker_policy_for fl (t ∷ ts) d o in
          let ps = map (per_tracker fl d o) (t ∷ ts) in
          All (λ u. AtLeast out (per_tracker fl d o u)) (t ∷ ts)
          × Any (λ p. out.rare_threshold ≡ p.rare_threshold) ps
          × ((out.min_seed_days ≡ pos 0) ⊎ Any (λ p. out.min_seed_days ≡ p.min_seed_days) ps)
          × ((out.min_ratio ≡ zero_f fl) ⊎ Any (λ p. out.min_ratio ≡ p.min_ratio) ps)
    unfolding tracker_policy_for merge
    tracker_policy_for-strictest t ts =
        let p : EffectivePolicy F = per_tracker fl d o t in
        let a = merge_rest-Attained d o ts (merge fl true p (unset fl d)) in
        (
          strictest-AtLeast ord d o (t ∷ ts),
          a.1,
          chosen _ (λ q. q.min_seed_days) (ltb_ℤ (pos 0) p.min_seed_days) (pos 0) p _ a.0,
          chosen _ (λ q. q.min_ratio) (lt (zero_f fl) p.min_ratio) (zero_f fl) p _ a.2,
        )
