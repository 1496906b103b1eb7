-- ===== src/Decider/Plan.antt =====
-- What `Plan` promises, given what its reads return.
use native.Mathlib.Nat.{zero-add}
use native.Mathlib.Decide.{ℕ_discrete}
use triagearr.Decider.Complete.{IsFit, IsIn, plan_loop-IsIn}
use triagearr.Decider.Eligible.{IsElected, plan_loop-IsElected}
use triagearr.Base.{
  All, ℕ, ◌<◌, ◌≡◌, ◌≢◌, refl, sym, ap, ◌∙◌, ◌⊎◌, List, [], ◌∷◌, ◌++◌, false, some, arith, ◌==◌,
  ne→==,
}
use triagearr.Base.Words.{half}
use triagearr.Base.Text.{Text}
use triagearr.Types.{Hash, ok, DiskUsage, target_reached, no_more_candidates}
use triagearr.Float.{Float}
use triagearr.Decider.{
  ScoreRow, TorrentBasic, Volume, Source, RunPlan, plan_loop, needed_bytes, scoped_hashes,
  empty_plan, elect_under, or_no_snapshot, plan,
}
use triagearr.Decider.Budget.{Candidate, candidates, total, ranked, JustEnough, plan_loop-Elects}

ok-injective : {A : Type 0} {a b : A} → ok a ≡ ok b → a ≡ b
ok-injective e = cc

module _ (fl : Float) where
  open fl use {F}

  -- The bytes that a volume with this usage lacks.
  abbrev pub need_of : Volume F → DiskUsage F → ℕ
  need_of v snap = needed_bytes fl snap.total_bytes snap.free_percent v.target_free_percent

  -- A plan that elects `chosen` out of `cs`: the shortest prefix that reaches the target, or all.
  abbrev pub ElectsPrefix :
      List TorrentBasic
      → Text
      → List (Hash × ℕ)
      → List Hash
      → ℕ
      → List (Candidate fl)
      → RunPlan F
      → Type 0
  ElectsPrefix torrents path nlink links need cs q =
      (chosen : List (Candidate fl)) × (rest : List (Candidate fl)) × (cs ≡ chosen ++ rest)
      × (q.items ≡ ranked fl torrents path nlink links 0 chosen)
      × (q.estimated_freed_bytes ≡ total fl torrents path nlink links chosen)
      × (((q.stop_reason ≡ some target_reached)
            × JustEnough fl torrents path nlink links need chosen)
          ⊎ ((q.stop_reason ≡ some no_more_candidates)
              × (rest ≡ [])
              × (total fl torrents path nlink links chosen < need)))

  -- A volume, and what the reads of the Decider return.
  module _ (src : Source F) (v : Volume F) (snap : DiskUsage F) (scores : List (ScoreRow F))
      (torrents : List TorrentBasic) (max_nlink : List (Hash × ℕ)) (arr_linked : List Hash)
      (reads_disk : src.latest_disk_usage ≡ ok (some snap)) where
    -- A volume that already meets its target gets an empty plan, and nothing else is read.
    pub plan-at_target :
        need_of v snap ≡ 0
        → plan fl src v
          ≡ ok (record (empty_plan fl v snap.free_percent) { stop_reason = some target_reached })
    unfolding plan or_no_snapshot
    plan-at_target z = rw (reads_disk) (simp z)

    module _ (reads_scores : src.list_scores false ≡ ok scores)
        (reads_torrents : src.list_torrents_basic ≡ ok torrents)
        (reads_nlink : src.max_nlink_by_hashes (scoped_hashes fl torrents v.path scores)
          ≡ ok max_nlink)
        (reads_links : src.hashes_with_arr_imports ≡ ok arr_linked) where
      plan-loop :
          need_of v snap ≢ 0
          → plan fl src v
            ≡ ok (
                plan_loop fl torrents v.path max_nlink arr_linked
                  (need_of v snap)
                  scores
                  0
                  (empty_plan fl v snap.free_percent))
      unfolding plan elect_under or_no_snapshot
      plan-loop h =
          let nonzero : (need_of v snap == 0) ≡ false = ne→== (need_of v snap) 0 h in
          rw reads_disk
            (simp nonzero (rw (reads_scores, reads_torrents) (rw reads_nlink (rw reads_links))))

      -- When space is needed, and the sizes fit in 63 bits, a plan is made. It elects a prefix of
      -- the eligible candidates, ranked from 0, and estimates the sum of their sizes. Either it
      -- stops with the target reached, and then its last candidate was still needed; or the
      -- eligible candidates are all elected and fall short of the target.
      pub plan-elects :
          need_of v snap ≢ 0
          → need_of v snap < half
          → total fl torrents v.path max_nlink arr_linked
              (candidates fl torrents v.path max_nlink arr_linked scores)
            < half
          → (q : RunPlan F) × (plan fl src v ≡ ok q)
            × ElectsPrefix torrents v.path max_nlink arr_linked
                (need_of v snap)
                (candidates fl torrents v.path max_nlink arr_linked scores)
                q
      unfolding empty_plan
      plan-elects nz nh fit = (
        plan_loop fl torrents v.path max_nlink arr_linked (need_of v snap) scores 0
            (empty_plan fl v snap.free_percent),
        plan-loop nz,
        simp zero-add at (
            plan_loop-Elects fl torrents v.path max_nlink arr_linked (need_of v snap) 0 scores 0
              (empty_plan fl v snap.free_percent) nh (omega arith) refl (omega arith)),
      )

      -- If a plan says that there are no more candidates, then every score row whose torrent is known
      -- and in the volume, with hard links within the limit, has an item in it, whatever its score
      -- and the sizes.
      pub plan-IsIn :
          (q : RunPlan F) (before behind : List (ScoreRow F)) (sc : ScoreRow F) (t : TorrentBasic)
          → plan fl src v ≡ ok q
          → q.stop_reason ≡ some no_more_candidates
          → scores ≡ before ++ sc ∷ behind
          → IsFit fl torrents v.path max_nlink arr_linked sc.hash t
          → IsIn fl torrents v.path max_nlink arr_linked sc t q.items
      plan-IsIn q before behind sc t made stop split fit = elim (ℕ_discrete (need_of v snap) 0) [
        | yes z ↦
            let same = ok-injective (sym (plan-at_target z) ∙ made) in
            let at_target = ap (λ (p : RunPlan F). p.stop_reason) same in absurd cc
        | no nz ↦
            let same = ok-injective (sym (plan-loop nz) ∙ made) in
            let e =
              ap
                (λ (l : List (ScoreRow F)).
                  plan_loop fl torrents v.path max_nlink arr_linked (need_of v snap) l 0
                    (empty_plan fl v snap.free_percent))
                split in
            let all = sym e ∙ same in
            rw (← all) (
              plan_loop-IsIn fl torrents v.path max_nlink arr_linked (need_of v snap) before behind
                sc t 0 (empty_plan fl v snap.free_percent) fit
                (ap (λ (p : RunPlan F). p.stop_reason) all ∙ stop))
      ]

      -- Whatever the sizes and the budget, every item of a plan stands for an eligible torrent.
      pub plan-IsElected :
          (q : RunPlan F)
          → plan fl src v ≡ ok q
          → All (IsElected fl torrents v.path max_nlink arr_linked) q.items
      unfolding empty_plan
      plan-IsElected q h = elim (ℕ_discrete (need_of v snap) 0) [
        | yes z ↦ rw (← ok-injective (sym (plan-at_target z) ∙ h)) tt
        | no nz ↦ rw (← ok-injective (sym (plan-loop nz) ∙ h)) (
            plan_loop-IsElected fl torrents v.path max_nlink arr_linked (need_of v snap) scores 0 _
              tt)
      ]
