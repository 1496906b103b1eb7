-- ===== src/Decider/Complete.antt =====
-- Which torrents a plan must elect: all that may be, if it says that there are no more.
use triagearr.Base.{
  ℕ, ◌+◌, ◌≤◌, ◌≡◌, refl, sym, ◌∙◌, ◌⊎◌, inl, inr, List, [], ◌∷◌, ◌++◌, true, false, none, some,
  arith, if◌then◌else◌, Bool-cases, append_assoc, append-nil,
}
use triagearr.Base.Words.{le64, lt64-ltb}
use triagearr.Base.Text.{Text}
use triagearr.Types.{Hash, RunItem, no_more_candidates}
use triagearr.Float.{Float}
use triagearr.Decider.{
  ScoreRow, TorrentBasic, RunPlan, Verdict, skip, cross_seed, elect, by_hash, nlink_of, has_hash,
  in_volume, over_ceiling, judge, judge_known, judge_torrent, run_item, with_item, follow,
  plan_loop,
}

module _ (fl : Float) where
  open fl use {F}

  module _ (torrents : List TorrentBasic) (path : Text) (max_nlink : List (Hash × ℕ))
      (arr_linked : List Hash) where
    -- The torrent is known and in the volume, and either no file of it was sampled, or none has
    -- more than one hard link, or none has more than two and an *arr application imported it.
    abbrev pub IsFit : Hash → TorrentBasic → Type 0
    IsFit h t =
        (by_hash torrents h ≡ some t)
        × (in_volume path t.save_path ≡ true)
        × ((nlink_of max_nlink h ≡ none)
            ⊎ ((n : ℕ) × (nlink_of max_nlink h ≡ some n)
                × ((n ≤ 1) ⊎ ((n ≤ 2) × (has_hash arr_linked h ≡ true)))))

    -- One of the items stands for the score row and the torrent.
    abbrev pub IsIn : ScoreRow F → TorrentBasic → List (RunItem F) → Type 0
    IsIn sc t items =
        (before : List (RunItem F)) × (it : RunItem F) × (behind : List (RunItem F)) × (items
          ≡ before ++ it ∷ behind)
        × (it.torrent_hash ≡ sc.hash)
        × (it.score ≡ sc.score)
        × (it.size_bytes ≡ t.size)

    below_ceiling : (n c : ℕ) → n ≤ c → c ≤ 2 → over_ceiling (some n) c ≡ false
    unfolding over_ceiling
    below_ceiling n c le two = ground (arith, lt64-ltb c n)

    IsFit-over_ceiling :
        (h : Hash) (t : TorrentBasic)
        → IsFit h t
        → over_ceiling (nlink_of max_nlink h) (if has_hash arr_linked h then 2 else 1) ≡ false
    unfolding over_ceiling
    IsFit-over_ceiling h t (known, inside, inl none_sampled) = rw none_sampled refl
    IsFit-over_ceiling h t (known, inside, inr (n, sampled, inr (two, linked))) =
        rw sampled (simp linked (below_ceiling n 2 two (omega arith)))
    IsFit-over_ceiling h t (known, inside, inr (n, sampled, inl one)) =
        rw sampled (elim (Bool-cases (has_hash arr_linked h)) [
          | inl linked ↦ simp linked (below_ceiling n 2 (omega arith) (omega arith))
          | inr free ↦ simp free (below_ceiling n 1 one (omega arith))
        ])

    judge-elect :
        (sc : ScoreRow F) (t : TorrentBasic)
        → IsFit sc.hash t
        → judge fl torrents path max_nlink arr_linked sc ≡ elect t
    unfolding judge judge_known judge_torrent
    judge-elect sc t fit =
        let under = IsFit-over_ceiling sc.hash t fit in
        let inside = fit.1 in rw fit.0 (simp (inside, under) refl)

    -- Items are only appended.
    abbrev Grows : RunPlan F → RunPlan F → Type 0
    Grows p q = (more : List (RunItem F)) × (q.items ≡ p.items ++ more)

    follow-Grows :
        (need : ℕ) (next : ℕ → RunPlan F → RunPlan F) (v : Verdict) (sc : ScoreRow F) (rank : ℕ)
        (p : RunPlan F)
        → ((k : ℕ) (q : RunPlan F) → Grows q (next k q))
        → Grows p (follow fl torrents path max_nlink arr_linked need next v sc rank p)
    unfolding follow with_item
    follow-Grows need next skip sc rank p ih = ih rank p
    follow-Grows need next cross_seed sc rank p ih = ih rank _
    follow-Grows need next (elect t) sc rank p ih =
        let it = run_item fl torrents path max_nlink arr_linked rank sc t in
        let q = with_item fl torrents path max_nlink arr_linked rank sc t p in
        elim (Bool-cases (le64 need q.estimated_freed_bytes)) [
          | inl met ↦ simp met (it ∷ [], refl)
          | inr short ↦
              let (more, e) = ih (rank + 1) q in
              simp short (it ∷ more, e ∙ append_assoc p.items (it ∷ []) more)
        ]

    plan_loop-Grows :
        (need : ℕ) (scores : List (ScoreRow F)) (rank : ℕ) (p : RunPlan F)
        → Grows p (plan_loop fl torrents path max_nlink arr_linked need scores rank p)
    unfolding plan_loop
    plan_loop-Grows need [] rank p = ([], sym (append-nil p.items))
    plan_loop-Grows need (sc ∷ rest) rank p =
        follow-Grows need _ (judge fl torrents path max_nlink arr_linked sc) sc rank p
          (λ k q. plan_loop-Grows need rest k q)

    -- The loop at the row of a torrent that is elected.
    follow-IsIn :
        (need : ℕ) (rest : List (ScoreRow F)) (sc : ScoreRow F) (t : TorrentBasic) (rank : ℕ)
        (p : RunPlan F)
        → let out =
            follow fl torrents path max_nlink arr_linked need
              (plan_loop fl torrents path max_nlink arr_linked need rest)
              (elect t)
              sc
              rank
              p in
          out.stop_reason ≡ some no_more_candidates → IsIn sc t out.items
    unfolding follow with_item run_item
    follow-IsIn need rest sc t rank p =
        let it = run_item fl torrents path max_nlink arr_linked rank sc t in
        let q = with_item fl torrents path max_nlink arr_linked rank sc t p in
        elim (Bool-cases (le64 need q.estimated_freed_bytes)) [
          | inl met ↦ simp met (λ h. absurd cc)
          | inr short ↦
              let (more, e) = plan_loop-Grows need rest (rank + 1) q in
              simp short (λ h.
                (p.items, it, more, e ∙ append_assoc p.items (it ∷ []) more, refl, refl, refl))
        ]

    -- What the loop says of the rows behind the first holds of all.
    follow-onto :
        (need : ℕ) (next : ℕ → RunPlan F → RunPlan F) (v : Verdict) (x sc : ScoreRow F)
        (t : TorrentBasic) (rank : ℕ) (p : RunPlan F)
        → ((k : ℕ) (q : RunPlan F)
            → (next k q).stop_reason ≡ some no_more_candidates
            → IsIn sc t (next k q).items)
        → let out = follow fl torrents path max_nlink arr_linked need next v x rank p in
          out.stop_reason ≡ some no_more_candidates → IsIn sc t out.items
    unfolding follow
    follow-onto need next skip x sc t rank p ih h = ih rank p h
    follow-onto need next cross_seed x sc t rank p ih h = ih rank _ h
    follow-onto need next (elect u) x sc t rank p ih h =
        let q = with_item fl torrents path max_nlink arr_linked rank x u p in
        elim (Bool-cases (le64 need q.estimated_freed_bytes)) [
          | inl met ↦ let stopped = simp met at h in absurd cc
          | inr short ↦ simp short (ih (rank + 1) q (simp short at h))
        ]

    pub plan_loop-IsIn :
        (need : ℕ) (before behind : List (ScoreRow F)) (sc : ScoreRow F) (t : TorrentBasic)
        (rank : ℕ) (p : RunPlan F)
        → IsFit sc.hash t
        → let out =
            plan_loop fl torrents path max_nlink arr_linked need (before ++ sc ∷ behind) rank p in
          out.stop_reason ≡ some no_more_candidates → IsIn sc t out.items
    unfolding plan_loop
    plan_loop-IsIn need [] behind sc t rank p fit =
        rw (judge-elect sc t fit) (follow-IsIn need behind sc t rank p)
    plan_loop-IsIn need (x ∷ before) behind sc t rank p fit =
        follow-onto need _ (judge fl torrents path max_nlink arr_linked x) x sc t rank p
          (λ k q. plan_loop-IsIn need before behind sc t k q fit)
