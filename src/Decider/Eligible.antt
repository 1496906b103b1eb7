-- ===== src/Decider/Eligible.antt =====
-- Which torrents a plan can elect at all: the guards of the loop, as one predicate.
use triagearr.Base.{
  ℕ, ◌+◌, ◌≤◌, ◌<◌, ◌≡◌, refl, inl, inr, List, [], ◌∷◌, true, false, Option, none, some, arith,
  if◌then◌else◌, All, All-append, Bool-cases,
}
use triagearr.Base.Words.{half, le64, lt64-ltb}
use triagearr.Base.Text.{Text}
use triagearr.Types.{Hash, RunItem}
use triagearr.Float.{Float}
use triagearr.Decider.{
  ScoreRow, TorrentBasic, RunPlan, Verdict, skip, cross_seed, elect, by_hash, nlink_of, has_hash,
  in_volume, over_ceiling, judge, judge_known, judge_torrent, run_item, with_item, follow,
  plan_loop,
}

module _ (fl : Float) where
  open fl use {F}

  module _ (torrents : List TorrentBasic) (path : Text) (max_nlink : List (Hash × ℕ))
      (arr_linked : List Hash) where
    -- The torrent is known and in the volume, and no sampled file of it has more hard links than
    -- 2, or than 1 if no *arr application has imported it.
    abbrev pub IsEligible : Hash → TorrentBasic → Type 0
    IsEligible h t =
        (by_hash torrents h ≡ some t)
        × (in_volume path t.save_path ≡ true)
        × ((n : ℕ)
            → nlink_of max_nlink h ≡ some n
            → n < half
            → (n ≤ 2) × (has_hash arr_linked h ≡ false → n ≤ 1))

    -- An item stands for an eligible torrent and carries its size.
    abbrev pub IsElected : RunItem F → Type 0
    IsElected it = (t : TorrentBasic) × IsEligible it.torrent_hash t × (it.size_bytes ≡ t.size)

    over_ceiling-le :
        (o : Option ℕ) (c n : ℕ)
        → over_ceiling o c ≡ false
        → o ≡ some n
        → n < half
        → c < half
        → n ≤ c
    unfolding over_ceiling
    over_ceiling-le none c n h e nh ch = ground arith
    over_ceiling-le (some m) c n h e nh ch = ground (arith, lt64-ltb c m)

    judge_torrent-inversion :
        (sc : ScoreRow F) (t u : TorrentBasic)
        → judge_torrent fl torrents path max_nlink arr_linked sc t ≡ elect u
        → (in_volume path t.save_path ≡ true)
          × (over_ceiling
                (nlink_of max_nlink sc.hash)
                (if has_hash arr_linked sc.hash then 2 else 1)
              ≡ false)
          × (t ≡ u)
    unfolding judge_torrent
    judge_torrent-inversion sc t u h = ground arith

    judge-IsEligible :
        (sc : ScoreRow F) (u : TorrentBasic) (o : Option TorrentBasic)
        → by_hash torrents sc.hash ≡ o
        → judge_known fl torrents path max_nlink arr_linked sc o ≡ elect u
        → IsEligible sc.hash u
    unfolding judge_known
    judge-IsEligible sc u none e h = cc
    judge-IsEligible sc u (some t) e h =
        let (inside, under, same) = judge_torrent-inversion sc t u h in
        (
          rw (← same) e,
          rw (← same) inside,
          λ n at_hash small.
              let le = over_ceiling-le _ _ n under at_hash small in ground (arith, le),
        )

    with_item-IsElected :
        (sc : ScoreRow F) (t : TorrentBasic) (rank : ℕ) (p : RunPlan F)
        → IsEligible sc.hash t
        → All IsElected p.items
        → All IsElected (with_item fl torrents path max_nlink arr_linked rank sc t p).items
    unfolding with_item run_item
    with_item-IsElected sc t rank p h ps =
        All-append IsElected p.items (run_item fl torrents path max_nlink arr_linked rank sc t ∷ [])
          ps ((t, h, refl), tt)

    follow-IsElected :
        (need : ℕ) (next : ℕ → RunPlan F → RunPlan F) (v : Verdict) (sc : ScoreRow F) (rank : ℕ)
        (p : RunPlan F)
        → ((k : ℕ) (q : RunPlan F) → All IsElected q.items → All IsElected (next k q).items)
        → ((t : TorrentBasic) → v ≡ elect t → IsEligible sc.hash t)
        → All IsElected p.items
        → All IsElected (follow fl torrents path max_nlink arr_linked need next v sc rank p).items
    unfolding follow
    follow-IsElected need next skip sc rank p ih good ps = ih rank p ps
    follow-IsElected need next cross_seed sc rank p ih good ps = ih rank _ ps
    follow-IsElected need next (elect t) sc rank p ih good ps =
        let q = with_item fl torrents path max_nlink arr_linked rank sc t p in
        let qs = with_item-IsElected sc t rank p (good t refl) ps in
        elim (Bool-cases (le64 need q.estimated_freed_bytes)) [
          | inl met ↦ rw met qs
          | inr short ↦ rw short (ih (rank + 1) q qs)
        ]

    pub plan_loop-IsElected :
        (need : ℕ) (scores : List (ScoreRow F)) (rank : ℕ) (p : RunPlan F)
        → All IsElected p.items
        → All IsElected (plan_loop fl torrents path max_nlink arr_linked need scores rank p).items
    unfolding plan_loop judge
    plan_loop-IsElected need [] rank p ps = ps
    plan_loop-IsElected need (sc ∷ rest) rank p ps =
        follow-IsElected need _ (judge fl torrents path max_nlink arr_linked sc) sc rank p
          (λ k q. plan_loop-IsElected need rest k q)
          (λ t e. judge-IsEligible sc t (by_hash torrents sc.hash) refl e) ps
