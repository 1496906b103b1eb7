-- ===== src/Decider/Budget.antt =====
-- The loop of `Plan` elects the shortest prefix of the eligible candidates that meets the budget.
use triagearr.Base.{
  ℕ, ◌+◌, ◌≤◌, ◌<◌, ◌≡◌, refl, sym, ap, ◌∙◌, ◌⊎◌, inl, inr, List, [], ◌∷◌, ◌++◌, true, false, some,
  arith, leb, leb→le, leb→gt, Bool-cases, append_assoc, append-nil,
}
use triagearr.Base.Words.{half, add64, le64, add64-eq, le64-leb}
use triagearr.Base.Text.{Text}
use triagearr.Types.{Hash, RunItem, target_reached, no_more_candidates}
use triagearr.Float.{Float}
use triagearr.Decider.{
  ScoreRow, TorrentBasic, RunPlan, Verdict, skip, cross_seed, elect, judge, run_item, with_item,
  follow, plan_loop,
}

module _ (fl : Float) where
  open fl use {F}

  abbrev pub Candidate : Type 0
  Candidate = ScoreRow F × TorrentBasic

  module _ (torrents : List TorrentBasic) (path : Text) (max_nlink : List (Hash × ℕ))
      (arr_linked : List Hash) where
    abbrev pub elected : Verdict → ScoreRow F → List Candidate → List Candidate
    elected skip sc more = more
    elected cross_seed sc more = more
    elected (elect t) sc more = (sc, t) ∷ more

    -- The score rows that pass every guard, in the order of the scores.
    unfoldable pub candidates : List (ScoreRow F) → List Candidate
    candidates [] = []
    candidates (sc ∷ rest) =
        elected (judge fl torrents path max_nlink arr_linked sc) sc (candidates rest)

    unfoldable pub total : List Candidate → ℕ
    total [] = 0
    total ((sc, t) ∷ rest) = t.size + total rest

    -- The plan's items, ranked from a number on.
    unfoldable pub ranked : ℕ → List Candidate → List (RunItem F)
    ranked n [] = []
    ranked n ((sc, t) ∷ rest) =
        run_item fl torrents path max_nlink arr_linked n sc t ∷ ranked (n + 1) rest

    pub total-append : (xs ys : List Candidate) → total (xs ++ ys) ≡ total xs + total ys
    unfolding total
    total-append [] ys = omega arith
    total-append ((sc, t) ∷ xs) ys = omega (arith, total-append xs ys)

    -- `chosen` meets the budget, and without its last candidate it does not.
    abbrev pub JustEnough : ℕ → List Candidate → Type 0
    JustEnough need chosen =
        (front : List Candidate) × (last : Candidate) × (chosen ≡ front ++ last ∷ [])
        × (total front < need)
        × (need ≤ total chosen)

    -- What a loop that began with `p` at `rank` has made of the candidates `cs`.
    abbrev pub Elects : ℕ → ℕ → List Candidate → ℕ → RunPlan F → RunPlan F → Type 0
    Elects need got cs rank p q =
        (chosen : List Candidate) × (rest : List Candidate) × (cs ≡ chosen ++ rest)
        × (q.items ≡ p.items ++ ranked rank chosen)
        × (q.estimated_freed_bytes ≡ got + total chosen)
        × (((q.stop_reason ≡ some target_reached)
              × ((front : List Candidate) × (last : Candidate) × (chosen ≡ front ++ last ∷ [])
                  × (got + total front < need)
                  × (need ≤ got + total chosen)))
            ⊎ ((q.stop_reason ≡ some no_more_candidates)
                × (rest ≡ [])
                × (got + total chosen < need)))

    -- The rest of the loop after one candidate more.
    Elects-cons :
        (need got : ℕ) (sc : ScoreRow F) (t : TorrentBasic) (cs : List Candidate) (rank : ℕ)
        (p r : RunPlan F)
        → let q = with_item fl torrents path max_nlink arr_linked rank sc t p in
          Elects need (got + t.size) cs (rank + 1) q r → Elects need got ((sc, t) ∷ cs) rank p r
    unfolding with_item total ranked
    Elects-cons need got sc t cs rank p r
          (chosen, rest, split, items, est, inl (stop, (front, last, e, lo, hi))) =
        (
          (sc, t) ∷ chosen,
          rest,
          ap (◌∷◌ (sc, t)) split,
          items ∙ append_assoc p.items _ _,
          omega (arith, est),
          inl (stop, ((sc, t) ∷ front, last, ap (◌∷◌ (sc, t)) e, omega arith, omega arith)),
        )
    Elects-cons need got sc t cs rank p r (chosen, rest, split, items, est, inr (stop, e, lo)) = (
      (sc, t) ∷ chosen,
      rest,
      ap (◌∷◌ (sc, t)) split,
      items ∙ append_assoc p.items _ _,
      omega (arith, est),
      inr (stop, e, omega arith),
    )

    follow-Elects :
        (need got : ℕ) (v : Verdict) (sc : ScoreRow F) (cs : List Candidate) (rank : ℕ)
        (p : RunPlan F) (next : ℕ → RunPlan F → RunPlan F)
        → need < half
        → got < need
        → p.estimated_freed_bytes ≡ got
        → got + total (elected v sc cs) < half
        → ((got' k : ℕ) (q : RunPlan F)
            → got' < need
            → q.estimated_freed_bytes ≡ got'
            → got' + total cs < half
            → Elects need got' cs k q (next k q))
        → Elects need got
            (elected v sc cs)
            rank
            p
            (follow fl torrents path max_nlink arr_linked need next v sc rank p)
    unfolding follow total ranked with_item
    follow-Elects need got skip sc cs rank p next nh lo e fit ih = ih got rank p lo e fit
    follow-Elects need got cross_seed sc cs rank p next nh lo e fit ih = ih got rank _ lo e fit
    follow-Elects need got (elect t) sc cs rank p next nh lo e fit ih =
        elim (Bool-cases (le64 need (add64 p.estimated_freed_bytes t.size))) [
          | inl met ↦ rw met (
            (sc, t) ∷ [],
            cs,
            refl,
            refl,
            rw sum (omega arith),
            inl (refl, ([], (sc, t), refl, omega arith, omega (arith, enough met))),
          )
          | inr short ↦ rw short (
              Elects-cons need got sc t cs rank p (next (rank + 1) q)
                (ih (got + t.size) (rank + 1) q (omega (arith, missing short)) sum (omega arith)))
        ]
      where
        q : RunPlan F
        q = with_item fl torrents path max_nlink arr_linked rank sc t p

        sum : add64 p.estimated_freed_bytes t.size ≡ got + t.size
        sum = rw e (add64-eq got t.size (omega arith))

        test : le64 need (add64 p.estimated_freed_bytes t.size) ≡ leb need (got + t.size)
        test = rw sum (le64-leb need (got + t.size) nh (omega arith))

        enough : le64 need (add64 p.estimated_freed_bytes t.size) ≡ true → need ≤ got + t.size
        enough h = leb→le need (got + t.size) (sym test ∙ h)

        missing : le64 need (add64 p.estimated_freed_bytes t.size) ≡ false → got + t.size < need
        missing h = leb→gt need (got + t.size) (sym test ∙ h)

    pub plan_loop-Elects :
        (need got : ℕ) (scores : List (ScoreRow F)) (rank : ℕ) (p : RunPlan F)
        → need < half
        → got < need
        → p.estimated_freed_bytes ≡ got
        → got + total (candidates scores) < half
        → Elects need got
            (candidates scores)
            rank
            p
            (plan_loop fl torrents path max_nlink arr_linked need scores rank p)
    unfolding plan_loop candidates total ranked
    plan_loop-Elects need got [] rank p nh lo e fit =
        ([], [], refl, sym (append-nil p.items), omega (arith, e), inr (refl, refl, omega arith))
    plan_loop-Elects need got (sc ∷ rest) rank p nh lo e fit =
        follow-Elects need got (judge fl torrents path max_nlink arr_linked sc) sc (candidates rest)
          rank p _ nh lo e fit (λ g k q l x f. plan_loop-Elects need g rest k q nh l x f)
