-- ===== src/Scorer/Pass/Totals.antt =====
-- `ScoreAll`: its counts, the rows it writes, and when it succeeds.
use triagearr.Base.{
  ℕ, ◌+◌, ◌≡◌, ◌≢◌, refl, ap, List, [], ◌∷◌, ◌++◌, Bool, true, false, Option, none, some, arith,
  if◌then◌else◌, length, length-append,
}
use native.Mathlib.Nat.{zero-add}
use triagearr.Base.Text.{Text}
use triagearr.Types.{Time, Error, Result, ok, err}
use triagearr.Float.{Float}
use triagearr.Decider.{ScoreRow}
use triagearr.Scorer.Factors.{ScoringTorrent}
use triagearr.Scorer.Pass.{
  Breakdown, ScoreAllStats, Scorer, breakdown_to_row, failed_one, scored_one, Prefetched, verdict,
  Tally, add_row, add_verdict, score_rows, prefetch, ScoreAllResult, finished, write_rows,
  with_prefetched, score_all, no_stats, row_of, unless_cancelled, failed_early, with_torrents,
}

abbrev pub flag : Bool → ℕ
flag true = 1
flag false = 0

flag-if : (b : Bool) (n : ℕ) → (if b then n + 1 else n) ≡ n + flag b
flag-if true n = refl
flag-if false n = omega arith

module _ {F : Type 0} where
  -- The rows of torrents that are excluded.
  abbrev pub excluded_rows : List (ScoreRow F) → ℕ
  excluded_rows [] = 0
  excluded_rows (r ∷ rs) = flag r.excluded + excluded_rows rs

  excluded_rows-append :
      (xs ys : List (ScoreRow F)) → excluded_rows (xs ++ ys) ≡ excluded_rows xs + excluded_rows ys
  excluded_rows-append [] ys = omega arith
  excluded_rows-append (x ∷ xs) ys = omega (arith, excluded_rows-append xs ys)

  -- Every torrent is counted once, every scored one has a row, and the excluded ones are counted.
  abbrev pub Balanced : ℕ → ScoreAllStats → List (ScoreRow F) → Type 0
  Balanced n stats rows =
      (stats.scored + stats.errors ≡ n)
      × (length rows ≡ stats.scored)
      × (excluded_rows rows ≡ stats.excluded)

module _ (fl : Float) (s : Scorer fl) where
  open fl use {F}

  IsRowOf : Breakdown F → Result (ScoreRow F) → Type 0
  IsRowOf b (err e) = Unit
  IsRowOf b (ok row) = row.excluded ≡ b.excluded

  row_of-IsRowOf : (b : Breakdown F) (m : Result Text) → IsRowOf b (row_of fl s b m)
  unfolding row_of IsRowOf
  row_of-IsRowOf b (ok text) = refl
  row_of-IsRowOf b (err e) = tt

  breakdown_to_row-IsRowOf : (b : Breakdown F) → IsRowOf b (breakdown_to_row fl s b)
  unfolding breakdown_to_row
  breakdown_to_row-IsRowOf b = row_of-IsRowOf b (s.marshal b.factors)

  add_row-Balanced :
      (n : ℕ) (b : Breakdown F) (r : Result (ScoreRow F))
      → IsRowOf b r
      → (stats : ScoreAllStats) (rows : List (ScoreRow F)) → Balanced n stats rows
      → let t = add_row fl s b r (stats, rows) in Balanced (n + 1) t.0 t.1
  unfolding add_row failed_one scored_one IsRowOf
  add_row-Balanced n b (err e) k stats rows h = (omega (arith, h.0), h.1, h.2)
  add_row-Balanced n b (ok row) k stats rows h = (
    omega (arith, h.0),
    omega (arith, h.1, length-append rows (row ∷ [])),
    omega (
      arith,
      h.2,
      excluded_rows-append rows (row ∷ []),
      flag-if b.excluded stats.excluded,
      ap flag k,
    ),
  )

  add_verdict-Balanced :
      (n : ℕ) (v : Result (Breakdown F)) (stats : ScoreAllStats) (rows : List (ScoreRow F))
      → Balanced n stats rows
      → let t = add_verdict fl s v (stats, rows) in Balanced (n + 1) t.0 t.1
  unfolding add_verdict failed_one
  add_verdict-Balanced n (err e) stats rows h = (omega (arith, h.0), h.1, h.2)
  add_verdict-Balanced n (ok b) stats rows h =
      add_row-Balanced n b (breakdown_to_row fl s b) (breakdown_to_row-IsRowOf b) stats rows h

  -- The loop ends early on the context's word only.
  abbrev Counted : ℕ → Tally fl s × Option Error → Type 0
  Counted n r = (r.1 ≡ none → Balanced n r.0.0 r.0.1)

  unless_cancelled-Counted :
      (n : ℕ) (c : Option Error) (tally : Tally fl s) (rest : Tally fl s × Option Error)
      → Counted n rest
      → Counted n (unless_cancelled fl s c tally rest)
  unfolding unless_cancelled
  unless_cancelled-Counted n (some e) tally rest h = λ k. cc
  unless_cancelled-Counted n none tally rest h = h

  score_rows-Counted :
      (p : Prefetched fl s) (i n : ℕ) (ts : List ScoringTorrent) (stats : ScoreAllStats)
      (rows : List (ScoreRow F))
      → Balanced n stats rows
      → Counted (n + length ts) (score_rows fl s p i ts (stats, rows))
  unfolding score_rows
  score_rows-Counted p i n [] stats rows h = λ e. (omega (arith, h.0), h.1, h.2)
  score_rows-Counted p i n (t ∷ ts) stats rows h =
      let v = verdict fl s p t (s.now (i + 1)) in
      let next = add_verdict fl s v (stats, rows) in
      let more =
        score_rows-Counted p (i + 1) (n + 1) ts next.0 next.1
          (add_verdict-Balanced n v stats rows h) in
      unless_cancelled-Counted (n + length (t ∷ ts)) (s.cancelled i) (stats, rows) _
        (λ e. let q = more e in (omega (arith, q.0), q.1, q.2))

  score_rows-ends :
      (p : Prefetched fl s) (i : ℕ) (ts : List ScoringTorrent) (tally : Tally fl s)
      → ((j : ℕ) → s.cancelled j ≡ none)
      → (score_rows fl s p i ts tally).1 ≡ none
  unfolding score_rows unless_cancelled
  score_rows-ends p i [] tally c = refl
  score_rows-ends p i (t ∷ ts) tally c =
      simp (c i)
        (score_rows-ends p (i + 1) ts (add_verdict fl s (verdict fl s p t (s.now (i + 1))) tally) c)

  -- What a pass over `n` torrents comes to.
  abbrev pub Passes : ℕ → ScoreAllResult fl s → Type 0
  Passes n r =
      (r.error ≡ none
        → (rows : List (ScoreRow F)) × (r.upserted ≡ some rows) × Balanced n r.stats rows)
      × (r.upserted ≡ none → r.error ≢ none)

  finished-Passes :
      (n : ℕ) (tally : Tally fl s) (at : Time) (r : Option Error)
      → Balanced n tally.0 tally.1
      → Passes n (finished fl s tally at r)
  unfolding finished
  finished-Passes n (stats, rows) at (some e) h = ((λ k. cc), λ k. cc)
  finished-Passes n (stats, rows) at none h = ((λ k. (rows, refl, h)), λ k. cc)

  write_rows-Passes :
      (n : ℕ) (r : Tally fl s × Option Error) → Counted n r → Passes n (write_rows fl s n r)
  unfolding write_rows
  write_rows-Passes n ((stats, rows), some e) h = ((λ k. cc), λ k l. cc)
  write_rows-Passes n ((stats, rows), none) h =
      finished-Passes n (stats, rows) (s.now (n + 1)) (s.store.upsert_scores rows) (h refl)

  with_prefetched-Passes :
      (ts : List ScoringTorrent) (r : Result (Prefetched fl s))
      → Passes (length ts) (with_prefetched fl s ts r)
  unfolding with_prefetched failed_early
  with_prefetched-Passes ts (err e) = ((λ k. cc), λ k l. cc)
  with_prefetched-Passes ts (ok p) =
      write_rows-Passes (length ts) (score_rows fl s p 0 ts (no_stats fl s, []))
        (simp zero-add at (score_rows-Counted p 0 0 ts (no_stats fl s) [] (refl, refl, refl)))

  -- A pass that returns no error has counted every torrent of the library once, as scored or as
  -- failed, has handed one row for every scored torrent to `UpsertScores`, and counts as excluded
  -- the torrents of those rows that are excluded. A pass that writes nothing returns an error.
  pub score_all-Passes :
      (ts : List ScoringTorrent)
      → s.store.list_torrents_for_scoring ≡ ok ts
      → Passes (length ts) (score_all fl s)
  unfolding score_all with_torrents
  score_all-Passes ts e = simp e (with_prefetched-Passes ts (prefetch fl s))

  write_rows-ends :
      (n : ℕ) (r : Tally fl s × Option Error)
      → r.1 ≡ none
      → ((rows : List (ScoreRow F)) → s.store.upsert_scores rows ≡ none)
      → (write_rows fl s n r).error ≡ none
  unfolding write_rows finished
  write_rows-ends n ((stats, rows), some e) h u = absurd cc
  write_rows-ends n ((stats, rows), none) h u = simp (u rows) refl

  -- No torrent stops a pass: if the bulk reads succeed, the context is never cancelled and the
  -- batched write succeeds, then the pass returns no error, whatever the torrents are.
  pub score_all-ends :
      (ts : List ScoringTorrent) (p : Prefetched fl s)
      → s.store.list_torrents_for_scoring ≡ ok ts
      → prefetch fl s ≡ ok p
      → ((i : ℕ) → s.cancelled i ≡ none)
      → ((rows : List (ScoreRow F)) → s.store.upsert_scores rows ≡ none)
      → (score_all fl s).error ≡ none
  unfolding score_all with_torrents with_prefetched
  score_all-ends ts p e read c u =
      simp (e, read)
        (write_rows-ends (length ts) (score_rows fl s p 0 ts (no_stats fl s, []))
          (score_rows-ends p 0 ts (no_stats fl s, []) c) u)
