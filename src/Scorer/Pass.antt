-- ===== src/Scorer/Pass.antt =====
-- internal/scorer/types.go and scorer.go: one torrent's verdict, and the pass over the library. The
-- store is what its reads return; a write is part of the result. A reading of the clock has the
-- number of readings before it, and so has a test of the context.
pub mod Totals
mod Data
unfoldable pub use Data.*
use triagearr.Base.{
  ℕ, zero, suc, ◌+◌, List, [], ◌∷◌, ◌++◌, Bool, true, false, not, Option, none, some, if◌then◌else◌,
  is_empty, length,
}
use triagearr.Base.Int.{ℤ, pos}
use triagearr.Base.Text.{Text, text_eq, codes}
use triagearr.Types.{Hash, Time, Error, Result, ok, err, TrackerPolicy, ScoringDefaults}
use triagearr.Float.{Float, zero_f, sub_time}
use triagearr.Decider.{ScoreRow}
use triagearr.Scorer.Trackers.{TrackerRow, tracker_views_from_rows, any_tracker_alive}
use triagearr.Scorer.Policy.{tracker_policy_for}
use triagearr.Scorer.Factors.{Factor, ScoringTorrent, SnapshotStats, ScoringConfig, eval_factors}
use triagearr.Scorer.Exclusions.{
  LinkedMedia, ArrsConfig, TorrentClientInstanceConfig, evaluate_exclusions,
}

module _ (fl : Float) (s : Scorer fl) where
  open fl use {F, of_int, add, div, lt}

  abbrev pub Policies : Type 0
  Policies = ScoringDefaults F × List (Hash × TrackerPolicy F)

  -- `by[p.TrackerHost] = p` over the enabled rows.
  policies_by_host :
      List (TrackerPolicy F) → List (Hash × TrackerPolicy F) → List (Hash × TrackerPolicy F)
  policies_by_host [] by = by
  policies_by_host (p ∷ ps) by =
      if not p.enabled
      then policies_by_host ps by
      else policies_by_host ps (put by p.tracker_host p)

  unfoldable pub load_scoring_policies : Result Policies
  unfolding policies_by_host
  load_scoring_policies = do
    defaults ← within (codes "loading scoring defaults: ") s.store.get_scoring_defaults
    policies ← within (codes "loading tracker policies: ") s.store.list_tracker_policies
    ok (defaults, policies_by_host policies [])

  -- The loop of `globalAvgFromStats`.
  sum_velocity : List (Hash × SnapshotStats F) → F → ℕ → F × ℕ
  sum_velocity [] sum n = (sum, n)
  sum_velocity ((h, sn) ∷ rest) sum n =
      if lt (zero_f fl) sn.velocity_bytes_per_day
      then sum_velocity rest (add sum sn.velocity_bytes_per_day) (n + 1)
      else sum_velocity rest sum n

  average : F × ℕ → F
  average (sum, zero) = zero_f fl
  average (sum, suc n) = div sum (of_int (pos (suc n)))

  -- Go ranges over the map in an order of its own, and a sum of floats depends on it.
  unfoldable pub global_avg_from_stats : List (Hash × SnapshotStats F) → F
  unfolding sum_velocity average
  global_avg_from_stats by = average (sum_velocity (s.ranged by) (zero_f fl) 0)

  -- `total += f.Contribution`.
  unfoldable pub total_of : List (Factor F) → F → F
  total_of [] total = total
  total_of (f ∷ fs) total = total_of fs (add total f.contribution)

  unfoldable pub score_with_prefetched :
      ScoringTorrent
      → SnapshotStats F
      → F
      → List TrackerRow
      → List LinkedMedia
      → Policies
      → Time
      → Result (Breakdown F)
  score_with_prefetched t snaps global_avg rows linked (defaults, by_host) now =
      let trackers = tracker_views_from_rows rows in
      let alive = any_tracker_alive trackers in
      let policy = tracker_policy_for fl trackers defaults by_host in
      let factors = eval_factors fl t snaps global_avg trackers s.cfg policy alive now in
      let reasons = evaluate_exclusions s.simple_fold t linked s.qb s.arrs in
      ok record {
        hash = t.hash;
        score = total_of factors (zero_f fl);
        is_private = t.is_private;
        any_tracker_alive = alive;
        excluded = not (is_empty reasons);
        exclusion_reasons = reasons;
        factors = factors;
        computed_at = now;
      }

  -- `scoreInputs`, which reads the clock once.
  unfoldable pub score_inputs :
      ScoringTorrent → SnapshotStats F → F → Policies → Time → Result (Breakdown F)
  score_inputs t snaps global_avg policies now = do
    rows ← within (codes "loading trackers: ") (s.store.list_trackers t.hash)
    linked ← within (codes "loading linked media: ") (s.store.linked_media_for_hash t.hash)
    score_with_prefetched t snaps global_avg rows linked policies now

  pub row_of : Breakdown F → Result Text → Result (ScoreRow F)
  row_of b (err e) = err (record e { message = codes "marshalling factors: " ++ e.message })
  row_of b (ok payload) = ok record {
    hash = b.hash;
    score = b.score;
    is_private = b.is_private;
    any_tracker_alive = b.any_tracker_alive;
    excluded = b.excluded;
    exclusion_reasons = join b.exclusion_reasons (codes ",");
    factors_json = payload;
    computed_at = b.computed_at;
    name = [];
  }

  unfoldable pub breakdown_to_row : Breakdown F → Result (ScoreRow F)
  unfolding row_of
  breakdown_to_row b = row_of b (s.marshal b.factors)

  -- `for k, v := range seed { by[k] = v }`.
  put_all :
      List (Hash × SnapshotStats F) → List (Hash × SnapshotStats F) → List (Hash × SnapshotStats F)
  put_all by [] = by
  put_all by ((k, v) ∷ rest) = put_all (put by k v) rest

  unfoldable pub compute_global_avg_velocity : Time → List (Hash × SnapshotStats F) → Result F
  unfolding put_all
  compute_global_avg_velocity now seed = do
    by ← s.store.scoring_snapshot_stats_all now
    ok (global_avg_from_stats (put_all by seed))

  unfoldable pub persist : Breakdown F → Option Error
  persist b = elim (breakdown_to_row b) [ err e ↦ some e | ok row ↦ s.store.upsert_score row ]

  -- `ScoreOne`: an error of a read, or the verdict with the error of `persist`. The clock is read at
  -- the start and in `scoreInputs`.
  unfoldable pub score_one : Hash → Result (Breakdown F × Option Error)
  unfolding persist
  score_one h = do
    t ← s.store.get_torrent_for_scoring h
    snaps ← within (codes "loading snapshot stats: ") (s.store.scoring_snapshot_stats h (s.now 0))
    global_avg ← compute_global_avg_velocity (s.now 0) ((t.hash, snaps) ∷ [])
    policies ← load_scoring_policies
    b ← score_inputs t snaps global_avg policies (s.now 1)
    ok (b, persist b)

  -- What the second loop of `ScoreAll` keeps: `rows` and `stats`.
  abbrev pub no_stats : ScoreAllStats
  no_stats = record { scored = 0; excluded = 0; errors = 0; duration = pos 0 }

  pub failed_one : ScoreAllStats → ScoreAllStats
  failed_one stats = record stats { errors = stats.errors + 1 }

  pub scored_one : Breakdown F → ScoreAllStats → ScoreAllStats
  scored_one b stats = record stats {
    scored = stats.scored + 1;
    excluded = if b.excluded then stats.excluded + 1 else stats.excluded;
  }

  -- What the two bulk reads of pass 1 and the batched joins found.
  pub record Prefetched : Type 0 where
    pub stats_by_hash : List (Hash × SnapshotStats F)
    pub trackers_by_hash : List (Hash × List TrackerRow)
    pub linked_by_hash : List (Hash × List LinkedMedia)
    pub policies : Policies

  abbrev pub zero_stats : SnapshotStats F
  zero_stats = record {
    seeders_avg_7d = zero_f fl;
    velocity_bytes_per_day = zero_f fl;
    latest_ratio = zero_f fl;
  }

  -- The verdict of pass 2 on one torrent.
  unfoldable pub verdict : Prefetched → ScoringTorrent → Time → Result (Breakdown F)
  verdict p t now =
      score_with_prefetched t (or_zero zero_stats (find p.stats_by_hash t.hash))
        (global_avg_from_stats p.stats_by_hash) (or_zero [] (find p.trackers_by_hash t.hash))
        (or_zero [] (find p.linked_by_hash t.hash)) p.policies now

  abbrev pub Tally : Type 0
  Tally = ScoreAllStats × List (ScoreRow F)

  pub add_row : Breakdown F → Result (ScoreRow F) → Tally → Tally
  unfolding failed_one scored_one
  add_row b (err e) (stats, rows) = (failed_one stats, rows)
  add_row b (ok row) (stats, rows) = (scored_one b stats, rows ++ row ∷ [])

  pub add_verdict : Result (Breakdown F) → Tally → Tally
  unfolding add_row
  add_verdict (err e) (stats, rows) = (failed_one stats, rows)
  add_verdict (ok b) tally = add_row b (breakdown_to_row b) tally

  pub unless_cancelled : Option Error → Tally → Tally × Option Error → Tally × Option Error
  unless_cancelled (some e) tally rest = (tally, some e)
  unless_cancelled none tally rest = rest

  -- The second loop from the torrent at index `i` on; an error is the context's.
  pub score_rows : Prefetched → ℕ → List ScoringTorrent → Tally → Tally × Option Error
  unfolding add_verdict unless_cancelled
  score_rows p i [] tally = (tally, none)
  score_rows p i (t ∷ ts) tally =
      let rest = score_rows p (i + 1) ts (add_verdict (verdict p t (s.now (i + 1))) tally) in
      unless_cancelled (s.cancelled i) tally rest

  unfoldable pub prefetch : Result Prefetched
  prefetch = do
    stats ←
        within (codes "prefetch snapshot stats: ") (s.store.scoring_snapshot_stats_all (s.now 0))
    trackers ← within (codes "prefetch trackers: ") s.store.list_trackers_all
    linked ← within (codes "prefetch linked media: ") s.store.linked_media_all
    policies ← load_scoring_policies
    ok record {
      stats_by_hash = stats;
      trackers_by_hash = trackers;
      linked_by_hash = linked;
      policies = policies;
    }

  -- What `ScoreAll` returns, and the rows that it hands to `UpsertScores`, if it gets there.
  pub record ScoreAllResult : Type 0 where
    pub stats : ScoreAllStats
    pub error : Option Error
    pub upserted : Option (List (ScoreRow F))

  pub finished : Tally → Time → Option Error → ScoreAllResult
  finished (stats, rows) end_time (some e) = record {
    stats = stats;
    error = some (record e { message = codes "persisting scores: " ++ e.message });
    upserted = some rows;
  }
  finished (stats, rows) end_time none = record {
    stats = record stats { duration = sub_time end_time (s.now 0) };
    error = none;
    upserted = some rows;
  }

  pub write_rows : ℕ → Tally × Option Error → ScoreAllResult
  unfolding finished
  write_rows n ((stats, rows), some e) = record { stats = stats; error = some e; upserted = none }
  write_rows n ((stats, rows), none) =
      finished (stats, rows) (s.now (n + 1)) (s.store.upsert_scores rows)

  pub failed_early : Error → ScoreAllResult
  failed_early e = record { stats = no_stats; error = some e; upserted = none }

  pub with_prefetched : List ScoringTorrent → Result Prefetched → ScoreAllResult
  unfolding write_rows failed_early score_rows
  with_prefetched ts (err e) = failed_early e
  with_prefetched ts (ok p) = write_rows (length ts) (score_rows p 0 ts (no_stats, []))

  pub with_torrents : Result (List ScoringTorrent) → ScoreAllResult
  unfolding with_prefetched failed_early prefetch
  with_torrents (err e) = failed_early e
  with_torrents (ok ts) = with_prefetched ts prefetch

  unfoldable pub score_all : ScoreAllResult
  unfolding with_torrents
  score_all = with_torrents s.store.list_torrents_for_scoring
