-- ===== src/Scorer/Pass/Data.antt =====
-- internal/scorer/types.go and scorer.go: the records of the pass, Go's maps, and results.
use triagearr.Base.{ℕ, List, [], ◌∷◌, ◌++◌, Bool, Option, none, some, if◌then◌else◌}
use triagearr.Base.Int.{ℤ}
use triagearr.Base.Text.{Text, text_eq}
use triagearr.Types.{Hash, Time, Error, Result, ok, err, TrackerPolicy, ScoringDefaults}
use triagearr.Float.{Float}
use triagearr.Decider.{ScoreRow}
use triagearr.Scorer.Trackers.{TrackerRow}
use triagearr.Scorer.Factors.{Factor, ScoringTorrent, SnapshotStats, ScoringConfig}
use triagearr.Scorer.Exclusions.{LinkedMedia, ArrsConfig, TorrentClientInstanceConfig}

pub record Breakdown (F : Type 0) : Type 0 where
  pub hash : Hash
  pub score : F
  pub is_private : Bool
  pub any_tracker_alive : Bool
  pub excluded : Bool
  pub exclusion_reasons : List Text
  pub factors : List (Factor F)
  pub computed_at : Time

pub record ScoreAllStats : Type 0 where
  pub scored : ℕ
  pub excluded : ℕ
  pub errors : ℕ
  pub duration : ℤ

-- `strings.Join`.
unfoldable pub join : List Text → Text → Text
join [] sep = []
join (s ∷ []) sep = s
join (s ∷ t ∷ rest) sep = s ++ sep ++ join (t ∷ rest) sep

-- A Go map: the first entry of a key is its value.
module _ {A : Type 0} where
  unfoldable pub find : List (Hash × A) → Hash → Option A
  find [] h = none
  find ((k, a) ∷ rest) h = if text_eq k h then some a else find rest h

  -- `by[h] = a`.
  unfoldable pub put : List (Hash × A) → Hash → A → List (Hash × A)
  put [] h a = (h, a) ∷ []
  put ((k, b) ∷ rest) h a =
      let more = put rest h a in if text_eq k h then (k, a) ∷ rest else (k, b) ∷ more

  -- The value at a key; a missing key has the zero value.
  abbrev pub or_zero : A → Option A → A
  or_zero z none = z
  or_zero z (some a) = a

infixl 5 ◌>>=◌
abbrev pub ◌>>=◌ : {A B : Type 0} → Result A → (A → Result B) → Result B
ok a >>= f = f a
err e >>= f = err e

-- `fmt.Errorf("…: %w", err)` around a result.
abbrev pub within : {A : Type 0} → Text → Result A → Result A
within s (ok a) = ok a
within s (err e) = err (record e { message = s ++ e.message })

-- What the store's reads return.
pub record Store (F : Type 0) : Type 0 where
  pub list_torrents_for_scoring : Result (List ScoringTorrent)
  pub get_torrent_for_scoring : Hash → Result ScoringTorrent
  pub scoring_snapshot_stats : Hash → Time → Result (SnapshotStats F)
  pub scoring_snapshot_stats_all : Time → Result (List (Hash × SnapshotStats F))
  pub list_trackers : Hash → Result (List TrackerRow)
  pub list_trackers_all : Result (List (Hash × List TrackerRow))
  pub linked_media_for_hash : Hash → Result (List LinkedMedia)
  pub linked_media_all : Result (List (Hash × List LinkedMedia))
  pub get_scoring_defaults : Result (ScoringDefaults F)
  pub list_tracker_policies : Result (List (TrackerPolicy F))
  pub upsert_score : ScoreRow F → Option Error
  pub upsert_scores : List (ScoreRow F) → Option Error

-- `Scorer`; `ranged` is a map in the order in which the range of this call of `globalAvgFromStats`
-- goes over it, which Go picks at each call; `marshal` is `json.Marshal` on the factors, which refuses what is not a number.
pub record Scorer (fl : Float) : Type 0 where
  pub cfg : ScoringConfig fl.F
  pub qb : TorrentClientInstanceConfig
  pub arrs : ArrsConfig
  pub store : Store fl.F
  pub now : ℕ → Time
  pub cancelled : ℕ → Option Error
  pub ranged : List (Hash × SnapshotStats fl.F) → List (Hash × SnapshotStats fl.F)
  pub marshal : List (Factor fl.F) → Result Text
  pub simple_fold : ℕ → ℕ
