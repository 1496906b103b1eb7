-- ===== src/Tests/Passing.antt =====
-- The exclusions and the scoring pass.
use triagearr.Base.{◌≡◌, refl, [], ◌∷◌, true, false, not, ◌&&◌, ◌||◌, none, any, is_empty}
use triagearr.Base.Text.{codes, text_eq, to_lower_byte}
use triagearr.Types.{ok}
use triagearr.Scorer.Factors.{ScoringTorrent}
use triagearr.Scorer.Tags.{split_tags}
use triagearr.Scorer.Exclusions.Reasons.{evaluate_exclusions-any}
use triagearr.Scorer.Exclusions.{
  ArrsConfig, TorrentClientInstanceConfig, LinkedMedia, evaluate_exclusions, contains_fold,
  equal_fold, has_excluded_tag, index_arr_tags_exclude, excluded_tags,
}
use triagearr.Scorer.Pass.{Scorer, Prefetched, score_all, prefetch, load_scoring_policies}
use triagearr.Scorer.Pass.Totals.{Passes, score_all-Passes, score_all-ends}
use triagearr.Tests.Values.{whole, hash_a}
use triagearr.Tests.Scoring.{grab, stats, config, defaults}

abbrev client : TorrentClientInstanceConfig
client = record { category_exclude = codes "Keep" ∷ []; tags_exclude = codes "seed" ∷ [] }

abbrev arrs : ArrsConfig
arrs = record { tags_exclude = λ k. codes "gold" ∷ [] }

abbrev film : LinkedMedia
film = record { arr_type = codes "radarr"; media_id = 3; tags = codes "new, Gold" }

abbrev tagged : ScoringTorrent
tagged = record grab { category = codes "keep"; tags = codes " , SEED" }

reasons :
    evaluate_exclusions to_lower_byte tagged (film ∷ []) client arrs
    ≡ codes "qbit_category:keep" ∷ codes "qbit_tag:SEED" ∷ codes "arr_tag:radarr:Gold" ∷ []
unfolding evaluate_exclusions contains_fold equal_fold split_tags index_arr_tags_exclude
    excluded_tags text_eq
reasons = refl

evaluate_exclusions-any_example :
    not (is_empty (evaluate_exclusions to_lower_byte tagged (film ∷ []) client arrs)) ≡ (
      false
      || ((true && contains_fold to_lower_byte (codes "Keep" ∷ []) (codes "keep"))
          || (any (contains_fold to_lower_byte (codes "seed" ∷ [])) (split_tags (codes " , SEED"))
              || any (has_excluded_tag to_lower_byte arrs) (film ∷ []))))
evaluate_exclusions-any_example =
    evaluate_exclusions-any to_lower_byte tagged (film ∷ []) client arrs

abbrev scorer : Scorer whole
scorer = record {
  cfg = config;
  qb = client;
  arrs = arrs;
  store = record {
    list_torrents_for_scoring = ok (grab ∷ tagged ∷ []);
    get_torrent_for_scoring = λ h. ok grab;
    scoring_snapshot_stats = λ h t. ok stats;
    scoring_snapshot_stats_all = λ t. ok ((hash_a, stats) ∷ []);
    list_trackers = λ h. ok [];
    list_trackers_all = ok [];
    linked_media_for_hash = λ h. ok [];
    linked_media_all = ok [];
    get_scoring_defaults = ok defaults;
    list_tracker_policies = ok [];
    upsert_score = λ row. none;
    upsert_scores = λ rows. none;
  };
  now = λ n. n;
  cancelled = λ n. none;
  ranged = λ by. by;
  marshal = λ fs. ok [];
  simple_fold = to_lower_byte;
}

abbrev fetched : Prefetched whole scorer
fetched = record {
  stats_by_hash = (hash_a, stats) ∷ [];
  trackers_by_hash = [];
  linked_by_hash = [];
  policies = (defaults, []);
}

score_all-Passes_example : Passes whole scorer 2 (score_all whole scorer)
score_all-Passes_example = score_all-Passes whole scorer (grab ∷ tagged ∷ []) refl

score_all-ends_example : (score_all whole scorer).error ≡ none
unfolding prefetch load_scoring_policies
score_all-ends_example =
    score_all-ends whole scorer (grab ∷ tagged ∷ []) fetched refl refl (λ n. refl) (λ rows. refl)
