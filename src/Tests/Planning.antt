-- ===== src/Tests/Planning.antt =====
-- The Decider.
use triagearr.Base.{ℕ, ◌≡◌, refl, inl, inr, List, [], ◌∷◌, true, false, some, arith, All}
use triagearr.Base.Int.{ℤ, pos, negsuc}
use triagearr.Base.Words.{add64, le64, lt64}
use triagearr.Base.Text.{codes, text_eq, has_prefix, trim_right}
use triagearr.Types.{Hash, ok, DiskUsage, RunItem, target_reached, no_more_candidates}
use triagearr.Decider.{
  ScoreRow, TorrentBasic, Volume, Source, RunPlan, plan, needed_bytes, by_hash, nlink_of, has_hash,
  in_volume, judge,
}
use triagearr.Decider.Budget.{candidates, total}
use triagearr.Decider.Complete.{IsIn}
use triagearr.Decider.Eligible.{IsElected}
use triagearr.Decider.Plan.{need_of, ElectsPrefix, plan-elects, plan-IsIn, plan-IsElected}
use triagearr.Tests.Values.{whole, hash_a}

abbrev data_volume : Volume ℤ
data_volume = record { name = codes "media"; path = codes "/data/"; target_free_percent = pos 20 }

abbrev full_at : ℤ → DiskUsage ℤ
full_at free = record {
  path = codes "/data";
  timestamp = 0;
  total_bytes = 10000;
  used_bytes = 9000;
  free_bytes = 1000;
  free_percent = free;
}

abbrev row : Hash → ℤ → ScoreRow ℤ
row h score = record {
  hash = h;
  score = score;
  is_private = true;
  any_tracker_alive = true;
  excluded = false;
  exclusion_reasons = [];
  factors_json = [];
  computed_at = 0;
  name = h;
}

abbrev scores : List (ScoreRow ℤ)
scores = row hash_a (pos 40) ∷ row (98 ∷ []) (negsuc 9999) ∷ []

abbrev torrents : List TorrentBasic
torrents =
    record { hash = hash_a; save_path = codes "/data/tv"; size = 700 }
    ∷ record { hash = 98 ∷ []; save_path = codes "/data/tv"; size = 600 }
    ∷ []

abbrev links : List (Hash × ℕ)
links = (hash_a, 2) ∷ (98 ∷ [], 1) ∷ []

abbrev source : ℤ → Source ℤ
source free = record {
  list_scores = λ b. ok scores;
  list_torrents_basic = ok torrents;
  latest_disk_usage = ok (some (full_at free));
  max_nlink_by_hashes = λ hs. ok links;
  hashes_with_arr_imports = ok (hash_a ∷ []);
}

sizes :
    total whole torrents
      (codes "/data/")
      links
      (hash_a ∷ [])
      (candidates whole torrents (codes "/data/") links (hash_a ∷ []) scores)
    ≡ 1300
unfolding total candidates judge by_hash text_eq in_volume trim_right has_prefix nlink_of has_hash
    lt64
sizes = refl

need_10 : need_of whole data_volume (full_at (pos 10)) ≡ 1000
unfolding needed_bytes
need_10 = refl

plan-elects_example :
    (q : RunPlan ℤ) × (plan whole (source (pos 10)) data_volume ≡ ok q)
    × ElectsPrefix whole torrents
        (codes "/data/")
        links
        (hash_a ∷ [])
        1000
        (candidates whole torrents (codes "/data/") links (hash_a ∷ []) scores)
        q
unfolding needed_bytes total candidates judge by_hash text_eq in_volume trim_right has_prefix
    nlink_of has_hash lt64
plan-elects_example =
    plan-elects whole (source (pos 10)) data_volume (full_at (pos 10)) scores torrents links
      (hash_a ∷ []) refl refl refl refl refl (omega arith) (omega arith) (omega arith)

abbrev item : ℕ → Hash → ℤ → ℕ → RunItem ℤ
item rank h score size = record {
  run_id = 0;
  rank = rank;
  torrent_hash = h;
  torrent_name = h;
  score = score;
  size_bytes = size;
  would_free_bytes = size;
}

-- 1000 bytes are needed: the first candidate does not free enough, so the vetoed one is elected.
abbrev both : RunPlan ℤ
both = record {
  volume = data_volume;
  free_pct_at_fire = pos 10;
  estimated_freed_bytes = 1300;
  stop_reason = some target_reached;
  items = item 0 hash_a (pos 40) 700 ∷ item 1 (98 ∷ []) (negsuc 9999) 600 ∷ [];
  filtered_cross_seed = 0;
}

plan-both : plan whole (source (pos 10)) data_volume ≡ ok both
unfolding plan needed_bytes judge by_hash text_eq in_volume trim_right has_prefix nlink_of has_hash
    lt64 le64 add64
plan-both = refl

plan-IsElected_example :
    All (IsElected whole torrents (codes "/data/") links (hash_a ∷ [])) both.items
plan-IsElected_example =
    plan-IsElected whole (source (pos 10)) data_volume (full_at (pos 10)) scores torrents links
      (hash_a ∷ []) refl refl refl refl refl both plan-both

-- 2000 bytes are needed, more than both free.
abbrev all_of_them : RunPlan ℤ
all_of_them = record both { free_pct_at_fire = pos 0; stop_reason = some no_more_candidates }

plan-all_of_them : plan whole (source (pos 0)) data_volume ≡ ok all_of_them
unfolding plan needed_bytes judge by_hash text_eq in_volume trim_right has_prefix nlink_of has_hash
    lt64 le64 add64
plan-all_of_them = refl

-- The vetoed torrent is elected.
plan-IsIn_example :
    IsIn whole torrents
      (codes "/data/")
      links
      (hash_a ∷ [])
      (row (98 ∷ []) (negsuc 9999))
      (record { hash = 98 ∷ []; save_path = codes "/data/tv"; size = 600 })
      all_of_them.items
unfolding by_hash text_eq in_volume trim_right has_prefix nlink_of
plan-IsIn_example =
    plan-IsIn whole (source (pos 0)) data_volume (full_at (pos 0)) scores torrents links
      (hash_a ∷ []) refl refl refl refl refl all_of_them (row hash_a (pos 40) ∷ []) []
      (row (98 ∷ []) (negsuc 9999))
      (record { hash = 98 ∷ []; save_path = codes "/data/tv"; size = 600 }) plan-all_of_them refl
      refl (refl, refl, inr (1, refl, inl (omega arith)))
