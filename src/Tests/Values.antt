-- ===== src/Tests/Values.antt =====
-- Numbers, a volume and a world for the examples.
use triagearr.Base.{refl, [], ◌∷◌, ◌++◌, true, false, none, some, arith, if◌then◌else◌, length}
use triagearr.Base.Int.{ℤ, pos, ◌+ℤ◌, ◌-ℤ◌, ◌*ℤ◌, ltb_ℤ, leb_ℤ, quot, pos_part}
use triagearr.Base.Text.{Text, codes}
use triagearr.Types.{ok, Run, RunItem, Link, live, disk_pressure, target_reached}
use triagearr.Float.{Float, IsOrdered, HasUnit}
use triagearr.Actor.World.{Env}

-- Whole numbers in place of float64; a logarithm is one less than the number of digits, up to 2.
abbrev pub whole : Float
whole = record {
  F = ℤ;
  of_int = λ a. a;
  add = ◌+ℤ◌;
  sub = ◌-ℤ◌;
  mul = ◌*ℤ◌;
  div = λ a b. quot a (pos_part b);
  log10 = λ a. if ltb_ℤ a (pos 10) then pos 0 else (if ltb_ℤ a (pos 100) then pos 1 else pos 2);
  lt = ltb_ℤ;
  le = leb_ℤ;
  to_int64 = pos_part;
}

pub whole-IsOrdered : IsOrdered whole
whole-IsOrdered = record {
  lt_irrefl = λ a. ground arith;
  lt_asym = λ a b h. ground arith;
  not_lt_trans = λ a b c h k. ground arith;
}

pub whole-HasUnit : HasUnit whole
whole-HasUnit = record { zero_lt_zero = refl; one_lt_one = refl; one_lt_zero = refl }

abbrev pub hash_a : Text
hash_a = 97 ∷ []

abbrev pub item_a : RunItem ℤ
item_a = record {
  run_id = 1;
  rank = 0;
  torrent_hash = hash_a;
  torrent_name = 65 ∷ [];
  score = pos 40;
  size_bytes = 700;
  would_free_bytes = 700;
}

abbrev pub link_a : Link
link_a = record {
  arr_type = codes "radarr";
  file_id = 11;
  media_id = 3;
  download_id = hash_a;
  title_slug = [];
  dropped_path = [];
  imported_path = [];
  live_path = [];
  size = 700;
}

abbrev pub run_a : Run ℤ
run_a = record {
  id = 1;
  triggered_by = disk_pressure;
  triggered_at = 0;
  mode = live;
  free_pct_at_fire = pos 5;
  target_free_pct = pos 20;
  estimated_freed_bytes = 700;
  stop_reason = some target_reached;
  status = codes "completed";
}

-- Every call succeeds; the torrent has one file, left with one hard link.
abbrev pub calm : Env ℤ
calm = record {
  max_deletions_per_run = 5;
  inter_action_delay = 0;
  add_import_exclusion = true;
  has_deleter = λ k. true;
  join_path = λ a b. a ++ 47 ∷ b;
  now = length;
  rand = λ tr n. 0;
  stop_requested = λ tr. false;
  get_run = λ tr id. ok (run_a, item_a ∷ []);
  mark_run_status = λ tr id s. none;
  mark_run_stopped = λ tr id. none;
  insert_action = λ tr a. ok 1;
  finish_action = λ tr id s t f. none;
  links_by_hash = λ tr h. ok (link_a ∷ []);
  forget_torrent = λ tr h. none;
  torrent_save_path = λ tr h. ok (codes "/data");
  torrent_files = λ tr h. ok (record { name = 102 ∷ []; size = 700; progress = pos 1 } ∷ []);
  client_delete = λ tr h o. none;
  delete_media_file = λ tr k id o. none;
  stat_nlink = λ tr p. ok 1;
}
