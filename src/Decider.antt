-- ===== src/Decider.antt =====
-- internal/decider/decider.go: which torrents a run would delete.
pub mod Budget
pub mod Plan
pub mod Complete
pub mod Eligible
use triagearr.Base.{
  ℕ, zero, suc, ◌+◌, List, [], ◌∷◌, ◌++◌, map, Bool, true, false, not, ◌&&◌, ◌||◌, Option, none,
  some, ◌==◌, if◌then◌else◌, is_some,
}
use triagearr.Base.Int.{pos}
use triagearr.Base.Words.{add64, le64, lt64}
use triagearr.Base.Text.{Text, text_eq, has_prefix, trim_right, codes}
use triagearr.Types.{
  Hash, Time, Error, Result, ok, err, DiskUsage, RunItem, RunStopReason, target_reached,
  no_more_candidates,
}
use triagearr.Float.{Float}

-- `store.ScoreRow`, without the columns that only the API reads.
pub record ScoreRow (F : Type 0) : Type 0 where
  pub hash : Hash
  pub score : F
  pub is_private : Bool
  pub any_tracker_alive : Bool
  pub excluded : Bool
  pub exclusion_reasons : Text
  pub factors_json : Text
  pub computed_at : Time
  pub name : Text

-- `store.TorrentBasic`.
pub record TorrentBasic : Type 0 where
  pub hash : Hash
  pub save_path : Text
  pub size : ℕ

pub record Volume (F : Type 0) : Type 0 where
  pub name : Text
  pub path : Text
  pub target_free_percent : F

-- `Source`: what the Decider reads. The argument of `list_scores` is `IncludeExcluded`.
pub record Source (F : Type 0) : Type 0 where
  pub list_scores : Bool → Result (List (ScoreRow F))
  pub list_torrents_basic : Result (List TorrentBasic)
  pub latest_disk_usage : Result (Option (DiskUsage F))
  pub max_nlink_by_hashes : List Hash → Result (List (Hash × ℕ))
  pub hashes_with_arr_imports : Result (List Hash)

-- No stop reason is Go's empty string.
pub record RunPlan (F : Type 0) : Type 0 where
  pub volume : Volume F
  pub free_pct_at_fire : F
  pub estimated_freed_bytes : ℕ
  pub stop_reason : Option RunStopReason
  pub items : List (RunItem F)
  pub filtered_cross_seed : ℕ

-- `byHash`: a later row of the same hash replaces an earlier one.
unfoldable pub by_hash : List TorrentBasic → Hash → Option TorrentBasic
by_hash [] h = none
by_hash (t ∷ ts) h = elim (by_hash ts h) [
  | some u ↦ some u
  | none ↦ if text_eq t.hash h then some t else none
]

unfoldable pub nlink_of : List (Hash × ℕ) → Hash → Option ℕ
nlink_of [] h = none
nlink_of ((k, n) ∷ rest) h = if text_eq k h then some n else nlink_of rest h

unfoldable pub has_hash : List Hash → Hash → Bool
has_hash [] h = false
has_hash (k ∷ ks) h = text_eq k h || has_hash ks h

-- `strings.TrimRight(p, "/")`, and the test of a save path against the volume.
unfoldable pub in_volume : Text → Text → Bool
in_volume path save_path =
    let volume_path = trim_right path 47 in
    let sp = trim_right save_path 47 in
    text_eq sp volume_path || has_prefix sp (volume_path ++ 47 ∷ [])

abbrev pub max_allowed_nlink : ℕ
max_allowed_nlink = 2

-- What the guards of the loop say of one score row.
pub data Verdict : Type 0 where
  skip cross_seed : Verdict
  elect : TorrentBasic → Verdict

pub over_ceiling : Option ℕ → ℕ → Bool
over_ceiling none ceiling = false
over_ceiling (some n) ceiling = lt64 ceiling n

module _ (fl : Float) where
  open fl use {F, of_int, sub, mul, div, le, to_int64}

  unfoldable pub needed_bytes : ℕ → F → F → ℕ
  needed_bytes total_bytes free_pct target_pct =
      if le target_pct free_pct
      then 0
      else to_int64
          (div (mul (of_int (pos total_bytes)) (sub target_pct free_pct)) (of_int (pos 100)))

  -- The first loop: the hashes to ask the link counts of.
  pub scoped_hashes : List TorrentBasic → Text → List (ScoreRow F) → List Hash
  scoped_hashes torrents path [] = []
  scoped_hashes torrents path (sc ∷ rest) =
      let more = scoped_hashes torrents path rest in
      elim (by_hash torrents sc.hash) [
        | none ↦ more
        | some t ↦ if in_volume path t.save_path then sc.hash ∷ more else more
      ]

  module _ (torrents : List TorrentBasic) (path : Text) (max_nlink : List (Hash × ℕ))
      (arr_linked : List Hash) where
    pub judge_torrent : ScoreRow F → TorrentBasic → Verdict
    unfolding over_ceiling
    judge_torrent sc t =
        if not (in_volume path t.save_path)
        then skip
        else (if over_ceiling (nlink_of max_nlink sc.hash)
              (if has_hash arr_linked sc.hash then max_allowed_nlink else 1)
            then cross_seed
            else elect t)

    pub judge_known : ScoreRow F → Option TorrentBasic → Verdict
    unfolding judge_torrent
    judge_known sc none = skip
    judge_known sc (some t) = judge_torrent sc t

    -- The guards of the second loop, in their order.
    unfoldable pub judge : ScoreRow F → Verdict
    unfolding judge_known
    judge sc = judge_known sc (by_hash torrents sc.hash)

    pub run_item : ℕ → ScoreRow F → TorrentBasic → RunItem F
    run_item rank sc t = record {
      run_id = 0;
      rank = rank;
      torrent_hash = sc.hash;
      torrent_name = sc.name;
      score = sc.score;
      size_bytes = t.size;
      would_free_bytes = t.size;
    }

    pub with_item : ℕ → ScoreRow F → TorrentBasic → RunPlan F → RunPlan F
    unfolding run_item
    with_item rank sc t p = record p {
      items = p.items ++ run_item rank sc t ∷ [];
      estimated_freed_bytes = add64 p.estimated_freed_bytes t.size;
    }

    -- The rest of the loop's body; `next` is the rest of the loop.
    pub follow : ℕ → (ℕ → RunPlan F → RunPlan F) → Verdict → ScoreRow F → ℕ → RunPlan F → RunPlan F
    unfolding with_item
    follow need next skip sc rank p = next rank p
    follow need next cross_seed sc rank p =
        next rank (record p { filtered_cross_seed = p.filtered_cross_seed + 1 })
    follow need next (elect t) sc rank p =
        let q = with_item rank sc t p in
        if le64 need q.estimated_freed_bytes
        then record q { stop_reason = some target_reached }
        else next (rank + 1) q

    pub plan_loop : ℕ → List (ScoreRow F) → ℕ → RunPlan F → RunPlan F
    unfolding follow judge
    plan_loop need [] rank p = record p { stop_reason = some no_more_candidates }
    plan_loop need (sc ∷ rest) rank p = follow need (plan_loop need rest) (judge sc) sc rank p

  pub empty_plan : Volume F → F → RunPlan F
  empty_plan v free = record {
    volume = v;
    free_pct_at_fire = free;
    estimated_freed_bytes = 0;
    stop_reason = none;
    items = [];
    filtered_cross_seed = 0;
  }

  infixl 5 ◌>>=◌
  abbrev pub ◌>>=◌ : {A B : Type 0} → Result A → (A → Result B) → Result B
  ok a >>= f = f a
  err e >>= f = err e

  -- `fmt.Errorf("decider: no disk_usage snapshot recorded yet")`.
  abbrev no_snapshot : Error
  no_snapshot = record {
    transient = false;
    not_exist = false;
    message = codes "decider: no disk_usage snapshot recorded yet";
  }

  or_no_snapshot : Option (DiskUsage F) → Result (DiskUsage F)
  or_no_snapshot none = err no_snapshot
  or_no_snapshot (some d) = ok d

  elect_under : Source F → Volume F → DiskUsage F → ℕ → Result (RunPlan F)
  unfolding plan_loop scoped_hashes empty_plan
  elect_under src v snap need = do
    scores ← src.list_scores false
    torrents ← src.list_torrents_basic
    max_nlink ← src.max_nlink_by_hashes (scoped_hashes torrents v.path scores)
    arr_linked ← src.hashes_with_arr_imports
    ok (
        plan_loop torrents v.path max_nlink arr_linked need scores 0
          (empty_plan v snap.free_percent))

  -- `Decider.Plan`. An error keeps its cause, under a prefix that is not modelled.
  unfoldable pub plan : Source F → Volume F → Result (RunPlan F)
  unfolding elect_under or_no_snapshot empty_plan
  plan src v = do
    seen ← src.latest_disk_usage
    snap ← or_no_snapshot seen
    let need = needed_bytes snap.total_bytes snap.free_percent v.target_free_percent
    if need == 0
        then ok (record (empty_plan v snap.free_percent) { stop_reason = some target_reached })
        else elect_under src v snap need
