-- ===== src/Actor.antt =====
-- internal/actor/actor.go: the destructive pipeline.
pub mod World
pub mod Calls
pub mod Quiet
pub mod Fanout
pub mod Sweep
pub mod Order
pub mod Capped
pub mod Closing
pub mod Runs
use triagearr.Base.{
  ℕ, zero, suc, ◌+◌, List, [], ◌∷◌, ◌++◌, Bool, true, false, not, ◌&&◌, ◌||◌, Option, none, some,
  ltb, leb, ◌==◌, if◌then◌else◌, is_empty,
}
use triagearr.Base.Text.{Text, codes}
use triagearr.Base.Words.{lt64}
use triagearr.Types.{
  Hash, Error, Result, ok, err, DeleteOpts, TorrentFile, Run, RunItem, Link, Action, ActionStatus,
  running, succeeded, aborted_arr_fail, failed_qbit, aborted_nlink_check, skipped_cross_seed,
  arr_delete, nlink_check, qbit_delete, outcome_ok, failed, skipped, not_attempted, RunMode,
  dry_run, live, other_mode, RunTrigger, disk_pressure, http, cli, other_trigger,
}
use World.{Env, M, pure, ◌>>=◌, ◌>>◌}
use Calls.{
  get_run, mark_run_status, mark_run_stopped, insert_action, finish_action, links_by_hash,
  forget_torrent, torrent_save_path, torrent_files, client_delete, delete_media_file, stat_nlink,
  sleep, stop_requested, retry, audit, failure, wrap, truncate, resolving_links, save_path_detail,
  qbit_files_detail, no_files_detail, no_deleter_detail, stat_detail, nlink_detail, swept_detail,
  not_actable, no_files,
}

-- `errors.Join(cause, fmt.Errorf("persisting terminal status …", err))`.
pub join_errors : Option Error → Error → Error
join_errors none e = e
join_errors (some c) e = record {
  transient = c.transient || e.transient;
  not_exist = c.not_exist || e.not_exist;
  message = c.message ++ 10 ∷ e.message;
}

pub finish_result : Option Error → Option Error → Option Error
finish_result cause none = cause
finish_result cause (some e) =
    some (join_errors cause (wrap (codes "persisting terminal status: ") e))

pub ended : Text → Option Error → Option Error
ended s none = none
ended s (some e) = some (wrap s e)

pub is_live : RunMode → Bool
is_live live = true
is_live dry_run = false
is_live (other_mode m) = false

pub is_allowed : RunTrigger → Bool
is_allowed disk_pressure = true
is_allowed http = true
is_allowed cli = true
is_allowed (other_trigger t) = false

module _ {F : Type 0} (w : Env F) where
  abbrev pub delete_opts : DeleteOpts
  delete_opts = record { delete_files = true; add_import_exclusion = w.add_import_exclusion }

  -- `Actor.finish`.
  pub finish : ℕ → ActionStatus → ℕ → Option Error → M F (Option Error)
  finish id status freed cause = do
    r ← finish_action w id status freed
    pure (finish_result cause r)

  pub mark_remaining : ℕ → List Link → M F (Unit {0})
  mark_remaining id [] = pure tt
  mark_remaining id (lk ∷ rest) =
      audit w id arr_delete not_attempted lk.arr_type lk.file_id [] >> mark_remaining id rest

  pub no_deleter : ℕ → Link → List Link → M F (Option Error)
  no_deleter id lk rest = do
    audit w id arr_delete skipped lk.arr_type lk.file_id no_deleter_detail
    mark_remaining id rest
    pure (some (not_actable lk.arr_type))

  -- The first pass of `fanoutArr`: every link has a deleter before anything is deleted.
  pub resolve_deleters : ℕ → List Link → M F (Option Error)
  resolve_deleters id [] = pure none
  resolve_deleters id (lk ∷ rest) =
      if w.has_deleter lk.arr_type then resolve_deleters id rest else no_deleter id lk rest

  -- What follows the deletion of one link; `next` deletes the links after it.
  pub after_link : ℕ → Link → List Link → M F (Option Error) → Option Error → M F (Option Error)
  after_link id lk rest next none =
      audit w id arr_delete outcome_ok lk.arr_type lk.file_id [] >> next
  after_link id lk rest next (some e) = do
    audit w id arr_delete failed lk.arr_type lk.file_id (truncate e.message)
    mark_remaining id rest
    pure (some (wrap (codes "arr delete: ") e))

  -- The second pass.
  pub delete_links : ℕ → List Link → M F (Option Error)
  delete_links id [] = pure none
  delete_links id (lk ∷ rest) =
      retry w (delete_media_file w lk.arr_type lk.file_id delete_opts)
      >>= after_link id lk rest (delete_links id rest)

  pub unless_failed : Option Error → M F (Option Error) → M F (Option Error)
  unless_failed none m = m
  unless_failed (some e) m = pure (some e)

  pub fanout_arr : ℕ → List Link → M F (Option Error)
  fanout_arr id links = resolve_deleters id links >>= λ r. unless_failed r (delete_links id links)

  pub nlink_failed : ℕ → Text → Error → M F (Result Bool)
  nlink_failed id detail e = audit w id nlink_check failed [] 0 detail >> pure (err e)

  -- What follows the stat of one file; `next` goes on with the counts of files checked and gone.
  pub after_stat : ℕ → Text → ℕ → ℕ → (ℕ → ℕ → M F (Result Bool)) → Result ℕ → M F (Result Bool)
  after_stat id path checked gone next (err e) =
      if e.not_exist
      then next checked (gone + 1)
      else nlink_failed id (truncate (stat_detail path e)) (wrap (codes "stat: ") e)
  after_stat id path checked gone next (ok n) =
      if lt64 1 n
      then audit w id nlink_check skipped [] 0 (truncate (nlink_detail n path)) >> pure (ok true)
      else next (checked + 1) gone

  pub sweep : ℕ → Text → List (TorrentFile F) → ℕ → ℕ → M F (Result Bool)
  sweep id save_path [] checked gone =
      audit w id nlink_check outcome_ok [] 0 (swept_detail checked gone) >> pure (ok false)
  sweep id save_path (f ∷ fs) checked gone =
      let path = w.join_path save_path f.name in
      stat_nlink w path >>= after_stat id path checked gone (sweep id save_path fs)

  pub with_files : ℕ → Hash → Text → Result (List (TorrentFile F)) → M F (Result Bool)
  with_files id h save_path (err e) =
      nlink_failed id (qbit_files_detail e) (wrap (codes "qbit files: ") e)
  with_files id h save_path (ok []) = nlink_failed id no_files_detail (no_files h)
  with_files id h save_path (ok (f ∷ fs)) = sweep id save_path (f ∷ fs) 0 0

  pub with_path : ℕ → Hash → Result Text → M F (Result Bool)
  with_path id h (err e) = nlink_failed id (save_path_detail e) (wrap (codes "save_path: ") e)
  with_path id h (ok save_path) = torrent_files w h >>= with_files id h save_path

  -- `checkNlink`: `ok true` is `skip`.
  pub check_nlink : ℕ → Hash → M F (Result Bool)
  check_nlink id h = torrent_save_path w h >>= with_path id h

  pub forget_reaped : Hash → Option Error → M F (Option Error)
  forget_reaped h (some e) = pure (some e)
  forget_reaped h none = forget_torrent w h >> pure none

  pub after_delete : ℕ → RunItem F → Option Error → M F (Option Error)
  after_delete id item (some e) =
      audit w id qbit_delete failed [] 0 (truncate e.message) >> finish id failed_qbit 0 (some e)
  after_delete id item none =
      audit w id qbit_delete outcome_ok [] 0 []
      >> (finish id succeeded item.size_bytes none >>= forget_reaped item.torrent_hash)

  pub after_nlink : ℕ → RunItem F → Result Bool → M F (Option Error)
  after_nlink id item (err e) = finish id aborted_nlink_check 0 (some e)
  after_nlink id item (ok true) = finish id skipped_cross_seed 0 none
  after_nlink id item (ok false) =
      retry w (client_delete w item.torrent_hash delete_opts) >>= after_delete id item

  pub after_fanout : ℕ → RunItem F → Option Error → M F (Option Error)
  after_fanout id item (some e) = finish id aborted_arr_fail 0 (some e)
  after_fanout id item none = check_nlink id item.torrent_hash >>= after_nlink id item

  pub with_links : ℕ → RunItem F → Result (List Link) → M F (Option Error)
  with_links id item (err e) =
      audit w id arr_delete failed [] 0 (resolving_links e) >> finish id aborted_arr_fail 0 (some e)
  with_links id item (ok links) = fanout_arr id links >>= after_fanout id item

  pub with_action : RunItem F → Result ℕ → M F (Option Error)
  with_action item (err e) = pure (some (wrap (codes "insert action: ") e))
  with_action item (ok id) = links_by_hash w item.torrent_hash >>= with_links id item

  pub new_action : ℕ → RunItem F → ℕ → Action
  new_action run_id item started = record {
    id = 0;
    run_id = run_id;
    rank = item.rank;
    torrent_hash = item.torrent_hash;
    torrent_name = item.torrent_name;
    started_at = started;
    finished_at = none;
    status = running;
    freed_bytes = 0;
  }

  -- `processCandidate`.
  pub process_candidate : ℕ → RunItem F → M F (Option Error)
  process_candidate run_id item tr =
      (insert_action w (new_action run_id item (w.now tr)) >>= with_action item) tr

  -- The pause after a candidate, unless it was the last one.
  pub pause : List (RunItem F) → M F (Unit {0})
  pause rest =
      if not (is_empty rest) && ltb 0 w.inter_action_delay
      then sleep w w.inter_action_delay
      else pure tt

  pub over_cap : ℕ → Bool
  over_cap i = ltb 0 w.max_deletions_per_run && leb w.max_deletions_per_run i

  -- One round of the loop of `Execute`; `next` goes on with the candidates after this one.
  pub round : ℕ → ℕ → RunItem F → List (RunItem F) → M F Bool → Bool → M F Bool
  round run_id i item rest next true = pure true
  round run_id i item rest next false =
      if over_cap i then pure false else process_candidate run_id item >> (pause rest >> next)

  -- The loop of `Execute` from index `i` on; the result is `stopped`.
  pub run_items : ℕ → ℕ → List (RunItem F) → M F Bool
  run_items run_id i [] = pure false
  run_items run_id i (item ∷ rest) =
      stop_requested w >>= round run_id i item rest (run_items run_id (i + 1) rest)

  pub close_run : ℕ → Bool → M F (Option Error)
  close_run run_id true = do
    r ← mark_run_stopped w run_id
    pure (ended (codes "actor: marking run stopped: ") r)
  close_run run_id false = do
    r ← mark_run_status w run_id (codes "completed")
    pure (ended (codes "actor: marking run completed: ") r)

  pub start_run : ℕ → List (RunItem F) → Option Error → M F (Option Error)
  start_run run_id items (some e) = pure (some (wrap (codes "actor: marking run running: ") e))
  start_run run_id items none = run_items run_id 0 items >>= close_run run_id

  pub with_run : ℕ → Result (Run F × List (RunItem F)) → M F (Option Error)
  with_run run_id (err e) = pure (some (wrap (codes "actor: loading run: ") e))
  with_run run_id (ok (run, items)) =
      if not (is_live run.mode)
      then pure none
      else (if not (is_allowed run.triggered_by)
          then pure (some (failure (codes "actor: trigger is not allowed to execute (ADR-0015)")))
          else (mark_run_status w run_id (codes "running") >>= start_run run_id items))

  -- `Execute`.
  pub execute : ℕ → M F (Option Error)
  execute run_id = get_run w run_id >>= with_run run_id
