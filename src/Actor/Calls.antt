-- ===== src/Actor/Calls.antt =====
-- The calls of the Actor, one event each, and the texts that it writes into the audit log.
use triagearr.Base.{ℕ, List, [], ◌∷◌, ◌++◌, Bool, false, Option, none, leb, if◌then◌else◌}
use triagearr.Base.Text.{Text, codes, decimal, take_bytes, byte_length}
use triagearr.Types.{
  Hash, Duration, Error, Result, DeleteOpts, TorrentFile, Run, RunItem, Link, Action, ActionStatus,
  AuditStep, AuditOutcome,
}
use triagearr.Retry.{Host, default_config, retry_do}
use triagearr.Actor.World.{
  run_read, status_marked, stop_marked, action_inserted, action_finished, audited, links_read,
  forgotten, path_read, files_read, client_deleted, media_deleted, statted, slept, Trace, Env, M,
}

module _ {F : Type 0} (w : Env F) where
  unfoldable pub get_run : ℕ → M F (Result (Run F × List (RunItem F)))
  get_run id tr = (w.get_run tr id, run_read id ∷ tr)

  unfoldable pub mark_run_status : ℕ → Text → M F (Option Error)
  mark_run_status id s tr = let r = w.mark_run_status tr id s in (r, status_marked id s r ∷ tr)

  unfoldable pub mark_run_stopped : ℕ → M F (Option Error)
  mark_run_stopped id tr = let r = w.mark_run_stopped tr id in (r, stop_marked id r ∷ tr)

  unfoldable pub insert_action : Action → M F (Result ℕ)
  insert_action a tr = let r = w.insert_action tr a in (r, action_inserted a r ∷ tr)

  -- `FinishAction`, at the clock's time.
  unfoldable pub finish_action : ℕ → ActionStatus → ℕ → M F (Option Error)
  finish_action id s freed tr =
      let r = w.finish_action tr id s (w.now tr) freed in (r, action_finished id s freed r ∷ tr)

  unfoldable pub links_by_hash : Hash → M F (Result (List Link))
  links_by_hash h tr = let r = w.links_by_hash tr h in (r, links_read h r ∷ tr)

  unfoldable pub forget_torrent : Hash → M F (Option Error)
  forget_torrent h tr = let r = w.forget_torrent tr h in (r, forgotten h r ∷ tr)

  unfoldable pub torrent_save_path : Hash → M F (Result Text)
  torrent_save_path h tr = let r = w.torrent_save_path tr h in (r, path_read h r ∷ tr)

  unfoldable pub torrent_files : Hash → M F (Result (List (TorrentFile F)))
  torrent_files h tr = let r = w.torrent_files tr h in (r, files_read h r ∷ tr)

  unfoldable pub client_delete : Hash → DeleteOpts → M F (Option Error)
  client_delete h o tr = let r = w.client_delete tr h o in (r, client_deleted h o r ∷ tr)

  unfoldable pub delete_media_file : Text → ℕ → DeleteOpts → M F (Option Error)
  delete_media_file k id o tr =
      let r = w.delete_media_file tr k id o in (r, media_deleted k id o r ∷ tr)

  unfoldable pub stat_nlink : Text → M F (Result ℕ)
  stat_nlink p tr = let r = w.stat_nlink tr p in (r, statted p r ∷ tr)

  unfoldable pub sleep : Duration → M F (Unit {0})
  sleep d tr = (tt, slept d ∷ tr)

  unfoldable pub stop_requested : M F Bool
  stop_requested tr = (w.stop_requested tr, tr)

  -- `retry.Do` on the shielded context, which is never cancelled.
  abbrev pub host : Host (Trace F)
  host = record { ctx_err = λ tr. none; rand = w.rand; sleep = λ d tr. slept d ∷ tr }

  unfoldable pub retry : M F (Option Error) → M F (Option Error)
  retry op = retry_do host default_config op

  -- `Actor.audit`: one row, whatever the store answers.
  unfoldable pub audit : ℕ → AuditStep → AuditOutcome → Text → ℕ → Text → M F (Unit {0})
  audit id step outcome arr_type file detail tr = (
    tt,
    audited (record {
      action_id = id;
      timestamp = w.now tr;
      step = step;
      outcome = outcome;
      arr_type = arr_type;
      arr_file_id = file;
      detail = detail;
    })
        ∷ tr,
  )

-- An error of the Actor's own, and one that wraps a cause.
abbrev pub failure : Text → Error
failure s = record { transient = false; not_exist = false; message = s }

unfoldable pub wrap : Text → Error → Error
wrap s e = record e { message = s ++ e.message }

-- `truncate`: 500 bytes and an ellipsis.
unfoldable pub truncate : Text → Text
truncate s = if leb (byte_length s) 500 then s else take_bytes 500 s ++ 0xe2 ∷ 0x80 ∷ 0xa6 ∷ []

unfoldable pub resolving_links : Error → Text
resolving_links e = codes "resolving links: " ++ e.message

unfoldable pub save_path_detail : Error → Text
save_path_detail e = codes "save_path: " ++ e.message

unfoldable pub qbit_files_detail : Error → Text
qbit_files_detail e = codes "qbit files: " ++ e.message

unfoldable pub no_files_detail : Text
no_files_detail = codes "qbit returned no files"

unfoldable pub no_deleter_detail : Text
no_deleter_detail = codes "instance act=false or no deleter"

unfoldable pub stat_detail : Text → Error → Text
stat_detail p e = codes "stat " ++ p ++ codes ": " ++ e.message

unfoldable pub nlink_detail : ℕ → Text → Text
nlink_detail n p = codes "nlink=" ++ decimal n ++ codes " " ++ p

unfoldable pub swept_detail : ℕ → ℕ → Text
swept_detail checked gone = codes "checked=" ++ decimal checked ++ codes " gone=" ++ decimal gone

unfoldable pub not_actable : Text → Error
not_actable kind = failure (codes "instance " ++ kind ++ codes " is not actable")

unfoldable pub no_files : Hash → Error
no_files h =
    failure
      (codes "qbit returned no files for hash " ++ h ++ codes "; refusing to delete unverified")
