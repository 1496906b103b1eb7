-- ===== src/Server/RunRequests.antt =====
-- internal/server/handlers_runs.go: runs that a request asks for, stops or reads. The answers to the
-- calls of one request are given; what it does to the outside is a list of effects, oldest first. Log
-- lines and the text of errors are left out.
pub mod Balanced
use triagearr.Base.{
  ℕ, zero, suc, List, [], ◌∷◌, ◌++◌, map, Bool, true, false, not, ◌&&◌, ◌||◌, Option, none, some,
  if◌then◌else◌, is_empty, is_some,
}
use triagearr.Base.Int.{ℤ, pos, negsuc}
use triagearr.Base.Text.{Text, text_eq, codes}
use triagearr.Types.{
  Hash, Time, Error, Result, ok, err, Run, RunItem, RunTrigger, http, RunMode, RunStopReason,
}
use triagearr.Gate.{resolve_run_mode}
use triagearr.Decider.{RunPlan, Volume}
use triagearr.DiskWatcher.{is_live_mode}

-- `postRunRequest`, or why there is none.
pub data PostRunBody : Type 0 where
  no_body not_decoded : PostRunBody
  decoded : Text → PostRunBody

-- What `GetRun` returns; `no_rows` is `sql.ErrNoRows`.
pub data GetRun (F : Type 0) : Type 0 where
  found : Run F → List (RunItem F) → GetRun F
  no_rows : GetRun F
  get_run_failed : Error → GetRun F

-- The engine snapshot and what the calls of one request return; nothing is a nil error. `path_id` is
-- the id as `strconv.ParseInt` reads it.
pub record RunAnswers (F : Type 0) : Type 0 where
  pub path_id : Option ℤ
  pub volume : Volume F
  pub daemon_live : Bool
  pub has_actor : Bool
  pub plan : Result (RunPlan F)
  pub now : Time
  pub try_acquire : Bool
  pub insert_run : Run F → Result ℕ
  pub insert_run_items : ℕ → List (RunItem F) → Option Error
  pub get_run : ℕ → GetRun F
  pub execute : ℕ → Option Error
  pub mark_run_status : ℕ → Text → Option Error
  pub request_stop : ℕ → Bool

pub data RunEffect (F : Type 0) : Type 0 where
  acquired released cancelled : RunEffect F
  run_inserted : Run F → Result ℕ → RunEffect F
  items_inserted : ℕ → List (RunItem F) → Option Error → RunEffect F
  armed launched : ℕ → RunEffect F
  executed : ℕ → Option Error → RunEffect F
  status_marked : ℕ → Text → Option Error → RunEffect F
  stop_requested : ℕ → Bool → RunEffect F

pub record RunItemResponse (F : Type 0) : Type 0 where
  pub rank : ℕ
  pub torrent_hash : Hash
  pub torrent_name : Text
  pub score : F
  pub size_bytes : ℕ
  pub would_free_bytes : ℕ

pub record RunResponse (F : Type 0) : Type 0 where
  pub run_id : ℕ
  pub triggered_by : RunTrigger
  pub triggered_at : Time
  pub mode : RunMode
  pub free_pct_at_fire : F
  pub target_free_pct : F
  pub estimated_freed_bytes : ℕ
  pub stop_reason : Option RunStopReason
  pub status : Text
  pub candidates : List (RunItemResponse F)

-- A response: an error with its status, a run with its status, or a preview.
pub data Reply (F : Type 0) : Type 0 where
  failed : ℕ → Reply F
  run_reply : ℕ → RunResponse F → Reply F
  preview : ℕ → Option RunStopReason → List (RunItemResponse F) → Reply F

module _ {F : Type 0} where
  item_response : RunItem F → RunItemResponse F
  item_response it = record {
    rank = it.rank;
    torrent_hash = it.torrent_hash;
    torrent_name = it.torrent_name;
    score = it.score;
    size_bytes = it.size_bytes;
    would_free_bytes = it.would_free_bytes;
  }

  unfoldable pub build_run_items : List (RunItem F) → List (RunItemResponse F)
  unfolding item_response
  build_run_items items = map item_response items

  unfoldable pub build_response : Run F → List (RunItem F) → RunResponse F
  build_response r items = record {
    run_id = r.id;
    triggered_by = r.triggered_by;
    triggered_at = r.triggered_at;
    mode = r.mode;
    free_pct_at_fire = r.free_pct_at_fire;
    target_free_pct = r.target_free_pct;
    estimated_freed_bytes = r.estimated_freed_bytes;
    stop_reason = r.stop_reason;
    status = r.status;
    candidates = build_run_items items;
  }

-- `parseIDPath`; nothing is the response 400.
unfoldable pub parse_id_path : Option ℤ → Option ℕ
parse_id_path none = none
parse_id_path (some (negsuc n)) = none
parse_id_path (some (pos zero)) = none
parse_id_path (some (pos (suc n))) = some (suc n)

module _ {F : Type 0} (a : RunAnswers F) where
  -- A handler's response and effects.
  abbrev pub Handled : Type 0
  Handled = Reply F × List (RunEffect F)

  abbrev pub preceded : List (RunEffect F) → Handled → Handled
  preceded es (r, more) = (r, es ++ more)

  -- `executeRunAsync`, on its own goroutine: the deferred calls run last to first.
  async_failed : ℕ → Option Error → List (RunEffect F)
  async_failed id none = []
  async_failed id (some e) =
      status_marked id (codes "aborted") (a.mark_run_status id (codes "aborted")) ∷ []

  unfoldable pub execute_run_async : ℕ → List (RunEffect F)
  unfolding async_failed
  execute_run_async id =
      executed id (a.execute id) ∷ async_failed id (a.execute id) ++ released ∷ cancelled ∷ []

  -- The response of `handlePostRun`, from the run as it is read again.
  reread : Run F → List (RunItem F) → ℕ → GetRun F → Reply F
  reread run items id (found r is) = run_reply 200 (build_response r is)
  reread run items id no_rows = run_reply 200 (build_response (record run { id = id }) items)
  reread run items id (get_run_failed e) =
      run_reply 200 (build_response (record run { id = id }) items)

  -- `InsertRunItems` has returned. Nothing releases the slot after the handoff.
  items_stored : Bool → Run F → RunPlan F → ℕ → Option Error → Handled
  unfolding reread
  items_stored live run p id (some e) = (failed 500, if live then released ∷ [] else [])
  items_stored live run p id none =
      (reread run p.items id (a.get_run id), if live then armed id ∷ launched id ∷ [] else [])

  -- `InsertRun` has returned.
  id_given : Bool → Run F → RunPlan F → Result ℕ → Handled
  unfolding items_stored
  id_given live run p (err e) = (failed 500, if live then released ∷ [] else [])
  id_given live run p (ok id) =
      let r = a.insert_run_items id p.items in
      preceded (items_inserted id p.items r ∷ []) (items_stored live run p id r)

  pub http_run : RunMode → Bool → RunPlan F → Run F
  http_run mode live p = record {
    id = 0;
    triggered_by = http;
    triggered_at = a.now;
    mode = mode;
    free_pct_at_fire = p.free_pct_at_fire;
    target_free_pct = a.volume.target_free_percent;
    estimated_freed_bytes = p.estimated_freed_bytes;
    stop_reason = p.stop_reason;
    status = if live then codes "pending" else codes "completed";
  }

  persisted : Bool → Run F → RunPlan F → Handled
  unfolding id_given
  persisted live run p =
      let r = a.insert_run run in preceded (run_inserted run r ∷ []) (id_given live run p r)

  -- Whether the run acts, and with it whether the slot is asked for.
  slot_guarded : Bool → RunMode → RunPlan F → Handled
  unfolding persisted
  slot_guarded false mode p = persisted false (http_run mode false p) p
  slot_guarded true mode p =
      if a.try_acquire
      then preceded (acquired ∷ []) (persisted true (http_run mode true p) p)
      else (failed 409, [])

  abbrev pub mode_of : Text → RunMode
  mode_of requested = resolve_run_mode a.daemon_live http (text_eq requested (codes "live"))

  plan_made : Text → Result (RunPlan F) → Handled
  unfolding slot_guarded
  plan_made requested (err e) = (failed 500, [])
  plan_made requested (ok p) =
      slot_guarded (is_live_mode (mode_of requested) && a.has_actor) (mode_of requested) p

  requested_run : Text → Handled
  unfolding plan_made
  requested_run requested =
      if is_empty a.volume.path then (failed 400, []) else plan_made requested a.plan

  -- `handlePostRun`. What `launched` starts is `execute_run_async`.
  unfoldable pub handle_post_run : PostRunBody → Handled
  unfolding requested_run
  handle_post_run no_body = requested_run []
  handle_post_run not_decoded = (failed 400, [])
  handle_post_run (decoded mode) = requested_run mode

  -- `handleStopRun`.
  stopped : ℕ → Run F → List (RunItem F) → Bool → Handled
  stopped id run items false = (failed 409, stop_requested id false ∷ [])
  stopped id run items true =
      (run_reply 202 (build_response run items), stop_requested id true ∷ [])

  is_in_progress : Run F → Bool
  is_in_progress run = text_eq run.status (codes "pending") || text_eq run.status (codes "running")

  stop_found : ℕ → GetRun F → Handled
  unfolding stopped is_in_progress
  stop_found id no_rows = (failed 404, [])
  stop_found id (get_run_failed e) = (failed 500, [])
  stop_found id (found run items) =
      if is_in_progress run then stopped id run items (a.request_stop id) else (failed 409, [])

  with_path_id : (ℕ → Handled) → Option ℕ → Handled
  with_path_id f none = (failed 400, [])
  with_path_id f (some id) = f id

  unfoldable pub handle_stop_run : Handled
  unfolding stop_found with_path_id
  handle_stop_run = with_path_id (λ id. stop_found id (a.get_run id)) (parse_id_path a.path_id)

  -- `handlePreviewRun`.
  previewed : Result (RunPlan F) → Handled
  previewed (err e) = (failed 500, [])
  previewed (ok p) = (preview p.estimated_freed_bytes p.stop_reason (build_run_items p.items), [])

  unfoldable pub handle_preview_run : Handled
  unfolding previewed
  handle_preview_run = if is_empty a.volume.path then (failed 400, []) else previewed a.plan

  -- `handleGetRun`.
  read_run : GetRun F → Handled
  read_run no_rows = (failed 404, [])
  read_run (get_run_failed e) = (failed 500, [])
  read_run (found run items) = (run_reply 200 (build_response run items), [])

  unfoldable pub handle_get_run : Handled
  unfolding with_path_id read_run
  handle_get_run = with_path_id (λ id. read_run (a.get_run id)) (parse_id_path a.path_id)
