-- ===== src/Actor/Order.antt =====
-- The order of the pipeline: a torrent is deleted only after its *arr files and its link check.
use triagearr.Base.{
  ℕ, ◌≡◌, ◌≢◌, refl, sym, subst, ◌⊎◌, inl, inr, List, [], ◌∷◌, ◌++◌, Bool, true, false, Option,
  none, some, All, Any, All-map, Any-append_left, Any-append_right, append_assoc, append-nil,
}
use triagearr.Types.{
  Error, Result, ok, err, RunItem, Link, ActionStatus, succeeded, failed_qbit, aborted_arr_fail,
  aborted_nlink_check, skipped_cross_seed,
}
use triagearr.Actor.World.{
  Event, action_finished, links_read, forgotten, client_deleted, Trace, Env, M, Does, Does-after,
  Does-bind, Does-weaken,
}
use triagearr.Actor.Quiet.{is_quiet, Quiet, Attempts, IsAttempt, retry-Does}
use triagearr.Actor.Fanout.{Deleted, FannedOut, fanout_arr-FannedOut}
use triagearr.Actor.Sweep.{AllAlone, Checked, check_nlink-Checked}
use triagearr.Actor.Calls.{
  audit, insert_action, links_by_hash, finish_action, forget_torrent, client_delete,
}
use triagearr.Actor.{
  delete_opts, finish, forget_reaped, after_delete, after_nlink, after_fanout, with_links,
  with_action, process_candidate,
}

module _ {F : Type 0} (w : Env F) (item : RunItem F) where
  -- The links that the store reports were all deleted, and the files all seen alone.
  abbrev pub IsReady : Trace F → Type 0
  IsReady earlier =
      ((links : List Link) × Any (λ e. e ≡ links_read item.torrent_hash (ok links)) earlier
        × All (Deleted w earlier) links)
      × AllAlone w item.torrent_hash earlier

  -- The client confirmed the deletion.
  abbrev pub IsReaped : Trace F → Type 0
  IsReaped earlier = Any (λ e. e ≡ client_deleted item.torrent_hash (delete_opts w) none) earlier

  -- What must have happened before an event.
  abbrev pub IsDue : Event F → Trace F → Type 0
  IsDue (client_deleted h o r) earlier = (h ≡ item.torrent_hash) × IsReady earlier
  IsDue (forgotten h r) earlier = (h ≡ item.torrent_hash) × IsReaped earlier
  IsDue (action_finished id s freed r) earlier =
      ((s ≡ succeeded) × (freed ≡ item.size_bytes) × IsReaped earlier)
      ⊎ ((s ≢ succeeded) × (freed ≡ 0))
  IsDue _ earlier = Unit {0}

  abbrev pub IsOrdered : Trace F → Type 0
  IsOrdered [] = Unit {0}
  IsOrdered (e ∷ earlier) = IsDue e earlier × IsOrdered earlier

  quiet-IsDue : (e : Event F) (earlier : Trace F) → is_quiet e ≡ true → IsDue e earlier
  unfolding is_quiet
  quiet-IsDue (client_deleted h o r) earlier q = cc
  quiet-IsDue (forgotten h r) earlier q = cc
  quiet-IsDue (action_finished id s f r) earlier q = cc
  quiet-IsDue _ earlier q = tt

  Quiet-IsOrdered :
      (ext earlier : Trace F) → Quiet ext → IsOrdered earlier → IsOrdered (ext ++ earlier)
  Quiet-IsOrdered [] earlier q o = o
  Quiet-IsOrdered (e ∷ ext) earlier q o =
      (quiet-IsDue e (ext ++ earlier) q.0, Quiet-IsOrdered ext earlier q.1 o)

  IsReady-append : (more earlier : Trace F) → IsReady earlier → IsReady (more ++ earlier)
  IsReady-append more earlier ((links, read, gone), (dir, fs, p, f, ne, alone)) = (
    (
      links,
      Any-append_right _ more earlier read,
      All-map (λ l. Any-append_right _ more earlier) links gone,
    ),
    (
      dir,
      fs,
      Any-append_right _ more earlier p,
      Any-append_right _ more earlier f,
      ne,
      All-map (λ g. Any-append_right _ more earlier) fs alone,
    ),
  )

  AllAlone-append :
      (ext before : Trace F)
      → AllAlone w item.torrent_hash ext
      → AllAlone w item.torrent_hash (ext ++ before)
  AllAlone-append ext before (dir, fs, p, f, ne, alone) = (
    dir,
    fs,
    Any-append_left _ ext before p,
    Any-append_left _ ext before f,
    ne,
    All-map (λ g. Any-append_left _ ext before) fs alone,
  )

  -- Attempts to delete a torrent that is ready are in order.
  attempts-IsOrdered :
      (ext earlier : Trace F)
      → All (IsAttempt (client_deleted item.torrent_hash (delete_opts w))) ext
      → IsReady earlier
      → IsOrdered earlier
      → IsOrdered (ext ++ earlier)
  attempts-IsOrdered [] earlier a ready o = o
  attempts-IsOrdered (e ∷ ext) earlier (inl (d, h), a) ready o =
      (subst (λ x. IsDue x (ext ++ earlier)) (sym h) tt, attempts-IsOrdered ext earlier a ready o)
  attempts-IsOrdered (e ∷ ext) earlier (inr (r, h), a) ready o = (
    subst (λ x. IsDue x (ext ++ earlier)) (sym h) (refl, IsReady-append ext earlier ready),
    attempts-IsOrdered ext earlier a ready o,
  )

  -- The events since `tr`, given those of this candidate before.
  abbrev Continues : Trace F → Option Error → Trace F → Type 0
  Continues before r ext = IsOrdered (ext ++ before)

  after-Continues :
      (o : Option Error × Trace F) (e : Event F) (before tr : Trace F)
      → Does o (e ∷ tr) (Continues (e ∷ before))
      → Does o tr (Continues before)
  after-Continues o e before tr d = Does-after o e tr (Continues before) (
      Does-weaken o _ (Continues (e ∷ before)) _ d
        (λ b more p. subst IsOrdered (sym (append_assoc more (e ∷ []) before)) p))

  bind-Continues :
      {A : Type 0} (o : A × Trace F) (k : A → M F (Option Error)) (before tr : Trace F)
      (P : A → Trace F → Type 0)
      → Does o tr P
      → ((a : A) (ext : Trace F)
          → P a ext
          → Does (k a (ext ++ tr)) (ext ++ tr) (Continues (ext ++ before)))
      → Does (k o.0 o.1) tr (Continues before)
  bind-Continues o k before tr P d cont = Does-bind o k tr P (Continues before) d (λ a ext p.
      Does-weaken _ _ (Continues (ext ++ before)) _ (cont a ext p)
        (λ b more q. subst IsOrdered (sym (append_assoc more ext before)) q))

  -- An action that did not succeed frees nothing.
  finish-Continues :
      (id : ℕ) (s : ActionStatus) (x : Option Error) (before tr : Trace F)
      → s ≢ succeeded
      → IsOrdered before
      → Does (finish w id s 0 x tr) tr (Continues before)
  unfolding finish finish_action
  finish-Continues id s x before tr ne o = (_, _ ∷ [], refl, (inr (ne, refl), o))

  forget_reaped-Continues :
      (r : Option Error) (before tr : Trace F)
      → IsOrdered before
      → IsReaped before
      → Does (forget_reaped w item.torrent_hash r tr) tr (Continues before)
  unfolding forget_reaped forget_torrent
  forget_reaped-Continues none before tr o reaped = (_, _ ∷ [], refl, ((refl, reaped), o))
  forget_reaped-Continues (some x) before tr o reaped = (_, [], refl, o)

  after_delete-Continues :
      (id : ℕ) (r : Option Error) (before tr : Trace F)
      → IsOrdered before
      → (r ≡ none → IsReaped before)
      → Does (after_delete w id item r tr) tr (Continues before)
  unfolding after_delete audit finish finish_action
  after_delete-Continues id none before tr o reaped = after-Continues _ _ before tr (
      after-Continues _ _ (_ ∷ before) (_ ∷ tr) (
        forget_reaped-Continues _ (_ ∷ _ ∷ before) (_ ∷ _ ∷ tr)
          (inl (refl, refl, inr (reaped refl)), (tt, o)) (inr (inr (reaped refl)))))
  after_delete-Continues id (some x) before tr o reaped =
      after-Continues _ _ before tr
        (finish-Continues id failed_qbit (some x) (_ ∷ before) (_ ∷ tr) (λ e. cc) (tt, o))

  after_nlink-Continues :
      (id : ℕ) (r : Result Bool) (before tr : Trace F)
      → IsOrdered before
      → (r ≡ ok false → IsReady before)
      → Does (after_nlink w id item r tr) tr (Continues before)
  unfolding after_nlink client_delete
  after_nlink-Continues id (err x) before tr o ready =
      finish-Continues id aborted_nlink_check (some x) before tr (λ e. cc) o
  after_nlink-Continues id (ok true) before tr o ready =
      finish-Continues id skipped_cross_seed none before tr (λ e. cc) o
  after_nlink-Continues id (ok false) before tr o ready =
      bind-Continues _ (after_delete w id item) before tr
        (Attempts (client_deleted item.torrent_hash (delete_opts w)))
        (retry-Does w (client_delete w item.torrent_hash (delete_opts w)) _ (λ s. (_, refl)) tr)
        (λ r ext a.
          after_delete-Continues id r (ext ++ before) (ext ++ tr)
            (attempts-IsOrdered ext before a.0 (ready refl) o)
            (λ e. Any-append_left _ ext before (
              subst (λ x. Any (λ v. v ≡ client_deleted item.torrent_hash (delete_opts w) x) ext) e
                a.1)))

  after_fanout-Continues :
      (id : ℕ) (links : List Link) (r : Option Error) (before tr : Trace F)
      → IsOrdered before
      → Any (λ e. e ≡ links_read item.torrent_hash (ok links)) before
      → (r ≡ none → All (Deleted w before) links)
      → Does (after_fanout w id item r tr) tr (Continues before)
  unfolding after_fanout
  after_fanout-Continues id links (some x) before tr o read gone =
      finish-Continues id aborted_arr_fail (some x) before tr (λ e. cc) o
  after_fanout-Continues id links none before tr o read gone =
      bind-Continues _ (after_nlink w id item) before tr (Checked w item.torrent_hash)
        (check_nlink-Checked w id item.torrent_hash tr)
        (λ r ext p.
          after_nlink-Continues id r (ext ++ before) (ext ++ tr) (Quiet-IsOrdered ext before p.0 o)
            (λ e. (
              (
                links,
                Any-append_right _ ext before read,
                All-map (λ l. Any-append_right _ ext before) links (gone refl),
              ),
              AllAlone-append ext before (p.1 e),
            )))

  with_links-Continues :
      (id : ℕ) (r : Result (List Link)) (before tr : Trace F)
      → IsOrdered before
      → Does (with_links w id item r (links_read item.torrent_hash r ∷ tr)) tr (Continues before)
  unfolding with_links audit
  with_links-Continues id (err x) before tr o = after-Continues _ _ before tr (
      after-Continues _ _ (_ ∷ before) (_ ∷ tr) (
        finish-Continues id aborted_arr_fail (some x) (_ ∷ _ ∷ before) (_ ∷ _ ∷ tr) (λ e. cc)
          (tt, (tt, o))))
  with_links-Continues id (ok links) before tr o = after-Continues _ _ before tr (
      bind-Continues _ (after_fanout w id item) (_ ∷ before) (_ ∷ tr) (FannedOut w links)
        (fanout_arr-FannedOut w id links (_ ∷ tr))
        (λ r ext p.
          after_fanout-Continues id links r (ext ++ _ ∷ before) (ext ++ _ ∷ tr)
            (Quiet-IsOrdered ext (_ ∷ before) p.0 (tt, o))
            (Any-append_right _ ext (_ ∷ before) (inl refl))
            (λ e. All-map (λ l. Any-append_left _ ext (_ ∷ before)) links (p.1 e))))

  with_action-Continues :
      (r : Result ℕ) (before tr : Trace F)
      → IsOrdered before
      → Does (with_action w item r tr) tr (Continues before)
  unfolding with_action links_by_hash
  with_action-Continues (err x) before tr o = (_, [], refl, o)
  with_action-Continues (ok id) before tr o = with_links-Continues id _ before tr o

  -- Whatever the world answers, a candidate is processed to an end, and the events that it adds are
  -- in order. The client is asked to delete its torrent, and no other, only after the store listed
  -- its links, every link's file was deleted, and every file of the torrent, one at least, was seen
  -- to be gone or to have at most one hard link. Its torrent is forgotten, and an action recorded as
  -- succeeded with the item's size as freed, only after the client confirmed the deletion; any
  -- other status frees 0.
  pub process_candidate-IsOrdered :
      (run_id : ℕ) (tr : Trace F)
      → Does (process_candidate w run_id item tr) tr (λ r ext. IsOrdered ext)
  unfolding process_candidate insert_action
  process_candidate-IsOrdered run_id tr =
      Does-weaken _ tr (Continues []) _
        (after-Continues _ _ [] tr (with_action-Continues _ (_ ∷ []) (_ ∷ tr) (tt, tt)))
        (λ b more p. subst IsOrdered (append-nil more) p)
