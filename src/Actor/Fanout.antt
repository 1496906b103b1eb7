-- ===== src/Actor/Fanout.antt =====
-- The *arr fan-out: what its nil error promises.
use triagearr.Base.{
  ℕ, ◌≡◌, ◌≢◌, refl, inl, inr, List, [], ◌∷◌, ◌++◌, Option, none, some, All, Any, All-append,
  All-map, Any-append_left, Any-append_right, Bool-cases,
}
use triagearr.Types.{Error, Link}
use triagearr.Actor.Quiet.{
  is_quiet, Quiet, Attempts, retry-Does, mark_remaining-Quiet, Attempts-Quiet,
}
use triagearr.Actor.World.{
  media_deleted, Trace, Env, M, pure, ◌>>◌, Does, Does-after, Does-bind, Does-weaken,
}
use triagearr.Actor.Calls.{audit, delete_media_file}
use triagearr.Actor.{
  delete_opts, mark_remaining, no_deleter, resolve_deleters, after_link, delete_links,
  unless_failed, fanout_arr,
}

module _ {F : Type 0} (w : Env F) where
  -- The link's file was deleted by its *arr application.
  abbrev pub Deleted : Trace F → Link → Type 0
  Deleted ext lk = Any (λ e. e ≡ media_deleted lk.arr_type lk.file_id (delete_opts w) none) ext

  abbrev pub FannedOut : List Link → Option Error → Trace F → Type 0
  FannedOut links r ext = Quiet ext × (r ≡ none → All (Deleted ext) links)

  abbrev Aborted : Option Error → Trace F → Type 0
  Aborted r ext = Quiet ext × (r ≢ none)

  abort-Aborted :
      (id : ℕ) (rest : List Link) (x : Error) (tr : Trace F)
      → Does ((mark_remaining w id rest >> pure (some x)) tr) tr Aborted
  abort-Aborted id rest x tr =
      Does-bind (mark_remaining w id rest tr) (λ _. pure (some x)) tr (λ _. Quiet) Aborted
        (mark_remaining-Quiet w id rest tr) (λ a ext q. (some x, [], refl, (q, λ e. cc)))

  resolve_deleters-Quiet :
      (id : ℕ) (links : List Link) (tr : Trace F)
      → Does (resolve_deleters w id links tr) tr (λ r ext. Quiet ext)
  unfolding resolve_deleters no_deleter audit is_quiet
  resolve_deleters-Quiet id [] tr = (none, [], refl, tt)
  resolve_deleters-Quiet id (lk ∷ rest) tr = elim (Bool-cases (w.has_deleter lk.arr_type)) [
    | inl has ↦ rw has (resolve_deleters-Quiet id rest tr)
    | inr lacks ↦ rw lacks (
        Does-after _ _ tr _ (
          Does-weaken _ _ Aborted _ (abort-Aborted id rest _ _)
            (λ b more p. All-append _ more _ p.0 (refl, tt))))
  ]

  after_link-FannedOut :
      (id : ℕ) (lk : Link) (rest : List Link) (next : M F (Option Error)) (r : Option Error)
      (ext tr : Trace F)
      → Attempts (media_deleted lk.arr_type lk.file_id (delete_opts w)) r ext
      → ((s : Trace F) → Does (next s) s (FannedOut rest))
      → Does
          (after_link w id lk rest next r (ext ++ tr))
          (ext ++ tr)
          (λ b more. FannedOut (lk ∷ rest) b (more ++ ext))
  unfolding after_link audit is_quiet
  after_link-FannedOut id lk rest next none ext tr a ih = Does-after _ _ _ _ (
      Does-weaken _ _ (FannedOut rest) _ (ih _) (λ b more p. (
        All-append _ (more ++ _ ∷ []) ext (All-append _ more _ p.0 (refl, tt))
            (Attempts-Quiet w _ none ext (λ x. refl) a),
        λ e. (
          Any-append_right _ (more ++ _ ∷ []) ext a.1,
          All-map (λ l d. Any-append_left _ (more ++ _ ∷ []) ext (Any-append_left _ more _ d)) rest
              (p.1 e),
        ),
      )))
  after_link-FannedOut id lk rest next (some x) ext tr a ih = Does-after _ _ _ _ (
      Does-weaken _ _ Aborted _ (abort-Aborted id rest _ _) (λ b more p. (
        All-append _ (more ++ _ ∷ []) ext (All-append _ more _ p.0 (refl, tt))
            (Attempts-Quiet w _ (some x) ext (λ y. refl) a),
        λ e. absurd (p.1 e),
      )))

  delete_links-FannedOut :
      (id : ℕ) (links : List Link) (tr : Trace F)
      → Does (delete_links w id links tr) tr (FannedOut links)
  unfolding delete_links delete_media_file
  delete_links-FannedOut id [] tr = (none, [], refl, (tt, λ e. tt))
  delete_links-FannedOut id (lk ∷ rest) tr =
      Does-bind _ (after_link w id lk rest (delete_links w id rest)) tr
        (Attempts (media_deleted lk.arr_type lk.file_id (delete_opts w))) (FannedOut (lk ∷ rest))
        (retry-Does w (delete_media_file w lk.arr_type lk.file_id (delete_opts w)) _
          (λ s. (_, refl)) tr)
        (λ r ext a.
          after_link-FannedOut id lk rest (delete_links w id rest) r ext tr a
            (delete_links-FannedOut id rest))

  unless_failed-FannedOut :
      (id : ℕ) (links : List Link) (r : Option Error) (ext tr : Trace F)
      → Quiet ext
      → Does
          (unless_failed w r (delete_links w id links) (ext ++ tr))
          (ext ++ tr)
          (λ b more. FannedOut links b (more ++ ext))
  unfolding unless_failed
  unless_failed-FannedOut id links none ext tr q =
      Does-weaken _ _ (FannedOut links) _ (delete_links-FannedOut id links (ext ++ tr)) (λ b more p.
        (
          All-append _ more ext p.0 q,
          λ e. All-map (λ l d. Any-append_left _ more ext d) links (p.1 e),
        ))
  unless_failed-FannedOut id links (some x) ext tr q = (some x, [], refl, (q, λ e. cc))

  -- The fan-out deletes no torrent and closes no action; a nil error means that every link's file
  -- was deleted.
  pub fanout_arr-FannedOut :
      (id : ℕ) (links : List Link) (tr : Trace F)
      → Does (fanout_arr w id links tr) tr (FannedOut links)
  unfolding fanout_arr
  fanout_arr-FannedOut id links tr =
      Does-bind (resolve_deleters w id links tr) (λ r. unless_failed w r (delete_links w id links))
        tr (λ _. Quiet) (FannedOut links) (resolve_deleters-Quiet id links tr)
        (λ r ext q. unless_failed-FannedOut id links r ext tr q)
