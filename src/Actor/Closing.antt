-- ===== src/Actor/Closing.antt =====
-- How often a candidate's action is opened and closed.
use triagearr.Base.{
  ℕ, ◌+◌, ◌≡◌, ◌∙◌, refl, sym, ap, append_assoc, append-nil, inl, inr, List, [], ◌∷◌, ◌++◌, Bool,
  true, false, Option, none, some, arith, All,
}
use triagearr.Types.{Hash, Error, Result, ok, err, RunItem, Link, ActionStatus}
use triagearr.Actor.World.{
  Event, action_inserted, action_finished, client_deleted, Trace, Env, M, Does, Does-after,
  Does-bind, Does-weaken,
}
use triagearr.Actor.Quiet.{is_quiet, Quiet, Attempts, IsAttempt, retry-Does}
use triagearr.Actor.Fanout.{FannedOut, fanout_arr-FannedOut}
use triagearr.Actor.Sweep.{Checked, check_nlink-Checked}
use triagearr.Actor.Calls.{
  audit, insert_action, links_by_hash, finish_action, forget_torrent, client_delete,
}
use triagearr.Actor.{
  delete_opts, finish, forget_reaped, after_delete, after_nlink, after_fanout, with_links,
  with_action, process_candidate, new_action,
}

module _ {F : Type 0} where
  abbrev pub is_insert : Event F → ℕ
  is_insert (action_inserted a r) = 1
  is_insert _ = 0

  -- The action that an event closes.
  abbrev pub finishes : Event F → List ℕ
  finishes (action_finished id s f r) = id ∷ []
  finishes _ = []

  -- How many actions a trace asked for, and which it closed.
  unfoldable pub opened : Trace F → ℕ
  opened [] = 0
  opened (e ∷ ext) = is_insert e + opened ext

  unfoldable pub closed : Trace F → List ℕ
  closed [] = []
  closed (e ∷ ext) = finishes e ++ closed ext

  pub opened-nil : (ext : Trace F) → ext ≡ [] → opened ext ≡ 0
  unfolding opened
  opened-nil ext e = rw e refl

  pub opened-one : (e : Event F) → opened (e ∷ []) ≡ is_insert e
  unfolding opened
  opened-one e = omega arith

  pub opened-append : (xs ys : Trace F) → opened (xs ++ ys) ≡ opened xs + opened ys
  unfolding opened
  opened-append [] ys = omega arith
  opened-append (e ∷ xs) ys = omega (arith, opened-append xs ys)

  pub closed-append : (xs ys : Trace F) → closed (xs ++ ys) ≡ closed xs ++ closed ys
  unfolding closed
  closed-append [] ys = refl
  closed-append (e ∷ xs) ys =
      ap (λ (l : List ℕ). finishes e ++ l) (closed-append xs ys)
      ∙ sym (append_assoc (finishes e) (closed xs) (closed ys))

  abbrev pub Counts : ℕ → List ℕ → Trace F → Type 0
  Counts n m ext = (opened ext ≡ n) × (closed ext ≡ m)

  Counts-append :
      (n k : ℕ) (m l : List ℕ) (xs ys : Trace F)
      → Counts n m xs
      → Counts k l ys
      → Counts (n + k) (m ++ l) (xs ++ ys)
  Counts-append n k m l xs ys a b =
      let parts = closed-append xs ys in
      (
        omega (arith, opened-append xs ys, a.0, b.0),
        parts ∙ ap (λ (x : List ℕ). x ++ closed ys) a.1 ∙ ap (λ (x : List ℕ). m ++ x) b.1,
      )

  quiet-Counts : (e : Event F) → is_quiet e ≡ true → (is_insert e ≡ 0) × (finishes e ≡ [])
  unfolding is_quiet
  quiet-Counts (action_inserted a r) q = cc
  quiet-Counts (action_finished id s f r) q = cc
  quiet-Counts _ q = (refl, refl)

  Quiet-Counts : (ext : Trace F) → Quiet ext → Counts 0 [] ext
  unfolding opened closed
  Quiet-Counts [] q = (refl, refl)
  Quiet-Counts (e ∷ ext) q =
      let here = quiet-Counts e q.0 in
      let ih = Quiet-Counts ext q.1 in
      let (i, j) = here in
      let (more, none_closed) = ih in (omega (arith, i, more), rw j none_closed)

  attempts-Counts :
      (event : Option Error → Event F) (ext : Trace F)
      → ((r : Option Error) → (is_insert (event r) ≡ 0) × (finishes (event r) ≡ []))
      → All (IsAttempt event) ext
      → Counts 0 [] ext
  unfolding opened closed
  attempts-Counts event [] h a = (refl, refl)
  attempts-Counts event (e ∷ ext) h (inl (d, g), a) =
      let ih = attempts-Counts event ext h a in
      let i = ap is_insert g in let j = ap finishes g in (omega (arith, i, ih.0), rw j ih.1)
  attempts-Counts event (e ∷ ext) h (inr (r, g), a) =
      let ih = attempts-Counts event ext h a in
      let i = ap is_insert g in
      let j = ap finishes g ∙ (h r).1 in (omega (arith, i, ih.0, (h r).0), rw j ih.1)

module _ {F : Type 0} (w : Env F) (item : RunItem F) where
  abbrev Closes : ℕ → Option Error → Trace F → Type 0
  Closes id r ext = Counts 0 (id ∷ []) ext

  -- One event, and then what `n` and `m` count.
  after-Counts :
      {A : Type 0} (n : ℕ) (m : List ℕ) (o : A × Trace F) (e : Event F) (tr : Trace F)
      → Does o (e ∷ tr) (λ b. Counts n m)
      → Does o tr (λ b. Counts (is_insert e + n) (m ++ finishes e))
  unfolding opened closed
  after-Counts n m o e tr d = Does-after o e tr _ (
      Does-weaken o _ (λ b. Counts n m) _ d
        (λ b more p. (
          omega (arith, opened-append more (e ∷ []), p.0),
          closed-append more (e ∷ [])
              ∙ ap (λ (l : List ℕ). l ++ (finishes e ++ [])) p.1
              ∙ ap (λ (l : List ℕ). m ++ l) (append-nil (finishes e)),
        )))

  bind-Closes :
      {A : Type 0} (id : ℕ) (o : A × Trace F) (k : A → M F (Option Error)) (tr : Trace F)
      (P : A → Trace F → Type 0)
      → ((a : A) (ext : Trace F) → P a ext → Counts 0 [] ext)
      → Does o tr P
      → ((a : A) (s : Trace F) → Does (k a s) s (Closes id))
      → Does (k o.0 o.1) tr (Closes id)
  bind-Closes id o k tr P z d cont = Does-bind o k tr P (Closes id) d (λ a ext p.
      Does-weaken _ _ (Closes id) _ (cont a (ext ++ tr))
        (λ b more q. Counts-append 0 0 (id ∷ []) [] more ext q (z a ext p)))

  finish-Closes :
      (id : ℕ) (s : ActionStatus) (f : ℕ) (x : Option Error) (tr : Trace F)
      → Does (finish w id s f x tr) tr (Closes id)
  unfolding finish finish_action opened closed
  finish-Closes id s f x tr = (_, _ ∷ [], refl, (refl, refl))

  forget_reaped-Counts :
      (h : Hash) (r : Option Error) (tr : Trace F)
      → Does (forget_reaped w h r tr) tr (λ b. Counts 0 [])
  unfolding forget_reaped forget_torrent opened closed
  forget_reaped-Counts h none tr = (_, _ ∷ [], refl, (refl, refl))
  forget_reaped-Counts h (some x) tr = (_, [], refl, (refl, refl))

  after_delete-Closes :
      (id : ℕ) (r : Option Error) (tr : Trace F) → Does (after_delete w id item r tr) tr (Closes id)
  unfolding after_delete audit finish finish_action
  after_delete-Closes id none tr =
      after-Counts 0 (id ∷ []) _ _ tr
        (after-Counts 0 [] _ _ (_ ∷ tr) (forget_reaped-Counts item.torrent_hash _ (_ ∷ _ ∷ tr)))
  after_delete-Closes id (some x) tr =
      after-Counts 0 (id ∷ []) _ _ tr (finish-Closes id _ _ _ (_ ∷ tr))

  after_nlink-Closes :
      (id : ℕ) (r : Result Bool) (tr : Trace F) → Does (after_nlink w id item r tr) tr (Closes id)
  unfolding after_nlink client_delete
  after_nlink-Closes id (err x) tr = finish-Closes id _ _ _ tr
  after_nlink-Closes id (ok true) tr = finish-Closes id _ _ _ tr
  after_nlink-Closes id (ok false) tr =
      bind-Closes id _ (after_delete w id item) tr
        (Attempts (client_deleted item.torrent_hash (delete_opts w)))
        (λ r ext a. attempts-Counts _ ext (λ x. (refl, refl)) a.0)
        (retry-Does w (client_delete w item.torrent_hash (delete_opts w)) _ (λ s. (_, refl)) tr)
        (after_delete-Closes id)

  after_fanout-Closes :
      (id : ℕ) (r : Option Error) (tr : Trace F) → Does (after_fanout w id item r tr) tr (Closes id)
  unfolding after_fanout
  after_fanout-Closes id (some x) tr = finish-Closes id _ _ _ tr
  after_fanout-Closes id none tr =
      bind-Closes id _ (after_nlink w id item) tr (Checked w item.torrent_hash)
        (λ r ext p. Quiet-Counts ext p.0) (check_nlink-Checked w id item.torrent_hash tr)
        (after_nlink-Closes id)

  with_links-Closes :
      (id : ℕ) (r : Result (List Link)) (tr : Trace F)
      → Does (with_links w id item r tr) tr (Closes id)
  unfolding with_links audit
  with_links-Closes id (err x) tr =
      after-Counts 0 (id ∷ []) _ _ tr (finish-Closes id _ _ _ (_ ∷ tr))
  with_links-Closes id (ok links) tr =
      bind-Closes id _ (after_fanout w id item) tr (FannedOut w links)
        (λ r ext p. Quiet-Counts ext p.0) (fanout_arr-FannedOut w id links tr)
        (after_fanout-Closes id)

  -- The action that the store inserted.
  abbrev pub inserted : Result ℕ → List ℕ
  inserted (ok id) = id ∷ []
  inserted (err e) = []

  with_action-Counts :
      (r : Result ℕ) (tr : Trace F) → Does (with_action w item r tr) tr (λ b. Counts 0 (inserted r))
  unfolding with_action links_by_hash opened closed
  with_action-Counts (err x) tr = (_, [], refl, (refl, refl))
  with_action-Counts (ok id) tr = after-Counts 0 (id ∷ []) _ _ tr (with_links-Closes id _ (_ ∷ tr))

  -- A candidate asks once for an action to be inserted. If the store inserts it, then the action with
  -- the id that the store gave is closed exactly once, and no other is; and else none is closed.
  pub process_candidate-Counts :
      (run_id : ℕ) (tr : Trace F)
      → Does (process_candidate w run_id item tr) tr (λ r ext.
        (opened ext ≡ 1)
        × (closed ext ≡ inserted (w.insert_action tr (new_action w run_id item (w.now tr)))))
  unfolding process_candidate insert_action
  process_candidate-Counts run_id tr =
      Does-weaken _ tr
        (λ b. Counts 1 (inserted (w.insert_action tr (new_action w run_id item (w.now tr))) ++ []))
        _ (after-Counts 0 _ _ _ tr (with_action-Counts _ (_ ∷ tr)))
        (λ b more p. (p.0, p.1 ∙ append-nil _))
