-- ===== src/Actor/Quiet.antt =====
-- The steps of a candidate that neither delete the torrent nor close the action, and what a retry
-- of one call leaves in the trace.
use triagearr.Base.{
  ℕ, ◌+◌, ◌≡◌, refl, sym, ap, ◌∙◌, ◌⊎◌, inl, inr, List, [], ◌∷◌, ◌++◌, Bool, true, false, Option,
  none, some, arith, All, Any, All-append, All-map,
}
use triagearr.Types.{Error, Link}
use triagearr.Retry.{default_config}
use triagearr.Retry.Bounds.{retry_do-Post}
use triagearr.Actor.World.{
  Event, run_read, status_marked, stop_marked, action_inserted, action_finished, audited,
  links_read, forgotten, path_read, files_read, client_deleted, media_deleted, statted, slept,
  Trace, Env, M, Does, Does-after, Does-weaken,
}
use triagearr.Actor.Calls.{retry, host, audit}
use triagearr.Actor.{mark_remaining}

-- The events of the *arr deletions, of the link check and of the audit log.
unfoldable pub is_quiet : {F : Type 0} → Event F → Bool
is_quiet (audited a) = true
is_quiet (links_read h r) = true
is_quiet (path_read h r) = true
is_quiet (files_read h r) = true
is_quiet (media_deleted k id o r) = true
is_quiet (statted p r) = true
is_quiet (slept d) = true
is_quiet (run_read id) = false
is_quiet (status_marked id s r) = false
is_quiet (stop_marked id r) = false
is_quiet (action_inserted a r) = false
is_quiet (action_finished id s f r) = false
is_quiet (forgotten h r) = false
is_quiet (client_deleted h o r) = false

module _ {F : Type 0} where
  abbrev pub Quiet : Trace F → Type 0
  Quiet = All (λ e. is_quiet e ≡ true)

  -- An event of a retried call: the call itself, or a wait.
  abbrev pub IsAttempt : (Option Error → Event F) → Event F → Type 0
  IsAttempt event e = ((d : ℕ) × (e ≡ slept d)) ⊎ ((r : Option Error) × (e ≡ event r))

  -- What a retried call leaves: attempts only, and the answer that it returned among them.
  abbrev pub Attempts : (Option Error → Event F) → Option Error → Trace F → Type 0
  Attempts event r ext = All (IsAttempt event) ext × Any (λ e. e ≡ event r) ext

module _ {F : Type 0} (w : Env F) where
  module _ (op : M F (Option Error)) (event : Option Error → Event F)
      (one : (s : Trace F) → (r : Option Error) × (op s ≡ (r, event r ∷ s))) where
    one_call : (s s1 : Trace F) (r : Option Error) → op s ≡ (r, s1) → s1 ≡ event r ∷ s
    one_call s s1 r e =
        let (r', g) = one s in
        let same : r ≡ r' = ap (λ (p : Option Error × Trace F). p.0) (sym e ∙ g) in
        ap (λ (p : Option Error × Trace F). p.1) (sym e ∙ g) ∙ ap (λ x. event x ∷ s) (sym same)

    abbrev After : Trace F → Trace F → Type 0
    After tr s = (ext : Trace F) × (s ≡ ext ++ tr) × All (IsAttempt event) ext

    abbrev Done : Trace F → Option Error → Trace F → Type 0
    Done tr r s = (ext : Trace F) × (s ≡ ext ++ tr) × Attempts event r ext

    call-Done : (tr s s1 : Trace F) (r : Option Error) → After tr s → op s ≡ (r, s1) → Done tr r s1
    call-Done tr s s1 r (ext, e, a) f =
        (event r ∷ ext, one_call s s1 r f ∙ ap (◌∷◌ (event r)) e, ((inr (r, refl), a), inl refl))

    wait-After :
        (tr s s1 : Trace F) (x : Error) (d : ℕ)
        → After tr s
        → op s ≡ (some x, s1)
        → After tr (slept d ∷ s1)
    wait-After tr s s1 x d (ext, e, a) f =
        let (ext1, e1, b) = call-Done tr s s1 (some x) (ext, e, a) f in
        (slept d ∷ ext1, ap (◌∷◌ (slept d)) e1, (inl (d, refl), b.0))

    -- An operation that is one call, retried.
    pub retry-Does : (tr : Trace F) → Does (retry w op tr) tr (Attempts event)
    unfolding retry
    retry-Does tr =
        let (ext, e, a) =
          retry_do-Post (host w) default_config op (λ n d s. After tr s) (Done tr)
            (λ n d s x p c. cc) (λ n d s s1 p f. call-Done tr s s1 none p f)
            (λ n d s s1 x p f. call-Done tr s s1 (some x) p f)
            (λ n d j s s1 x p f soft more q. wait-After tr s s1 x (d + j) p f) tr (omega arith)
            ([], refl, tt) in
        ((retry w op tr).0, ext, ap (λ (s : Trace F). ((retry w op tr).0, s)) e, a)

  pub mark_remaining-Quiet :
      (id : ℕ) (links : List Link) (tr : Trace F)
      → Does (mark_remaining w id links tr) tr (λ _ ext. Quiet ext)
  unfolding mark_remaining audit is_quiet
  mark_remaining-Quiet id [] tr = (tt, [], refl, tt)
  mark_remaining-Quiet id (lk ∷ rest) tr = Does-after _ _ tr _ (
      Does-weaken _ _ (λ _. Quiet) _ (mark_remaining-Quiet id rest _)
        (λ b more p. All-append _ more _ p (refl, tt)))

  pub Attempts-Quiet :
      (event : Option Error → Event F) (r : Option Error) (ext : Trace F)
      → ((x : Option Error) → is_quiet (event x) ≡ true)
      → Attempts event r ext
      → Quiet ext
  unfolding is_quiet
  Attempts-Quiet event r ext q a = All-map quiet ext a.0
    where
      quiet : (e : Event F) → IsAttempt event e → is_quiet e ≡ true
      quiet e (inl (d, h)) = rw h refl
      quiet e (inr (x, h)) = rw h (q x)
