-- ===== src/Server/Accounts/Changes.antt =====
-- The requests that change the account keep the same.
use triagearr.Base.{
  ℕ, ◌≤◌, ◌≡◌, ◌∙◌, refl, ap, inl, inr, List, [], ◌∷◌, ◌++◌, Bool, true, false, not, Option, none,
  some, arith, ◌==◌, length, Bool-cases,
}
use triagearr.Base.Text.{Text, text_eq}
use triagearr.Base.Space.{trim_space}
use triagearr.Types.{Error, Result, ok, err}
use triagearr.Auth.{AuthUser, AuthDb, insert_auth_user, delete_auth_user}
use triagearr.Auth.Password.{
  Resolved, Resolution, resolved, unresolved, too_short, internal, resolve,
}
use triagearr.Auth.Tables.{Inserted, Joined, insert_auth_user-Joined}
use triagearr.Server.Access.{
  user_by_id, insert_user, update_password, delete_user, ServerState, Host, Call, Verdict, refused,
  admitted, auth_enabled_ttl, auth_enabled, invalidate_auth_state,
}
use triagearr.Server.Access.Admission.{auth_enabled-Checks}
use triagearr.Server.Accounts.{
  Outcome, EnableRequest, ChangePasswordRequest, valid_username, known_user, issue_session, created,
  create_user, enable_resolved, enable_named, enable_checked, handle_auth_enable, delete_account,
  confirmed, handle_auth_disable, set_password, change_resolved, handle_auth_change_password,
  behind_auth,
}
use triagearr.Server.Accounts.Fit.{
  IsFit, length-select-le, update-Fit, enabled-Fit, issue_session-Fit, with_issued-Fit,
}

module _ (h : Host) (c : Call) where
  -- The account is added where there was none.
  created-Fit :
      (name : Text) (r : Resolved) (o : Option AuthDb) (s : ServerState)
      → Inserted (Joined s.db) o
      → s.db.users ≡ []
      → IsFit s
      → IsFit (created h c name r o s).1
  unfolding created invalidate_auth_state
  created-Fit name r none s k nil f = f
  created-Fit name r (some db) s (u, grown) nil f =
      let one : db.users ≡ u ∷ [] = grown ∙ ap (λ us. us ++ u ∷ []) nil in
      with_issued-Fit h c _
        (issue_session h c c.new_user_id (invalidate_auth_state (record s { db = db })))
        (issue_session-Fit h c c.new_user_id (invalidate_auth_state (record s { db = db }))
          ((λ e. inr refl), let n = ap (λ (us : List AuthUser). length us) one in omega (arith, n)))

  create_user-Fit :
      (e : Option Error) (name : Text) (r : Resolved) (s : ServerState)
      → s.db.users ≡ []
      → IsFit s
      → IsFit (create_user h c e name r s).1
  unfolding create_user
  create_user-Fit (some e) name r s nil f = f
  create_user-Fit none name r s nil f =
      created-Fit name r (insert_auth_user name r.hash (c.now 7) c.new_user_id s.db) s
        (insert_auth_user-Joined name r.hash (c.now 7) c.new_user_id s.db) nil f

  enable_resolved-Fit :
      (name : Text) (r : Resolution) (s : ServerState)
      → s.db.users ≡ []
      → IsFit s
      → IsFit (enable_resolved h c name r s).1
  unfolding enable_resolved
  enable_resolved-Fit name (unresolved too_short) s nil f = f
  enable_resolved-Fit name (unresolved (internal e)) s nil f = f
  enable_resolved-Fit name (resolved r) s nil f =
      create_user-Fit (c.fault insert_user) name r s nil f

  enable_checked-Fit :
      (req : Option EnableRequest) (out : Result Bool × ServerState)
      → IsFit out.1
      → (out.0 ≡ ok false → out.1.db.users ≡ [])
      → IsFit (enable_checked h c req out).1
  unfolding enable_checked enable_named
  enable_checked-Fit req (err e, s) f nil = f
  enable_checked-Fit req (ok true, s) f nil = f
  enable_checked-Fit none (ok false, s) f nil = f
  enable_checked-Fit (some req) (ok false, s) f nil =
      elim (Bool-cases (valid_username (trim_space req.username))) [
        | inr bad ↦ simp bad f
        | inl good ↦ simp good (
            enable_resolved-Fit (trim_space req.username)
              (resolve h.hash_password c.random_password req.password) s (nil refl) f)
      ]

  pub enable-Fit :
      (req : Option EnableRequest) (s : ServerState)
      → auth_enabled_ttl ≤ c.now 0
      → IsFit s
      → IsFit (handle_auth_enable h c req s).1
  unfolding handle_auth_enable
  enable-Fit req s l f =
      let (same, k, nil) = auth_enabled-Checks c s l f.0 in
      enable_checked-Fit req (auth_enabled c s) (enabled-Fit h c s l f)
        (λ e. ap (λ (d : AuthDb). d.users) same ∙ nil e)

  delete_account-Fit :
      (e : Option Error) (uid : ℕ) (s : ServerState)
      → IsFit s
      → IsFit (delete_account h c e uid s).1
  unfolding delete_account delete_auth_user invalidate_auth_state
  delete_account-Fit (some e) uid s f = f
  delete_account-Fit none uid s f = (
    (λ e. inr refl),
    let n = length-select-le (λ u. not (u.id == uid)) s.db.users in omega (arith, n, f.1),
  )

  confirmed-Fit :
      (password : Text) (uid : ℕ) (u : Option AuthUser) (next : Outcome) (s : ServerState)
      → IsFit s
      → IsFit next.1
      → IsFit (confirmed h c password uid u next s).1
  unfolding confirmed
  confirmed-Fit password uid none next s f k = f
  confirmed-Fit password uid (some u) next s f k =
      elim (Bool-cases (h.compare_hash u.password_hash password)) [
        | inr wrong ↦ simp wrong f
        | inl right ↦ simp right k
      ]

  pub disable-Fit :
      (req : Option Text) (user : Option ℕ) (s : ServerState)
      → IsFit s
      → IsFit (handle_auth_disable h c req user s).1
  unfolding handle_auth_disable
  disable-Fit none user s f = f
  disable-Fit (some password) none s f = f
  disable-Fit (some password) (some uid) s f =
      confirmed-Fit password uid (known_user h c (c.fault user_by_id) uid s) _ s f
        (delete_account-Fit (c.fault delete_user) uid s f)

  set_password-Fit :
      (e : Option Error) (uid : ℕ) (r : Resolved) (s : ServerState)
      → IsFit s
      → IsFit (set_password h c e uid r s).1
  unfolding set_password
  set_password-Fit (some e) uid r s f = f
  set_password-Fit none uid r s f = update-Fit uid r.hash (c.now 7) s f

  change_resolved-Fit :
      (current : Text) (uid : ℕ) (r : Resolution) (s : ServerState)
      → IsFit s
      → IsFit (change_resolved h c current uid r s).1
  unfolding change_resolved
  change_resolved-Fit current uid (unresolved too_short) s f = f
  change_resolved-Fit current uid (unresolved (internal e)) s f = f
  change_resolved-Fit current uid (resolved r) s f = elim (Bool-cases (text_eq current r.plain)) [
    | inl same ↦ simp same f
    | inr other ↦ simp other (set_password-Fit (c.fault update_password) uid r s f)
  ]

  pub change-Fit :
      (req : Option ChangePasswordRequest) (user : Option ℕ) (s : ServerState)
      → IsFit s
      → IsFit (handle_auth_change_password h c req user s).1
  unfolding handle_auth_change_password
  change-Fit none user s f = f
  change-Fit (some req) none s f = f
  change-Fit (some req) (some uid) s f =
      confirmed-Fit req.current uid (known_user h c (c.fault user_by_id) uid s) _ s f (
        change_resolved-Fit req.current uid (resolve h.hash_password c.random_password req.new) s f)

  pub behind_auth-Fit :
      (handler : Option ℕ → ServerState → Outcome)
      → ((user : Option ℕ) (s : ServerState) → IsFit s → IsFit (handler user s).1)
      → (out : Verdict × ServerState) → IsFit out.1
      → IsFit (behind_auth h c handler out).1
  unfolding behind_auth
  behind_auth-Fit handler k (refused n, s) f = f
  behind_auth-Fit handler k (admitted user, s) f = k user s f
