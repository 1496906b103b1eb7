-- ===== src/Server/Accounts/Fit.antt =====
-- What every request keeps of the accounts and the cached flag: a sign-in and a sign-out.
use triagearr.Base.{
  ℕ, ◌+◌, ◌≤◌, ◌≡◌, refl, sym, ap, subst, inl, inr, List, [], ◌∷◌, map, Bool, true, false, Option,
  none, some, arith, ◌==◌, if◌then◌else◌, length, select, Bool-cases,
}
use triagearr.Base.Text.{Text}
use triagearr.Base.Space.{trim_space}
use triagearr.Types.{Time, Error, Result, ok, err}
use triagearr.Auth.{
  AuthUser, AuthDb, update_auth_password, insert_auth_session, delete_auth_session,
}
use triagearr.Auth.Tables.{Inserted, Opened, insert_auth_session-Opened}
use triagearr.Server.Access.{
  user_by_name, insert_session, delete_session, AuthStateCache, ServerState, Host, Call,
  session_ttl, auth_enabled_ttl, auth_enabled, resolve_session, auth,
}
use triagearr.Server.Access.Admission.{
  IsSound, auth_enabled-Checks, resolve_session-Resolves, auth-Guards,
}
use triagearr.Server.Accounts.{
  LoginRequest, status_with, status_enabled, stored, store_session, issue_with, issue_session,
  with_issued, found_user, login_as, login_enabled, handle_session_login, forget_token, log_out,
  Body,
}

abbrev pub IsFit : ServerState → Type 0
IsFit s = IsSound s.auth_state s.db.users × (length s.db.users ≤ 1)

Fit-same :
    (s t : ServerState) → t.db.users ≡ s.db.users → t.auth_state ≡ s.auth_state → IsFit s → IsFit t
Fit-same s t us st f =
    subst (λ (x : Option AuthStateCache × List AuthUser). IsSound x.0 x.1 × (length x.1 ≤ 1))
      (λ i. (sym st i, sym us i)) f

pub length-select-le : (p : AuthUser → Bool) (us : List AuthUser) → length (select p us) ≤ length us
length-select-le p [] = omega arith
length-select-le p (u ∷ us) = ground (arith, length-select-le p us)

length-map_users : (f : AuthUser → AuthUser) (us : List AuthUser) → length (map f us) ≡ length us
length-map_users f [] = refl
length-map_users f (u ∷ us) = omega (arith, length-map_users f us)

-- The flag stays sound as accounts change in place.
Sound-map :
    (k : Option AuthStateCache) (f : AuthUser → AuthUser) (us : List AuthUser)
    → IsSound k us
    → IsSound k (map f us)
Sound-map none f us h = tt
Sound-map (some k) f us h =
    λ e. elim (h e) [ inl nil ↦ inl (ap (map f) nil) | inr zero_value ↦ inr zero_value ]

pub update-Fit :
    (id : ℕ) (hash : Text) (now : Time) (s : ServerState)
    → IsFit s
    → IsFit (record s { db = update_auth_password id hash now s.db })
unfolding update_auth_password
update-Fit id hash now s f = (
  Sound-map s.auth_state _ s.db.users f.0,
  let n =
        length-map_users
          (λ (u : AuthUser).
            if u.id == id then record u { password_hash = hash; password_changed_at = now } else u)
          s.db.users in
      omega (arith, n, f.1),
)

pub Sound-nil : (k : Option AuthStateCache) → IsSound k []
Sound-nil none = tt
Sound-nil (some k) = λ e. inl refl

module _ (h : Host) (c : Call) where
  pub enabled-Fit :
      (s : ServerState) → auth_enabled_ttl ≤ c.now 0 → IsFit s → IsFit (auth_enabled c s).1
  enabled-Fit s l f =
      let (same, k, nil) = auth_enabled-Checks c s l f.0 in
      subst (λ (us : List AuthUser). IsSound (auth_enabled c s).1.auth_state us × (length us ≤ 1))
        (sym (ap (λ (d : AuthDb). d.users) same)) (k, f.1)

  resolve-Fit : (s : ServerState) → IsFit s → IsFit (resolve_session h c s).1
  resolve-Fit s f =
      let (us, st, r) = resolve_session-Resolves h c s in
      Fit-same s (resolve_session h c s).1 us st f

  pub auth-Fit : (s : ServerState) → auth_enabled_ttl ≤ c.now 0 → IsFit s → IsFit (auth h c s).1
  auth-Fit s l f =
      let (us, k, r) = auth-Guards h c s l f.0 in
      subst (λ (us : List AuthUser). IsSound (auth h c s).1.auth_state us × (length us ≤ 1))
        (sym us) (k, f.1)

  stored-Fit :
      (token : Text) (uid : ℕ) (o : Option AuthDb) (s : ServerState)
      → Inserted (Opened uid s.db) o
      → IsFit s
      → IsFit (stored h c token o s).1
  unfolding stored
  stored-Fit token uid none s k f = f
  stored-Fit token uid (some db) s k f = Fit-same s (record s { db = db }) k.0 refl f

  store_session-Fit :
      (e : Option Error) (token : Text) (uid : ℕ) (s : ServerState)
      → IsFit s
      → IsFit (store_session h c e token uid s).1
  unfolding store_session
  store_session-Fit (some e) token uid s f = f
  store_session-Fit none token uid s f =
      stored-Fit token uid
        (insert_auth_session (h.hash_token token) uid (c.now 5 + session_ttl) (c.now 6) s.db) s
        (insert_auth_session-Opened (h.hash_token token) uid (c.now 5 + session_ttl) (c.now 6) s.db)
        f

  issue_with-Fit :
      (r : Result Text) (uid : ℕ) (s : ServerState) → IsFit s → IsFit (issue_with h c r uid s).1
  unfolding issue_with
  issue_with-Fit (err e) uid s f = f
  issue_with-Fit (ok token) uid s f = store_session-Fit (c.fault insert_session) token uid s f

  pub issue_session-Fit : (uid : ℕ) (s : ServerState) → IsFit s → IsFit (issue_session h c uid s).1
  unfolding issue_session
  issue_session-Fit uid s f = issue_with-Fit c.random_token uid s f

  pub with_issued-Fit :
      (b : Body) (out : Option Text × ServerState) → IsFit out.1 → IsFit (with_issued h c b out).1
  unfolding with_issued
  with_issued-Fit b (none, s) f = f
  with_issued-Fit b (some token, s) f = f

  status_with-Fit : (out : Option ℕ × ServerState) → IsFit out.1 → IsFit (status_with h c out).1
  unfolding status_with
  status_with-Fit (none, s) f = f
  status_with-Fit (some uid, s) f = f

  pub status_enabled-Fit :
      (out : Result Bool × ServerState) → IsFit out.1 → IsFit (status_enabled h c out).1
  unfolding status_enabled
  status_enabled-Fit (err e, s) f = f
  status_enabled-Fit (ok false, s) f = f
  status_enabled-Fit (ok true, s) f = status_with-Fit (resolve_session h c s) (resolve-Fit s f)

  login_as-Fit :
      (password : Text) (u : Option AuthUser) (s : ServerState)
      → IsFit s
      → IsFit (login_as h c password u s).1
  unfolding login_as
  login_as-Fit password none s f = f
  login_as-Fit password (some u) s f = elim (Bool-cases (h.compare_hash u.password_hash password)) [
    | inr wrong ↦ simp wrong f
    | inl right ↦
        simp right (with_issued-Fit _ (issue_session h c u.id s) (issue_session-Fit u.id s f))
  ]

  login_enabled-Fit :
      (req : LoginRequest) (out : Result Bool × ServerState)
      → IsFit out.1
      → IsFit (login_enabled h c req out).1
  unfolding login_enabled
  login_enabled-Fit req (err e, s) f = f
  login_enabled-Fit req (ok false, s) f = f
  login_enabled-Fit req (ok true, s) f =
      login_as-Fit req.password (found_user h c (c.fault user_by_name) (trim_space req.username) s)
        s f

  pub login-Fit :
      (req : Option LoginRequest) (s : ServerState)
      → auth_enabled_ttl ≤ c.now 0
      → IsFit s
      → IsFit (handle_session_login h c req s).1
  unfolding handle_session_login
  login-Fit none s l f = f
  login-Fit (some req) s l f = login_enabled-Fit req (auth_enabled c s) (enabled-Fit s l f)

  forget_token-Fit :
      (e : Option Error) (token : Text) (s : ServerState)
      → IsFit s
      → IsFit (forget_token h c e token s)
  unfolding forget_token delete_auth_session
  forget_token-Fit (some e) token s f = f
  forget_token-Fit none token s f = f

  pub log_out-Fit : (k : Option Text) (s : ServerState) → IsFit s → IsFit (log_out h c k s)
  unfolding log_out
  log_out-Fit none s f = f
  log_out-Fit (some []) s f = f
  log_out-Fit (some (x ∷ token)) s f = forget_token-Fit (c.fault delete_session) (x ∷ token) s f
