-- ===== src/Server/Accounts/Login.antt =====
-- `handleSessionLogin`: what opens a session.
use triagearr.Base.{
  ℕ, ◌+◌, ◌≡◌, refl, subst, ◌⊎◌, inl, inr, Bool, true, false, Option, none, some, Bool-cases, Any,
}
use triagearr.Base.Text.{Text}
use triagearr.Base.Space.{trim_space}
use triagearr.Types.{Error, Result, ok, err}
use triagearr.Auth.{AuthUser, AuthDb, get_auth_user_by_name, insert_auth_session}
use triagearr.Auth.Tables.{Inserted, Opened, insert_auth_session-Opened, get_auth_user_by_name-Any}
use triagearr.Server.Access.{
  user_by_name, insert_session, ServerState, Host, Call, session_ttl, auth_enabled,
}
use triagearr.Server.Access.Admission.{auth_enabled-db}
use triagearr.Server.Accounts.{
  Outcome, LoginRequest, Body, stored, store_session, issue_with, issue_session, with_issued,
  found_user, login_as, login_enabled, handle_session_login, session_status,
}

module _ (h : Host) (c : Call) where
  -- A session was opened for the account under the hash of the cookie's token, or nothing changed.
  abbrev pub Issues : ℕ → AuthDb → Option Text × ServerState → Type 0
  Issues uid db out =
      ((out.0 ≡ none) × (out.1.db ≡ db))
      ⊎ ((token : Text) × (out.0 ≡ some token)
          × (c.random_token ≡ ok token)
          × Opened uid db out.1.db)

  stored-Issues :
      (token : Text) (uid : ℕ) (o : Option AuthDb) (s : ServerState)
      → Inserted (Opened uid s.db) o
      → c.random_token ≡ ok token
      → Issues uid s.db (stored h c token o s)
  unfolding stored
  stored-Issues token uid none s k e = inl (refl, refl)
  stored-Issues token uid (some db) s k e = inr (token, refl, e, k)

  store_session-Issues :
      (x : Option Error) (token : Text) (uid : ℕ) (s : ServerState)
      → c.random_token ≡ ok token
      → Issues uid s.db (store_session h c x token uid s)
  unfolding store_session
  store_session-Issues (some x) token uid s e = inl (refl, refl)
  store_session-Issues none token uid s e =
      let hash = h.hash_token token in
      stored-Issues token uid (insert_auth_session hash uid (c.now 5 + session_ttl) (c.now 6) s.db)
        s (insert_auth_session-Opened hash uid (c.now 5 + session_ttl) (c.now 6) s.db) e

  issue_with-Issues :
      (r : Result Text) (uid : ℕ) (s : ServerState)
      → c.random_token ≡ r
      → Issues uid s.db (issue_with h c r uid s)
  unfolding issue_with
  issue_with-Issues (err x) uid s e = inl (refl, refl)
  issue_with-Issues (ok token) uid s e = store_session-Issues (c.fault insert_session) token uid s e

  -- The account of the name has a password that bcrypt accepts.
  abbrev pub Knows : LoginRequest → AuthDb → AuthUser → Type 0
  Knows req db u =
      Any (λ (x : AuthUser). (x ≡ u) × (x.username ≡ trim_space req.username)) db.users
      × (h.compare_hash u.password_hash req.password ≡ true)

  -- What a login comes to.
  abbrev pub LogsIn : LoginRequest → AuthDb → Outcome → Type 0
  LogsIn req db out =
      ((out.0.set_cookie ≡ none) × (out.1.db ≡ db))
      ⊎ ((u : AuthUser) × (token : Text) × Knows req db u
          × (out.0.set_cookie ≡ some token)
          × (c.random_token ≡ ok token)
          × Opened u.id db out.1.db)

  with_issued-LogsIn :
      (req : LoginRequest) (db : AuthDb) (u : AuthUser) (b : Body) (out : Option Text × ServerState)
      → Knows req db u
      → Issues u.id db out
      → LogsIn req db (with_issued h c b out)
  unfolding with_issued
  with_issued-LogsIn req db u b (none, s) k (inl (e, same)) = inl (refl, same)
  with_issued-LogsIn req db u b (none, s) k (inr (token, e, r, opened)) = absurd cc
  with_issued-LogsIn req db u b (some t, s) k (inl (e, same)) = absurd cc
  with_issued-LogsIn req db u b (some t, s) k (inr (token, e, r, opened)) =
      inr (u, token, k, e, r, opened)

  issue_session-Issues : (uid : ℕ) (s : ServerState) → Issues uid s.db (issue_session h c uid s)
  unfolding issue_session
  issue_session-Issues uid s = issue_with-Issues c.random_token uid s refl

  login_as-LogsIn :
      (req : LoginRequest) (o : Option AuthUser) (s : ServerState)
      → ((u : AuthUser)
          → o ≡ some u
          → get_auth_user_by_name (trim_space req.username) s.db ≡ some u)
      → LogsIn req s.db (login_as h c req.password o s)
  unfolding login_as
  login_as-LogsIn req none s k = inl (refl, refl)
  login_as-LogsIn req (some u) s k =
      elim (Bool-cases (h.compare_hash u.password_hash req.password)) [
        | inr wrong ↦ simp wrong (inl (refl, refl))
        | inl right ↦ simp right (
            with_issued-LogsIn req s.db u (session_status true true u.username)
              (issue_session h c u.id s)
              (get_auth_user_by_name-Any (trim_space req.username) s.db u (k u refl), right)
              (issue_session-Issues u.id s))
      ]

  found_user-eq :
      (x : Option Error) (name : Text) (s : ServerState) (u : AuthUser)
      → found_user h c x name s ≡ some u
      → get_auth_user_by_name name s.db ≡ some u
  unfolding found_user
  found_user-eq none name s u e = e
  found_user-eq (some x) name s u e = absurd cc

  login_enabled-LogsIn :
      (req : LoginRequest) (out : Result Bool × ServerState)
      → LogsIn req out.1.db (login_enabled h c req out)
  unfolding login_enabled
  login_enabled-LogsIn req (err e, s) = inl (refl, refl)
  login_enabled-LogsIn req (ok false, s) = inl (refl, refl)
  login_enabled-LogsIn req (ok true, s) =
      login_as-LogsIn req (found_user h c (c.fault user_by_name) (trim_space req.username) s) s
        (found_user-eq (c.fault user_by_name) (trim_space req.username) s)

  -- A login either sets no cookie and changes no table; or an account has the trimmed name and a
  -- password that bcrypt accepts, the cookie is the random token, and one session of that account was
  -- added and nothing else.
  pub handle_session_login-LogsIn :
      (req : LoginRequest) (s : ServerState)
      → LogsIn req s.db (handle_session_login h c (some req) s)
  unfolding handle_session_login
  handle_session_login-LogsIn req s =
      subst (λ (db : AuthDb). LogsIn req db (handle_session_login h c (some req) s))
        (auth_enabled-db c s) (login_enabled-LogsIn req (auth_enabled c s))
