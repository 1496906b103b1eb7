-- ===== src/Server/Accounts.antt =====
-- internal/server/handlers_auth.go: sign-in, and the operator's account. A handler is given the
-- decoded body, or nothing where `decodeJSONBody` has refused it. What a cookie says beside its
-- token is not modelled.
pub mod Fit
pub mod Changes
pub mod Sound
pub mod Login
use triagearr.Base.{
  ℕ, ◌+◌, List, [], ◌∷◌, Bool, true, false, not, ◌&&◌, ◌||◌, Option, none, some, leb, ◌==◌,
  if◌then◌else◌, is_empty, length, all,
}
use triagearr.Base.Text.{Text, text_eq}
use triagearr.Base.Space.{trim_space}
use triagearr.Types.{Error, Result, ok, err}
use triagearr.Auth.{
  AuthUser, AuthDb, get_auth_user_by_name, get_auth_user_by_id, insert_auth_user,
  update_auth_password, delete_auth_user, insert_auth_session, delete_auth_session,
}
use triagearr.Auth.Password.{
  Resolved, Resolution, resolved, unresolved, too_short, internal, resolve,
}
use triagearr.Server.Access.{
  user_by_name, user_by_id, insert_user, update_password, delete_user, insert_session,
  delete_session, ServerState, Host, Call, session_ttl, Verdict, refused, admitted, auth_enabled,
  invalidate_auth_state, resolve_session, auth,
}

-- The body of a reply.
pub data Body : Type 0 where
  message : Body
  session_status : Bool → Bool → Text → Body
  account_enabled : Text → Option Text → Body
  password_changed : Option Text → Body

-- `set_cookie` is the token that the session cookie is set to; the empty one clears it.
pub record Reply : Type 0 where
  pub status : ℕ
  pub body : Body
  pub set_cookie : Option Text

abbrev pub refusal : ℕ → Reply
refusal n = record { status = n; body = message; set_cookie = none }

abbrev pub done : Body → Option Text → Reply
done b k = record { status = 200; body = b; set_cookie = k }

abbrev pub Outcome : Type 0
Outcome = Reply × ServerState

pub record LoginRequest : Type 0 where
  pub username : Text
  pub password : Text

-- `authEnableRequest`.
pub record EnableRequest : Type 0 where
  pub username : Text
  pub password : Text

pub record ChangePasswordRequest : Type 0 where
  pub current : Text
  pub new : Text

is_username_char : ℕ → Bool
is_username_char c =
    (leb 97 c && leb c 122)
    || ((leb 65 c && leb c 90) || ((leb 48 c && leb c 57) || (c == 46 || (c == 95 || c == 45))))

-- `validUsername`.
unfoldable pub valid_username : Text → Bool
unfolding is_username_char
valid_username s = (leb 3 (length s) && leb (length s) 32) && all is_username_char s

module _ (h : Host) (c : Call) where
  -- `handleSessionStatus`.
  known_user : Option Error → ℕ → ServerState → Option AuthUser
  known_user (some e) id s = none
  known_user none id s = get_auth_user_by_id id s.db

  status_of : Option AuthUser → Body
  status_of none = session_status true false []
  status_of (some u) = session_status true true u.username

  status_with : Option ℕ × ServerState → Outcome
  unfolding known_user status_of
  status_with (none, s) = (done (session_status true false []) none, s)
  status_with (some uid, s) = (done (status_of (known_user (c.fault user_by_id) uid s)) none, s)

  pub status_enabled : Result Bool × ServerState → Outcome
  unfolding status_with
  status_enabled (err e, s) = (refusal 500, s)
  status_enabled (ok false, s) = (done (session_status false false []) none, s)
  status_enabled (ok true, s) = status_with (resolve_session h c s)

  unfoldable pub handle_session_status : ServerState → Outcome
  unfolding status_enabled
  handle_session_status s = status_enabled (auth_enabled c s)

  -- `issueSession`: the token, if the session was stored.
  stored : Text → Option AuthDb → ServerState → Option Text × ServerState
  stored token none s = (none, s)
  stored token (some db) s = (some token, record s { db = db })

  store_session : Option Error → Text → ℕ → ServerState → Option Text × ServerState
  unfolding stored
  store_session (some e) token uid s = (none, s)
  store_session none token uid s =
      stored token
        (insert_auth_session (h.hash_token token) uid (c.now 5 + session_ttl) (c.now 6) s.db) s

  issue_with : Result Text → ℕ → ServerState → Option Text × ServerState
  unfolding store_session
  issue_with (err e) uid s = (none, s)
  issue_with (ok token) uid s = store_session (c.fault insert_session) token uid s

  unfoldable pub issue_session : ℕ → ServerState → Option Text × ServerState
  unfolding issue_with
  issue_session uid s = issue_with c.random_token uid s

  pub with_issued : Body → Option Text × ServerState → Outcome
  with_issued b (none, s) = (refusal 500, s)
  with_issued b (some token, s) = (done b (some token), s)

  -- `handleSessionLogin` from the account on; a database error counts as an unknown user.
  found_user : Option Error → Text → ServerState → Option AuthUser
  found_user (some e) name s = none
  found_user none name s = get_auth_user_by_name name s.db

  login_as : Text → Option AuthUser → ServerState → Outcome
  unfolding with_issued
  login_as password none s = (refusal 401, s)
  login_as password (some u) s =
      if not (h.compare_hash u.password_hash password)
      then (refusal 401, s)
      else with_issued (session_status true true u.username) (issue_session u.id s)

  login_enabled : LoginRequest → Result Bool × ServerState → Outcome
  unfolding login_as found_user
  login_enabled req (err e, s) = (refusal 500, s)
  login_enabled req (ok false, s) = (refusal 400, s)
  login_enabled req (ok true, s) =
      login_as req.password (found_user (c.fault user_by_name) (trim_space req.username) s) s

  unfoldable pub handle_session_login : Option LoginRequest → ServerState → Outcome
  unfolding login_enabled
  handle_session_login none s = (refusal 400, s)
  handle_session_login (some req) s = login_enabled req (auth_enabled c s)

  -- `handleSessionLogout`.
  forget_token : Option Error → Text → ServerState → ServerState
  forget_token (some e) token s = s
  forget_token none token s = record s { db = delete_auth_session (h.hash_token token) s.db }

  pub log_out : Option Text → ServerState → ServerState
  unfolding forget_token
  log_out none s = s
  log_out (some []) s = s
  log_out (some (x ∷ token)) s = forget_token (c.fault delete_session) (x ∷ token) s

  unfoldable pub handle_session_logout : ServerState → Outcome
  unfolding log_out
  handle_session_logout s = (done message (some []), log_out c.cookie s)

  -- `handleAuthEnable` from the account's creation on.
  if_generated : Resolved → Option Text
  if_generated r = if r.generated then some r.plain else none

  created : Text → Resolved → Option AuthDb → ServerState → Outcome
  unfolding with_issued if_generated
  created name r none s = (refusal 500, s)
  created name r (some db) s =
      with_issued (account_enabled name (if_generated r))
        (issue_session c.new_user_id (invalidate_auth_state (record s { db = db })))

  create_user : Option Error → Text → Resolved → ServerState → Outcome
  unfolding created
  create_user (some e) name r s = (refusal 500, s)
  create_user none name r s =
      created name r (insert_auth_user name r.hash (c.now 7) c.new_user_id s.db) s

  enable_resolved : Text → Resolution → ServerState → Outcome
  unfolding create_user
  enable_resolved name (unresolved too_short) s = (refusal 400, s)
  enable_resolved name (unresolved (internal e)) s = (refusal 500, s)
  enable_resolved name (resolved r) s = create_user (c.fault insert_user) name r s

  enable_named : EnableRequest → Text → ServerState → Outcome
  unfolding enable_resolved
  enable_named req name s =
      if not (valid_username name)
      then (refusal 400, s)
      else enable_resolved name (resolve h.hash_password c.random_password req.password) s

  enable_checked : Option EnableRequest → Result Bool × ServerState → Outcome
  unfolding enable_named
  enable_checked req (err e, s) = (refusal 500, s)
  enable_checked req (ok true, s) = (refusal 409, s)
  enable_checked none (ok false, s) = (refusal 400, s)
  enable_checked (some req) (ok false, s) = enable_named req (trim_space req.username) s

  unfoldable pub handle_auth_enable : Option EnableRequest → ServerState → Outcome
  unfolding enable_checked
  handle_auth_enable req s = enable_checked req (auth_enabled c s)

  -- `handleAuthDisable`; the user is the one of the request's context.
  delete_account : Option Error → ℕ → ServerState → Outcome
  delete_account (some e) uid s = (refusal 500, s)
  delete_account none uid s =
      (done message (some []), invalidate_auth_state (record s { db = delete_auth_user uid s.db }))

  confirmed : Text → ℕ → Option AuthUser → Outcome → ServerState → Outcome
  confirmed password uid none next s = (refusal 500, s)
  confirmed password uid (some u) next s =
      if not (h.compare_hash u.password_hash password) then (refusal 401, s) else next

  unfoldable pub handle_auth_disable : Option Text → Option ℕ → ServerState → Outcome
  unfolding delete_account confirmed known_user
  handle_auth_disable none user s = (refusal 400, s)
  handle_auth_disable (some password) none s = (refusal 403, s)
  handle_auth_disable (some password) (some uid) s =
      confirmed password uid (known_user (c.fault user_by_id) uid s)
        (delete_account (c.fault delete_user) uid s) s

  -- `handleAuthChangePassword`.
  set_password : Option Error → ℕ → Resolved → ServerState → Outcome
  unfolding if_generated
  set_password (some e) uid r s = (refusal 500, s)
  set_password none uid r s = (
    done (password_changed (if_generated r)) none,
    record s { db = update_auth_password uid r.hash (c.now 7) s.db },
  )

  change_resolved : Text → ℕ → Resolution → ServerState → Outcome
  unfolding set_password
  change_resolved current uid (unresolved too_short) s = (refusal 400, s)
  change_resolved current uid (unresolved (internal e)) s = (refusal 500, s)
  change_resolved current uid (resolved r) s =
      if text_eq current r.plain
      then (refusal 400, s)
      else set_password (c.fault update_password) uid r s

  unfoldable pub handle_auth_change_password :
      Option ChangePasswordRequest → Option ℕ → ServerState → Outcome
  unfolding change_resolved confirmed known_user
  handle_auth_change_password none user s = (refusal 400, s)
  handle_auth_change_password (some req) none s = (refusal 403, s)
  handle_auth_change_password (some req) (some uid) s =
      confirmed req.current uid (known_user (c.fault user_by_id) uid s)
        (change_resolved req.current uid (resolve h.hash_password c.random_password req.new) s) s

  -- A route behind `auth`.
  unfoldable pub behind_auth : (Option ℕ → ServerState → Outcome) → Verdict × ServerState → Outcome
  behind_auth handler (refused n, s) = (refusal n, s)
  behind_auth handler (admitted user, s) = handler user s
