-- ===== src/Server/Access.antt =====
-- internal/server/middleware.go: whether a request is let in. A statement of SQLite may fail, and
-- then changes nothing; the clock is read several times in a request, and a reading has its number.
pub mod Admission
use triagearr.Base.{
  ℕ, List, [], ◌∷◌, Bool, true, false, not, ◌&&◌, Option, none, some, ltb, if◌then◌else◌, is_empty,
}
use triagearr.Base.Int.{ℤ, pos, ltb_ℤ}
use triagearr.Base.Text.{Text, text_eq}
use triagearr.Types.{Time, Duration, Error, Result, ok, err}
use triagearr.Float.{sub_time}
use triagearr.Auth.{AuthDb, AuthSession, has_auth_user, lookup_auth_session, touch_auth_session}

-- The statements that a request may run, each at most once.
pub data Query : Type 0 where
  count_users user_by_name user_by_id insert_user update_password delete_user : Query
  insert_session lookup_session touch_session delete_session : Query

-- `authStateCache`.
pub record AuthStateCache : Type 0 where
  pub enabled : Bool
  pub checked_at : Time

-- The database, and what `authState` holds; nothing is a value that was never stored.
pub record ServerState : Type 0 where
  pub db : AuthDb
  pub auth_state : Option AuthStateCache

-- What does not change: the API key, `hashToken`, and bcrypt.
pub record Host : Type 0 where
  pub api_key : Text
  pub hash_token : Text → Text
  pub compare_hash : Text → Text → Bool
  pub hash_password : Text → Result Text

-- A request, and the world's answers to it. No cookie is also an error of `r.Cookie`.
pub record Call : Type 0 where
  pub cookie : Option Text
  pub header : Text
  pub now : ℕ → Time
  pub fault : Query → Option Error
  pub random_token : Result Text
  pub random_password : Result Text
  pub new_user_id : ℕ

abbrev pub auth_enabled_ttl : Duration
auth_enabled_ttl = 3_000_000_000

abbrev pub touch_interval : Duration
touch_interval = 300_000_000_000

abbrev pub session_ttl : Duration
session_ttl = 604_800_000_000_000

-- What `auth` does with a request: it answers with a status, or runs the handler, with the user of a
-- session in the context if there is one.
pub data Verdict : Type 0 where
  refused : ℕ → Verdict
  admitted : Option ℕ → Verdict

is_fresh : Time → Option AuthStateCache → Bool
is_fresh now none = false
is_fresh now (some c) = ltb_ℤ (sub_time now c.checked_at) (pos auth_enabled_ttl)

module _ (c : Call) where
  count_again : Option Error → ServerState → Result Bool × ServerState
  count_again (some e) s = (err e, s)
  count_again none s = (
    ok (has_auth_user s.db),
    record s { auth_state = some (record { enabled = has_auth_user s.db; checked_at = c.now 1 }) },
  )

  -- The cached flag while it is fresh.
  cached_flag : Bool → Option AuthStateCache → ServerState → Result Bool × ServerState
  unfolding count_again
  cached_flag true (some k) s = (ok k.enabled, s)
  cached_flag true none s = count_again (c.fault count_users) s
  cached_flag false k s = count_again (c.fault count_users) s

  -- `authEnabled`.
  unfoldable pub auth_enabled : ServerState → Result Bool × ServerState
  unfolding is_fresh cached_flag
  auth_enabled s = cached_flag (is_fresh (c.now 0) s.auth_state) s.auth_state s

-- `invalidateAuthState` stores the zero value.
unfoldable pub invalidate_auth_state : ServerState → ServerState
invalidate_auth_state s = record s {
  auth_state = some (record { enabled = false; checked_at = 0 });
}

module _ (h : Host) (c : Call) where
  is_stale : AuthSession → Bool
  is_stale sess = not (ltb_ℤ (sub_time (c.now 3) sess.last_seen_at) (pos touch_interval))

  -- `TouchAuthSession`, whose error is dropped.
  touched : Text → Option Error → ServerState → ServerState
  touched hash (some e) s = s
  touched hash none s = record s { db = touch_auth_session hash session_ttl (c.now 4) s.db }

  with_session : Text → Option AuthSession → ServerState → Option ℕ × ServerState
  unfolding is_stale touched
  with_session hash none s = (none, s)
  with_session hash (some sess) s =
      (some sess.user_id, if is_stale sess then touched hash (c.fault touch_session) s else s)

  found_session : Option Error → Text → ServerState → Option AuthSession
  found_session (some e) hash s = none
  found_session none hash s = lookup_auth_session hash (c.now 2) s.db

  with_cookie : Option Text → ServerState → Option ℕ × ServerState
  unfolding with_session found_session
  with_cookie none s = (none, s)
  with_cookie (some []) s = (none, s)
  with_cookie (some (x ∷ token)) s =
      let hash = h.hash_token (x ∷ token) in
      with_session hash (found_session (c.fault lookup_session) hash s) s

  -- `resolveSession`.
  unfoldable pub resolve_session : ServerState → Option ℕ × ServerState
  unfolding with_cookie
  resolve_session s = with_cookie c.cookie s

  -- `X-API-Key`.
  has_api_key : Bool
  has_api_key = not (is_empty h.api_key) && text_eq c.header h.api_key

  with_user : Option ℕ × ServerState → Verdict × ServerState
  unfolding has_api_key
  with_user (some uid, s) = (admitted (some uid), s)
  with_user (none, s) = (if has_api_key then admitted none else refused 401, s)

  with_enabled : Result Bool × ServerState → Verdict × ServerState
  unfolding with_user
  with_enabled (err e, s) = (refused 500, s)
  with_enabled (ok false, s) = (admitted none, s)
  with_enabled (ok true, s) = with_user (resolve_session s)

  -- `auth`.
  unfoldable pub auth : ServerState → Verdict × ServerState
  unfolding with_enabled
  auth s = with_enabled (auth_enabled c s)
