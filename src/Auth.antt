-- ===== src/Auth.antt =====
-- internal/store/auth_repos.go: the operator accounts and their sessions. The two tables are lists;
-- what SQLite does on a failed statement is given by the caller. Tests of time are those of Go on
-- the stored instants.
pub mod Password
pub mod Tables
use triagearr.Base.{
  ℕ, ◌+◌, List, [], ◌∷◌, ◌++◌, map, Bool, true, false, not, Option, none, some, ltb, ◌==◌,
  if◌then◌else◌, is_empty, length, select,
}
use triagearr.Base.Text.{Text, text_eq}
use triagearr.Types.{Time, Duration}

pub record AuthUser : Type 0 where
  pub id : ℕ
  pub username : Text
  pub password_hash : Text
  pub created_at : Time
  pub password_changed_at : Time

pub record AuthSession : Type 0 where
  pub token_hash : Text
  pub user_id : ℕ
  pub created_at : Time
  pub expires_at : Time
  pub last_seen_at : Time

-- The tables `auth_users` and `auth_sessions`.
pub record AuthDb : Type 0 where
  pub users : List AuthUser
  pub sessions : List AuthSession

-- `HasAuthUser`.
unfoldable pub has_auth_user : AuthDb → Bool
has_auth_user db = not (is_empty db.users)

-- The first element that passes a test; a missing row is `sql.ErrNoRows`.
module _ {A : Type 0} where
  unfoldable pub first : (A → Bool) → List A → Option A
  first p [] = none
  first p (x ∷ xs) = let rest = first p xs in if p x then some x else rest

unfoldable pub get_auth_user_by_name : Text → AuthDb → Option AuthUser
get_auth_user_by_name name db = first (λ u. text_eq u.username name) db.users

unfoldable pub get_auth_user_by_id : ℕ → AuthDb → Option AuthUser
get_auth_user_by_id id db = first (λ u. u.id == id) db.users

-- `GetSoleAuthUser`: the rows are kept in the order of their ids.
unfoldable pub get_sole_auth_user : AuthDb → Option AuthUser
get_sole_auth_user db = first (λ u. true) db.users

add_user : AuthUser → Option AuthUser → AuthDb → Option AuthDb
add_user new (some u) db = none
add_user new none db = some (record db { users = db.users ++ new ∷ [] })

-- `InsertAuthUser`, with the id that SQLite gives; nothing where the name is taken.
unfoldable pub insert_auth_user : Text → Text → Time → ℕ → AuthDb → Option AuthDb
unfolding add_user
insert_auth_user name hash now id db =
    add_user
      (record {
        id = id;
        username = name;
        password_hash = hash;
        created_at = now;
        password_changed_at = now;
      })
      (get_auth_user_by_name name db) db

unfoldable pub update_auth_password : ℕ → Text → Time → AuthDb → AuthDb
update_auth_password id hash now db = record db {
  users =
      map
        (λ (u : AuthUser).
          if u.id == id then record u { password_hash = hash; password_changed_at = now } else u)
        db.users;
}

-- `DeleteAuthUser`; the foreign key deletes the sessions of the account.
unfoldable pub delete_auth_user : ℕ → AuthDb → AuthDb
delete_auth_user id db = record {
  users = select (λ u. not (u.id == id)) db.users;
  sessions = select (λ s. not (s.user_id == id)) db.sessions;
}

-- `ClearAuthUsers`, with the number of accounts deleted.
unfoldable pub clear_auth_users : AuthDb → ℕ × AuthDb
clear_auth_users db = (length db.users, record { users = []; sessions = [] })

add_session : AuthSession → Option AuthSession → AuthDb → Option AuthDb
add_session new (some s) db = none
add_session new none db = some (record db { sessions = db.sessions ++ new ∷ [] })

-- `InsertAuthSession`; the hash is the primary key.
unfoldable pub insert_auth_session : Text → ℕ → Time → Time → AuthDb → Option AuthDb
unfolding add_session
insert_auth_session token_hash user_id expires_at now db =
    add_session
      (record {
        token_hash = token_hash;
        user_id = user_id;
        created_at = now;
        expires_at = expires_at;
        last_seen_at = now;
      })
      (first (λ s. text_eq s.token_hash token_hash) db.sessions) db

unless_expired : Time → Option AuthSession → Option AuthSession
unless_expired now none = none
unless_expired now (some s) = if ltb s.expires_at now then none else some s

unfoldable pub lookup_auth_session : Text → Time → AuthDb → Option AuthSession
unfolding unless_expired
lookup_auth_session token_hash now db =
    unless_expired now (first (λ s. text_eq s.token_hash token_hash) db.sessions)

unfoldable pub touch_auth_session : Text → Duration → Time → AuthDb → AuthDb
touch_auth_session token_hash ttl now db = record db {
  sessions =
      map
        (λ (s : AuthSession).
          if text_eq s.token_hash token_hash
          then record s { last_seen_at = now; expires_at = now + ttl }
          else s)
        db.sessions;
}

unfoldable pub delete_auth_session : Text → AuthDb → AuthDb
delete_auth_session token_hash db = record db {
  sessions = select (λ s. not (text_eq s.token_hash token_hash)) db.sessions;
}

-- `SweepExpiredAuthSessions`.
unfoldable pub sweep_expired_auth_sessions : Time → AuthDb → AuthDb
sweep_expired_auth_sessions now db = record db {
  sessions = select (λ s. not (ltb s.expires_at now)) db.sessions;
}
