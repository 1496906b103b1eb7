-- ===== src/Server/Accounts/Sound.antt =====
-- Over any sequence of requests, one after another: there is one account at most, and the cached
-- flag never lets a request pass by mistake.
use triagearr.Base.{ℕ, ◌≤◌, [], Option, none, arith, length}
use triagearr.Base.Text.{Text}
use triagearr.Types.{Time}
use triagearr.Auth.{update_auth_password, clear_auth_users, sweep_expired_auth_sessions}
use triagearr.Server.Access.{ServerState, Host, Call, auth_enabled_ttl, auth_enabled, auth}
use triagearr.Server.Access.Admission.{Guards, auth-Guards}
use triagearr.Server.Accounts.{
  LoginRequest, EnableRequest, ChangePasswordRequest, handle_session_status, handle_session_login,
  handle_session_logout, handle_auth_enable, handle_auth_disable, handle_auth_change_password,
  behind_auth,
}
use triagearr.Server.Accounts.Fit.{
  IsFit, update-Fit, Sound-nil, enabled-Fit, auth-Fit, status_enabled-Fit, login-Fit, log_out-Fit,
}
use triagearr.Server.Accounts.Changes.{enable-Fit, disable-Fit, change-Fit, behind_auth-Fit}

-- One request, or what the command line and a restart do to the same database.
pub data Step (h : Host) (s : ServerState) : ServerState → Type 0 where
  status : (c : Call) → auth_enabled_ttl ≤ c.now 0 → Step h s (handle_session_status h c s).1
  login :
      (c : Call) (req : Option LoginRequest)
      → auth_enabled_ttl ≤ c.now 0
      → Step h s (handle_session_login h c req s).1
  logout : (c : Call) → Step h s (handle_session_logout h c s).1
  enable :
      (c : Call) (req : Option EnableRequest)
      → auth_enabled_ttl ≤ c.now 0
      → Step h s (handle_auth_enable h c req s).1
  disable :
      (c : Call) (password : Option Text)
      → auth_enabled_ttl ≤ c.now 0
      → Step h s (behind_auth h c (handle_auth_disable h c password) (auth h c s)).1
  change_password :
      (c : Call) (req : Option ChangePasswordRequest)
      → auth_enabled_ttl ≤ c.now 0
      → Step h s (behind_auth h c (handle_auth_change_password h c req) (auth h c s)).1
  other_request : (c : Call) → auth_enabled_ttl ≤ c.now 0 → Step h s (auth h c s).1
  recovers : Step h s (record s { db = (clear_auth_users s.db).1 })
  resets :
      (id : ℕ) (hash : Text) (now : Time)
      → Step h s (record s { db = update_auth_password id hash now s.db })
  restarts :
      (now : Time)
      → Step h s (record { db = sweep_expired_auth_sessions now s.db; auth_state = none })

abbrev pub fresh_server : ServerState
fresh_server = record { db = record { users = []; sessions = [] }; auth_state = none }

pub data Reachable (h : Host) : ServerState → Type 0 where
  initially : Reachable h fresh_server
  followed : {s t : ServerState} → Reachable h s → Step h s t → Reachable h t

Step-Fit : (h : Host) {s t : ServerState} → Step h s t → IsFit s → IsFit t
unfolding handle_session_status handle_session_logout clear_auth_users sweep_expired_auth_sessions
Step-Fit h {s} (status c l) f = status_enabled-Fit h c (auth_enabled c s) (enabled-Fit h c s l f)
Step-Fit h {s} (login c req l) f = login-Fit h c req s l f
Step-Fit h {s} (logout c) f = log_out-Fit h c c.cookie s f
Step-Fit h {s} (enable c req l) f = enable-Fit h c req s l f
Step-Fit h {s} (disable c password l) f =
    behind_auth-Fit h c (handle_auth_disable h c password) (disable-Fit h c password) (auth h c s)
      (auth-Fit h c s l f)
Step-Fit h {s} (change_password c req l) f =
    behind_auth-Fit h c (handle_auth_change_password h c req) (change-Fit h c req) (auth h c s)
      (auth-Fit h c s l f)
Step-Fit h {s} (other_request c l) f = auth-Fit h c s l f
Step-Fit h {s} recovers f = (Sound-nil s.auth_state, omega arith)
Step-Fit h {s} (resets id hash now) f = update-Fit id hash now s f
Step-Fit h {s} (restarts now) f = (tt, f.1)

Reachable-Fit : (h : Host) {s : ServerState} → Reachable h s → IsFit s
Reachable-Fit h initially = (tt, omega arith)
Reachable-Fit h (followed r step) = Step-Fit h step (Reachable-Fit h r)

-- After any sequence of requests, each handled before the next, of recoveries and password resets by
-- the command line and of restarts, there is at most one account.
pub Reachable-single : (h : Host) (s : ServerState) → Reachable h s → length s.db.users ≤ 1
Reachable-single h s r = (Reachable-Fit h r).1

-- In every state that requests, each handled before the next, recoveries, password resets and restarts
-- lead to, and with the clock past Go's first seconds, `auth` changes no account. It lets a request in
-- only if there is no account, the request carries the token of a session that is stored and has not
-- expired, whose user it then passes on, or a key is configured and the request's header is that key;
-- and it refuses with the status 401 or 500.
pub Reachable-Guards :
    (h : Host) (s : ServerState)
    → Reachable h s
    → (c : Call) → auth_enabled_ttl ≤ c.now 0
    → Guards h c s.db (auth h c s)
Reachable-Guards h s r c l = auth-Guards h c s l (Reachable-Fit h r).0
