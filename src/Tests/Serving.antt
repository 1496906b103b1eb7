-- ===== src/Tests/Serving.antt =====
-- The server: sign-in, the rate limiter and the run requests.
use triagearr.Base.{
  ℕ, ◌≡◌, ◌+◌, ◌-◌, ◌≤◌, refl, arith, [], ◌∷◌, true, false, none, some, ltb, length,
}
use triagearr.Base.Int.{ℤ, pos}
use triagearr.Base.Text.{text_eq, codes}
use triagearr.Types.{ok, no_more_candidates}
use triagearr.Decider.{RunPlan}
use triagearr.Server.Access.{Host, Call, ServerState, auth}
use triagearr.Server.Access.Admission.{Guards}
use triagearr.Server.Accounts.{
  EnableRequest, LoginRequest, handle_auth_enable, handle_session_login,
}
use triagearr.Server.Accounts.Sound.{
  Reachable, initially, followed, enable, fresh_server, Reachable-single, Reachable-Guards,
}
use triagearr.Server.Accounts.Login.{LogsIn, handle_session_login-LogsIn}
use triagearr.Server.Limiter.{
  RateLimit, IpRateLimiter, ip_limiter_cap, new_ip_rate_limiter, take, take_known, allow_at, insert,
  store_at, evict, set, at_least_one,
}
use triagearr.Server.Limiter.Bounded.{IsIndexed, taken, Reachable-IsBounded}
use triagearr.Server.Limiter.Bounded
use triagearr.Server.Limiter.Buckets.{Takes, take-Takes}
use triagearr.Server.RunRequests.{RunAnswers, no_rows, decoded, handle_post_run}
use triagearr.Server.RunRequests.Balanced.{Requests, handle_post_run-Requests}
use triagearr.Tests.Values.{item_a}

-- A hash is the text behind a `#`.
abbrev host : Host
host = record {
  api_key = codes "key";
  hash_token = λ t. 35 ∷ t;
  compare_hash = λ h p. text_eq h (35 ∷ p);
  hash_password = λ p. ok (35 ∷ p);
}

abbrev call : Call
call = record {
  cookie = some (codes "token");
  header = [];
  now = λ n. 10_000_000_000 + n;
  fault = λ q. none;
  random_token = ok (codes "token");
  random_password = ok (codes "a generated password");
  new_user_id = 1;
}

abbrev first_account : EnableRequest
first_account = record { username = codes " ann "; password = codes "correct horse" }

abbrev with_account : ServerState
with_account = (handle_auth_enable host call (some first_account) fresh_server).1

with_account-Reachable : Reachable host with_account
with_account-Reachable = followed initially (enable call (some first_account) (omega arith))

Reachable-single_example : length with_account.db.users ≤ 1
Reachable-single_example = Reachable-single host with_account with_account-Reachable

Reachable-Guards_example : Guards host call with_account.db (auth host call with_account)
Reachable-Guards_example =
    Reachable-Guards host with_account with_account-Reachable call (omega arith)

abbrev sign_in : LoginRequest
sign_in = record { username = codes "ann"; password = codes "correct horse" }

handle_session_login-LogsIn_example :
    LogsIn host call sign_in with_account.db
      (handle_session_login host call (some sign_in) with_account)
handle_session_login-LogsIn_example = handle_session_login-LogsIn host call sign_in with_account

-- A bucket is what is left of its burst, and is not refilled.
abbrev buckets : RateLimit
buckets = record {
  Limit = ℕ;
  Limiter = ℕ;
  every = λ d. d;
  new_limiter = λ l burst. burst;
  allow = λ now left. (ltb 0 left, left - 1);
}

abbrev limiter : IpRateLimiter buckets
limiter = (take buckets 0 (codes "10.0.0.1") (new_ip_rate_limiter buckets (pos 1) 60)).1

-- The second call of one address is refused, the first of another is not.
spent : (take buckets 1 (codes "10.0.0.1") limiter).0 ≡ false
unfolding take new_ip_rate_limiter take_known allow_at insert store_at evict set text_eq
    at_least_one
spent = refl

other_client : (take buckets 1 (codes "10.0.0.2") limiter).0 ≡ true
unfolding take new_ip_rate_limiter take_known allow_at insert store_at evict set text_eq
    at_least_one
other_client = refl

Reachable-IsBounded_example : IsIndexed buckets limiter × (length limiter.lru ≤ ip_limiter_cap)
Reachable-IsBounded_example =
    Reachable-IsBounded buckets limiter (taken 0 (codes "10.0.0.1") (Bounded.initially (pos 1) 60))

take-Takes_example :
    Takes buckets 1 (codes "10.0.0.1") limiter (take buckets 1 (codes "10.0.0.1") limiter)
take-Takes_example =
    take-Takes buckets 1 (codes "10.0.0.1") limiter
      (taken 0 (codes "10.0.0.1") (Bounded.initially (pos 1) 60))

abbrev now_plan : RunPlan ℤ
now_plan = record {
  volume = record { name = codes "media"; path = codes "/data"; target_free_percent = pos 20 };
  free_pct_at_fire = pos 5;
  estimated_freed_bytes = 700;
  stop_reason = some no_more_candidates;
  items = item_a ∷ [];
  filtered_cross_seed = 0;
}

abbrev run_answers : RunAnswers ℤ
run_answers = record {
  path_id = some (pos 4);
  volume = now_plan.volume;
  daemon_live = true;
  has_actor = true;
  plan = ok now_plan;
  now = 1000;
  try_acquire = true;
  insert_run = λ r. ok 4;
  insert_run_items = λ id items. none;
  get_run = λ id. no_rows;
  execute = λ id. none;
  mark_run_status = λ id s. none;
  request_stop = λ id. true;
}

handle_post_run-Requests_example :
    Requests run_answers (codes "live") (handle_post_run run_answers (decoded (codes "live"))).1
handle_post_run-Requests_example = handle_post_run-Requests run_answers (decoded (codes "live"))
