-- ===== src/Server/Limiter.antt =====
-- internal/server/middleware.go, `ipRateLimiter`: the cap on one client's requests. The token bucket
-- of golang.org/x/time/rate and the splitting of an address into host and port are parameters. The
-- map's values are pointers, here numbers, into `elements`. The mutex makes a take one step.
pub mod Recency
pub mod Bounded
pub mod Buckets
use triagearr.Base.{
  ℕ, zero, suc, ◌+◌, ◌/◌, ◌≤◌, List, [], ◌∷◌, Bool, true, false, Option, none, some, leb, ◌==◌,
  if◌then◌else◌, length, any,
}
use triagearr.Base.Int.{ℤ, pos, negsuc}
use triagearr.Base.Text.{Text, text_eq}
use triagearr.Types.{Time, Duration}

-- Package rate.
pub record RateLimit : Type 1 where
  pub Limit : Type 0
  pub Limiter : Type 0
  pub every : Duration → Limit
  pub new_limiter : Limit → ℕ → Limiter
  pub allow : Time → Limiter → Bool × Limiter

abbrev pub ip_limiter_cap : ℕ
ip_limiter_cap = 10_000

abbrev pub minute : Duration
minute = 60_000_000_000

-- A number is an element of the list.
unfoldable pub is_in : ℕ → List ℕ → Bool
is_in x l = any (λ y. x == y) l

unfoldable pub without : ℕ → List ℕ → List ℕ
without x [] = []
without x (y ∷ ys) = let rest = without x ys in if x == y then ys else y ∷ rest

-- `MoveToFront`, which leaves the list alone when the element is not in it.
unfoldable pub move_to_front : ℕ → List ℕ → List ℕ
move_to_front x l = if is_in x l then x ∷ without x l else l

-- `Back`.
unfoldable pub back : List ℕ → Option ℕ
back [] = none
back (x ∷ []) = some x
back (x ∷ y ∷ ys) = back (y ∷ ys)

-- `Remove(Back())`.
unfoldable pub front : List ℕ → List ℕ
front [] = []
front (x ∷ []) = []
front (x ∷ y ∷ ys) = x ∷ front (y ∷ ys)

-- `max(burst, 1)`.
unfoldable pub at_least_one : ℤ → ℕ
at_least_one (negsuc n) = 1
at_least_one (pos zero) = 1
at_least_one (pos (suc n)) = suc n

module _ (rl : RateLimit) where
  open rl use {Limit, Limiter, every, new_limiter, allow}

  -- `ipLimiterEntry`.
  pub record Entry : Type 0 where
    pub ip : Text
    pub lim : Limiter

  -- The front of `lru` is the most recent. `next` is the first pointer that is not in use.
  pub record IpRateLimiter : Type 0 where
    pub limiters : Text → Option ℕ
    pub lru : List ℕ
    pub elements : ℕ → Option Entry
    pub next : ℕ
    pub r : Limit
    pub burst : ℕ
    pub max_ips : ℕ

  unfoldable pub new_ip_rate_limiter : ℤ → Duration → IpRateLimiter
  new_ip_rate_limiter burst window = record {
    limiters = λ k. none;
    lru = [];
    elements = λ p. none;
    next = 0;
    r = every (window / at_least_one burst);
    burst = at_least_one burst;
    max_ips = ip_limiter_cap;
  }

  -- Nothing is a nil limiter.
  unfoldable pub build_rate_limiter : ℤ → ℤ → Option IpRateLimiter
  build_rate_limiter (negsuc n) default_per_minute = none
  build_rate_limiter (pos zero) default_per_minute =
      some (new_ip_rate_limiter default_per_minute minute)
  build_rate_limiter (pos (suc n)) default_per_minute =
      some (new_ip_rate_limiter (pos (suc n)) minute)

  unfoldable pub set : Text → Option ℕ → (Text → Option ℕ) → Text → Option ℕ
  set k v m q = if text_eq q k then v else m q

  unfoldable pub store_at : ℕ → Entry → (ℕ → Option Entry) → ℕ → Option Entry
  store_at p e m q = if q == p then some e else m q

  -- The call of `Allow` on the entry that `p` points to.
  unfoldable pub allow_at : Time → ℕ → Option Entry → IpRateLimiter → Bool × IpRateLimiter
  allow_at now p none l = (false, l)
  allow_at now p (some e) l =
      let out = allow now e.lim in
      (out.0, record l { elements = store_at p (record e { lim = out.1 }) l.elements })

  -- The key of the entry that `p` points to is deleted.
  unfoldable pub forget : Option Entry → (Text → Option ℕ) → Text → Option ℕ
  forget none m = m
  forget (some e) m = set e.ip none m

  unfoldable pub evict_back : Option ℕ → IpRateLimiter → IpRateLimiter
  evict_back none l = l
  evict_back (some old) l = record l {
    lru = front l.lru;
    limiters = forget (l.elements old) l.limiters;
  }

  unfoldable pub evict : IpRateLimiter → IpRateLimiter
  evict l = if leb l.max_ips (length l.lru) then evict_back (back l.lru) l else l

  unfoldable pub insert : Text → IpRateLimiter → IpRateLimiter
  insert ip l = record l {
    limiters = set ip (some l.next) l.limiters;
    lru = l.next ∷ l.lru;
    elements = store_at l.next (record { ip = ip; lim = new_limiter l.r l.burst }) l.elements;
    next = suc l.next;
  }

  -- `take` on what the map has for the address.
  unfoldable pub take_known : Time → Text → Option ℕ → IpRateLimiter → Bool × IpRateLimiter
  take_known now ip (some el) l =
      allow_at now el (l.elements el) (record l { lru = move_to_front el l.lru })
  take_known now ip none l =
      let new = insert ip (evict l) in allow_at now (evict l).next (new.elements (evict l).next) new

  unfoldable pub take : Time → Text → IpRateLimiter → Bool × IpRateLimiter
  take now ip l = take_known now ip (l.limiters ip) l

  -- `clientIP`: the whole address when it has no port.
  unfoldable pub client_ip : Text → Option Text → Text
  client_ip remote_addr none = remote_addr
  client_ip remote_addr (some host) = host

  -- What a request behind `rateLimit` comes to: 429, or the handler runs.
  pub data Passage : Type 0 where
    too_many_requests : Text → Passage
    handled : Passage

  taken : Text → Bool × IpRateLimiter → Passage × Option IpRateLimiter
  taken msg (true, l) = (handled, some l)
  taken msg (false, l) = (too_many_requests msg, some l)

  unfoldable pub rate_limit :
      Option IpRateLimiter → Text → Time → Text → Option Text → Passage × Option IpRateLimiter
  unfolding taken
  rate_limit none msg now remote_addr host = (handled, none)
  rate_limit (some l) msg now remote_addr host = taken msg (take now (client_ip remote_addr host) l)
