-- ===== src/Server/Limiter/Bounded.antt =====
-- `ipRateLimiter`: the addresses that it remembers are bounded.
use triagearr.Base.{
  ℕ, suc, ◌≤◌, ◌<◌, ◌≡◌, ◌∙◌, refl, sym, ap, subst, ◌⊎◌, inl, inr, true, false, Option, none, some,
  arith, leb, ◌==◌, Bool-cases, length,
}
use triagearr.Base.Int.{ℤ}
use triagearr.Base.Text.{Text, text_eq, text_eq-eq, text_eq_refl}
use triagearr.Types.{Time, Duration}
use triagearr.Server.Limiter.{
  RateLimit, ip_limiter_cap, is_in, move_to_front, back, front, Entry, IpRateLimiter,
  new_ip_rate_limiter, set, store_at, allow_at, forget, evict_back, evict, insert, take_known, take,
}
use triagearr.Server.Limiter.Recency.{
  is_in-move_to_front, length-move_to_front, length-front, is_in-front, back-none,
}

module _ (rl : RateLimit) where
  open rl use {Limiter, new_limiter, allow}

  -- Behind a pointer in use there is the entry of the address.
  abbrev pub Points : Text → ℕ → IpRateLimiter rl → Type 0
  Points ip p l =
      (is_in p l.lru ≡ true)
      × (p < l.next)
      × ((e : Entry rl) × (l.elements p ≡ some e) × (e.ip ≡ ip))

  -- Every key of the map points to an element of the list, and that to the entry of this key.
  abbrev pub IsIndexed : IpRateLimiter rl → Type 0
  IsIndexed l = (ip : Text) (p : ℕ) → l.limiters ip ≡ some p → Points ip p l

  -- The list is not over its bound, of at least one.
  abbrev pub IsBounded : IpRateLimiter rl → Type 0
  IsBounded l = (1 ≤ l.max_ips) × (length l.lru ≤ l.max_ips)

  -- The limiter after any calls.
  pub data Reachable : IpRateLimiter rl → Type 0 where
    initially : (burst : ℤ) (window : Duration) → Reachable (new_ip_rate_limiter rl burst window)
    taken :
        {l : IpRateLimiter rl} (now : Time) (ip : Text)
        → Reachable l
        → Reachable (take rl now ip l).1

  pub allow_at-fields :
      (now : Time) (p : ℕ) (o : Option (Entry rl)) (l : IpRateLimiter rl)
      → ((allow_at rl now p o l).1.limiters ≡ l.limiters)
        × ((allow_at rl now p o l).1.lru ≡ l.lru)
        × ((allow_at rl now p o l).1.next ≡ l.next)
        × ((allow_at rl now p o l).1.max_ips ≡ l.max_ips)
  unfolding allow_at
  allow_at-fields now p none l = (refl, refl, refl, refl)
  allow_at-fields now p (some e) l = (refl, refl, refl, refl)

  pub allow_at-IsIndexed :
      (now : Time) (p : ℕ) (l : IpRateLimiter rl)
      → IsIndexed l
      → IsIndexed (allow_at rl now p (l.elements p) l).1
  unfolding allow_at store_at
  allow_at-IsIndexed now p l k = at (l.elements p) refl
    where
      at : (o : Option (Entry rl)) → l.elements p ≡ o → IsIndexed (allow_at rl now p o l).1
      at none e = k
      at (some en) e = λ ip q there.
          let (inside, below, (f, fe, fi)) = k ip q there in
          elim (Bool-cases (q == p)) [
            | inr d ↦ simp d (inside, below, (f, fe, fi))
            | inl same ↦
                let eq : q ≡ p = ground arith in
                let one : l.elements q ≡ some en = ap l.elements eq ∙ e in
                simp same (inside, below, (record en { lim = (allow now en.lim).1 }, refl, cc))
          ]

  pub evicted-Points :
      (ip : Text) (q old : ℕ) (o : Option (Entry rl)) (l : IpRateLimiter rl)
      → back l.lru ≡ some old
      → l.elements old ≡ o
      → IsIndexed l
      → forget rl o l.limiters ip ≡ some q
      → Points ip q (record l { lru = front l.lru })
  unfolding forget set
  evicted-Points ip q old none l b e k there =
      let (inside, below, (f, fe, fi)) = k ip q there in
      elim (is_in-front q l.lru old b inside) [
        | inl same ↦ absurd cc
        | inr at ↦ (at, below, (f, fe, fi))
      ]
  evicted-Points ip q old (some en) l b e k there = elim (Bool-cases (text_eq ip en.ip)) [
    | inl own ↦ let bad : none ≡ some q = simp own at there in absurd cc
    | inr other ↦
        let (inside, below, (f, fe, fi)) = k ip q (simp other at there) in
        elim (is_in-front q l.lru old b inside) [
          | inr at ↦ (at, below, (f, fe, fi))
          | inl same ↦ let one : ip ≡ en.ip = cc in absurd (ground (arith, text_eq_refl ip))
        ]
  ]

  pub evict_back-IsIndexed :
      (o : Option ℕ) (l : IpRateLimiter rl)
      → back l.lru ≡ o
      → IsIndexed l
      → IsIndexed (evict_back rl o l)
  unfolding evict_back
  evict_back-IsIndexed none l b k = k
  evict_back-IsIndexed (some old) l b k =
      λ ip q there. evicted-Points ip q old (l.elements old) l b refl k there

  pub evict-IsIndexed : (l : IpRateLimiter rl) → IsIndexed l → IsIndexed (evict rl l)
  unfolding evict
  evict-IsIndexed l k = elim (Bool-cases (leb l.max_ips (length l.lru))) [
    | inl full ↦ simp full (evict_back-IsIndexed (back l.lru) l refl k)
    | inr room ↦ simp room k
  ]

  pub insert-IsIndexed :
      (ip : Text) (l : IpRateLimiter rl) → IsIndexed l → IsIndexed (insert rl ip l)
  unfolding insert set store_at is_in
  insert-IsIndexed ip l k = λ k' q there. elim (Bool-cases (text_eq k' ip)) [
    | inl own ↦
        let at : some l.next ≡ some q = simp own at there in
        let eq : q ≡ l.next = cc in
        let self : (q == l.next) ≡ true = ground arith in
        simp self (
          refl,
          ground arith,
          (record { ip = ip; lim = new_limiter l.r l.burst }, refl, sym (text_eq-eq k' ip own)),
        )
    | inr other ↦
        let (inside, below, (f, fe, fi)) = k k' q (simp other at there) in
        let d : (q == l.next) ≡ false = ground arith in simp d (inside, ground arith, (f, fe, fi))
  ]

  pub evict_back-length :
      (o : Option ℕ) (l : IpRateLimiter rl)
      → back l.lru ≡ o
      → (length (evict_back rl o l).lru ≡ 0) ⊎ (suc (length (evict_back rl o l).lru) ≡ length l.lru)
  unfolding evict_back
  evict_back-length none l b = inl (back-none l.lru b)
  evict_back-length (some old) l b = inr (length-front l.lru old b)

  pub evict_back-fields :
      (o : Option ℕ) (l : IpRateLimiter rl)
      → ((evict_back rl o l).next ≡ l.next)
        × ((evict_back rl o l).max_ips ≡ l.max_ips)
        × ((evict_back rl o l).elements ≡ l.elements)
        × (new_limiter (evict_back rl o l).r (evict_back rl o l).burst ≡ new_limiter l.r l.burst)
  unfolding evict_back
  evict_back-fields none l = (refl, refl, refl, refl)
  evict_back-fields (some old) l = (refl, refl, refl, refl)

  pub insert-evict-IsBounded :
      (ip : Text) (l : IpRateLimiter rl) → IsBounded l → IsBounded (insert rl ip (evict rl l))
  unfolding insert evict
  insert-evict-IsBounded ip l (one, k) = elim (Bool-cases (leb l.max_ips (length l.lru))) [
    | inr room ↦ simp room (one, ground arith)
    | inl full ↦
        let same = (evict_back-fields (back l.lru) l).1 in
        elim (evict_back-length (back l.lru) l refl) [
          | inl none_left ↦ simp full (ground arith, ground arith)
          | inr shorter ↦ simp full (ground arith, ground arith)
        ]
  ]

  pub take_known-IsIndexed :
      (now : Time) (ip : Text) (o : Option ℕ) (l : IpRateLimiter rl)
      → IsIndexed l
      → IsIndexed (take_known rl now ip o l).1
  unfolding take_known
  take_known-IsIndexed now ip (some el) l k =
      allow_at-IsIndexed now el (record l { lru = move_to_front el l.lru })
        (λ q p there.
          let (inside, below, rest) = k q p there in
          (is_in-move_to_front p el l.lru inside, below, rest))
  take_known-IsIndexed now ip none l k =
      allow_at-IsIndexed now (evict rl l).next (insert rl ip (evict rl l))
        (insert-IsIndexed ip (evict rl l) (evict-IsIndexed l k))

  pub allow_at-IsBounded :
      (now : Time) (p : ℕ) (o : Option (Entry rl)) (l : IpRateLimiter rl)
      → IsBounded l
      → IsBounded (allow_at rl now p o l).1
  unfolding allow_at
  allow_at-IsBounded now p none l k = k
  allow_at-IsBounded now p (some e) l k = k

  pub take_known-IsBounded :
      (now : Time) (ip : Text) (o : Option ℕ) (l : IpRateLimiter rl)
      → IsBounded l
      → IsBounded (take_known rl now ip o l).1
  unfolding take_known
  take_known-IsBounded now ip (some el) l (one, k) =
      let moved : IpRateLimiter rl = record l { lru = move_to_front el l.lru } in
      allow_at-IsBounded now el (l.elements el) moved
        (one, subst (λ (n : ℕ). n ≤ l.max_ips) (sym (length-move_to_front el l.lru)) k)
  take_known-IsBounded now ip none l k =
      let new = insert rl ip (evict rl l) in
      allow_at-IsBounded now (evict rl l).next (new.elements (evict rl l).next) new
        (insert-evict-IsBounded ip l k)

  pub known-max_ips :
      (now : Time) (ip : Text) (o : Option ℕ) (l : IpRateLimiter rl)
      → (take_known rl now ip o l).1.max_ips ≡ l.max_ips
  unfolding take_known insert evict
  known-max_ips now ip (some el) l =
      (allow_at-fields now el (l.elements el) (record l { lru = move_to_front el l.lru })).3
  known-max_ips now ip none l = elim (Bool-cases (leb l.max_ips (length l.lru))) [
    | inl full ↦
        (allow_at-fields now (evict rl l).next
          ((insert rl ip (evict rl l)).elements (evict rl l).next) (insert rl ip (evict rl l))).3
        ∙ simp full ((evict_back-fields (back l.lru) l).1)
    | inr room ↦
        (allow_at-fields now (evict rl l).next
          ((insert rl ip (evict rl l)).elements (evict rl l).next) (insert rl ip (evict rl l))).3
        ∙ simp room refl
  ]

  pub Reachable-held :
      {l : IpRateLimiter rl}
      → Reachable l
      → IsIndexed l × IsBounded l × (l.max_ips ≡ ip_limiter_cap)
  unfolding new_ip_rate_limiter take
  Reachable-held (initially burst window) =
      ((λ ip p there. absurd cc), (omega arith, omega arith), refl)
  Reachable-held (taken {l} now ip r) =
      let (k, b, top) = Reachable-held r in
      (
        take_known-IsIndexed now ip (l.limiters ip) l k,
        take_known-IsBounded now ip (l.limiters ip) l b,
        known-max_ips now ip (l.limiters ip) l ∙ top,
      )

  -- After any calls, the limiter remembers at most `ipLimiterCap` addresses, and each key of its map
  -- points to an element of the list that holds the entry of this very address.
  pub Reachable-IsBounded :
      (l : IpRateLimiter rl) → Reachable l → IsIndexed l × (length l.lru ≤ ip_limiter_cap)
  Reachable-IsBounded l r =
      let (k, (_, b), top) = Reachable-held r in (k, subst (λ (n : ℕ). length l.lru ≤ n) top b)
