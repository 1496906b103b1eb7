-- ===== src/Server/Limiter/Buckets.antt =====
-- `ipRateLimiter`: each address has a bucket of its own.
use triagearr.Base.{
  ℕ, ◌≡◌, ◌∙◌, refl, sym, ap, ◌⊎◌, inl, inr, Bool, false, Option, none, some, arith, leb, ◌==◌,
  Bool-cases, length, ==-refl,
}
use triagearr.Base.Text.{Text, text_eq, text_eq_refl}
use triagearr.Types.{Time}
use triagearr.Server.Limiter.{
  RateLimit, move_to_front, back, Entry, IpRateLimiter, set, store_at, allow_at, forget, evict_back,
  evict, insert, take_known, take,
}
use triagearr.Server.Limiter.Bounded.{
  IsIndexed, Reachable, evict-IsIndexed, evict_back-fields, Reachable-held,
}

module _ (rl : RateLimit) where
  open rl use {Limiter, new_limiter, allow}

  abbrev lim_of : Option (Entry rl) → Option Limiter
  lim_of none = none
  lim_of (some e) = some e.lim

  -- What the map's pointer leads to.
  abbrev bucket_at : Option ℕ → (ℕ → Option (Entry rl)) → Option Limiter
  bucket_at none m = none
  bucket_at (some p) m = lim_of (m p)

  -- The token bucket of an address, if it is remembered.
  abbrev pub bucket : Text → IpRateLimiter rl → Option Limiter
  bucket ip l = bucket_at (l.limiters ip) l.elements

  -- The pointers of an address other than `p`.
  abbrev Avoids : Text → ℕ → IpRateLimiter rl → Type 0
  Avoids q p l = (p' : ℕ) → l.limiters q ≡ some p' → (p' == p) ≡ false

  store_at-other :
      (p q : ℕ) (e : Entry rl) (m : ℕ → Option (Entry rl))
      → (q == p) ≡ false
      → store_at rl p e m q ≡ m q
  unfolding store_at
  store_at-other p q e m d = simp d refl

  store_at-bucket :
      (p : ℕ) (e : Entry rl) (o : Option ℕ) (m : ℕ → Option (Entry rl))
      → ((p' : ℕ) → o ≡ some p' → (p' == p) ≡ false)
      → bucket_at o (store_at rl p e m) ≡ bucket_at o m
  store_at-bucket p e none m k = refl
  store_at-bucket p e (some p') m k = ap lim_of (store_at-other p p' e m (k p' refl))

  allow_at-bucket :
      (now : Time) (q : Text) (p : ℕ) (o : Option (Entry rl)) (l : IpRateLimiter rl)
      → Avoids q p l
      → bucket q (allow_at rl now p o l).1 ≡ bucket q l
  unfolding allow_at
  allow_at-bucket now q p none l k = refl
  allow_at-bucket now q p (some e) l k =
      store_at-bucket p (record e { lim = (allow now e.lim).1 }) (l.limiters q) l.elements k

  set-other :
      (q ip : Text) (v : Option ℕ) (m : Text → Option ℕ)
      → text_eq q ip ≡ false
      → set rl ip v m q ≡ m q
  unfolding set
  set-other q ip v m other = simp other refl

  next-Avoids : (q : Text) (l : IpRateLimiter rl) → IsIndexed rl l → Avoids q l.next l
  next-Avoids q l k = λ p there. let (_, below, _) = k q p there in ground arith

  insert-bucket :
      (q ip : Text) (l : IpRateLimiter rl)
      → text_eq q ip ≡ false
      → IsIndexed rl l
      → bucket q (insert rl ip l) ≡ bucket q l
  unfolding insert
  insert-bucket q ip l other k =
      let e : Entry rl = record { ip = ip; lim = new_limiter l.r l.burst } in
      ap (λ (o : Option ℕ). bucket_at o (store_at rl l.next e l.elements))
        (set-other q ip (some l.next) l.limiters other)
      ∙ store_at-bucket l.next e (l.limiters q) l.elements (next-Avoids q l k)

  forget-cases :
      (q : Text) (o : Option (Entry rl)) (m : Text → Option ℕ)
      → (forget rl o m q ≡ none) ⊎ (forget rl o m q ≡ m q)
  unfolding forget set
  forget-cases q none m = inr refl
  forget-cases q (some e) m = elim (Bool-cases (text_eq q e.ip)) [
    | inl own ↦ inl (simp own refl)
    | inr other ↦ inr (simp other refl)
  ]

  abbrev IsKept : Text → IpRateLimiter rl → IpRateLimiter rl → Type 0
  IsKept q l l' = (bucket q l' ≡ none) ⊎ (bucket q l' ≡ bucket q l)

  evict_back-IsKept :
      (q : Text) (o : Option ℕ) (l : IpRateLimiter rl) → IsKept q l (evict_back rl o l)
  unfolding evict_back
  evict_back-IsKept q none l = inr refl
  evict_back-IsKept q (some old) l = elim (forget-cases q (l.elements old) l.limiters) [
    | inl e ↦ inl (ap (λ (o : Option ℕ). bucket_at o l.elements) e)
    | inr e ↦ inr (ap (λ (o : Option ℕ). bucket_at o l.elements) e)
  ]

  evict-IsKept : (q : Text) (l : IpRateLimiter rl) → IsKept q l (evict rl l)
  unfolding evict
  evict-IsKept q l = elim (Bool-cases (leb l.max_ips (length l.lru))) [
    | inl full ↦ simp full (evict_back-IsKept q (back l.lru) l)
    | inr room ↦ simp room (inr refl)
  ]

  -- What a call for an address does: `b`, the bucket of the address or a new one, answers and is
  -- kept; the bucket of another address is forgotten or stays the same.
  abbrev pub Takes : Time → Text → IpRateLimiter rl → Bool × IpRateLimiter rl → Type 0
  Takes now ip l out =
      (b : Limiter) × ((bucket ip l ≡ some b)
        ⊎ ((bucket ip l ≡ none) × (b ≡ new_limiter l.r l.burst)))
      × (out.0 ≡ (allow now b).0)
      × (bucket ip out.1 ≡ some (allow now b).1)
      × ((q : Text) → text_eq q ip ≡ false → IsKept q l out.1)

  store_at-own : (p : ℕ) (e : Entry rl) (m : ℕ → Option (Entry rl)) → store_at rl p e m p ≡ some e
  unfolding store_at
  store_at-own p e m = simp (==-refl p) refl

  allow_at-own :
      (now : Time) (ip : Text) (p : ℕ) (o : Option (Entry rl)) (f : Entry rl) (l : IpRateLimiter rl)
      → o ≡ some f
      → l.limiters ip ≡ some p
      → ((allow_at rl now p o l).0 ≡ (allow now f.lim).0)
        × (bucket ip (allow_at rl now p o l).1 ≡ some (allow now f.lim).1)
  unfolding allow_at
  allow_at-own now ip p none f l e at = absurd cc
  allow_at-own now ip p (some g) f l e at =
      let same : g.lim ≡ f.lim = cc in
      let new : Entry rl = record g { lim = (allow now g.lim).1 } in
      (
        ap (λ (b : Limiter). (allow now b).0) same,
        ap (λ (x : Option ℕ). bucket_at x (store_at rl p new l.elements)) at
            ∙ ap lim_of (store_at-own p new l.elements)
            ∙ ap (λ (b : Limiter). some (allow now b).1) same,
      )

  other-Avoids :
      (q ip : Text) (el : ℕ) (l : IpRateLimiter rl)
      → text_eq q ip ≡ false
      → IsIndexed rl l
      → l.limiters ip ≡ some el
      → Avoids q el l
  other-Avoids q ip el l other k at = λ p there. elim (Bool-cases (p == el)) [
    | inr d ↦ d
    | inl same ↦
        let eq : p ≡ el = ground arith in
        let (_, _, (f, fe, fi)) = k q p there in
        let (_, _, (g, ge, gi)) = k ip el at in
        let one : l.elements p ≡ l.elements el = ap l.elements eq in
        let own : q ≡ ip = cc in let bad = text_eq_refl q in absurd cc
  ]

  insert-own : (ip : Text) (l : IpRateLimiter rl) → (insert rl ip l).limiters ip ≡ some l.next
  unfolding insert set
  insert-own ip l = simp (text_eq_refl ip) refl

  insert-entry :
      (ip : Text) (l : IpRateLimiter rl)
      → (insert rl ip l).elements l.next ≡ some (record { ip = ip; lim = new_limiter l.r l.burst })
  unfolding insert
  insert-entry ip l =
      store_at-own l.next (record { ip = ip; lim = new_limiter l.r l.burst }) l.elements

  evict-new :
      (l : IpRateLimiter rl)
      → new_limiter (evict rl l).r (evict rl l).burst ≡ new_limiter l.r l.burst
  unfolding evict
  evict-new l = elim (Bool-cases (leb l.max_ips (length l.lru))) [
    | inl full ↦ simp full ((evict_back-fields rl (back l.lru) l).3)
    | inr room ↦ simp room refl
  ]

  insert-Avoids :
      (q ip : Text) (l : IpRateLimiter rl)
      → text_eq q ip ≡ false
      → IsIndexed rl l
      → Avoids q l.next (insert rl ip l)
  unfolding insert
  insert-Avoids q ip l other k =
      λ p there. next-Avoids q l k p (sym (set-other q ip (some l.next) l.limiters other) ∙ there)

  take_known-Takes :
      (now : Time) (ip : Text) (o : Option ℕ) (l : IpRateLimiter rl)
      → l.limiters ip ≡ o
      → IsIndexed rl l
      → Takes now ip l (take_known rl now ip o l)
  unfolding take_known
  take_known-Takes now ip (some el) l at k =
      let (_, _, (f, fe, fi)) = k ip el at in
      let moved : IpRateLimiter rl = record l { lru = move_to_front el l.lru } in
      let (answer, kept) = allow_at-own now ip el (l.elements el) f moved fe at in
      (
        f.lim,
        inl (ap (λ (x : Option ℕ). bucket_at x l.elements) at ∙ ap lim_of fe),
        answer,
        kept,
        λ q other.
            inr
              (allow_at-bucket now q el (l.elements el) moved (other-Avoids q ip el l other k at)),
      )
  take_known-Takes now ip none l at k =
      let mid = evict rl l in
      let k' = evict-IsIndexed rl l k in
      let new = insert rl ip mid in
      let fresh : Entry rl = record { ip = ip; lim = new_limiter mid.r mid.burst } in
      let (answer, kept) =
        allow_at-own now ip mid.next (new.elements mid.next) fresh new (insert-entry ip mid)
          (insert-own ip mid) in
      (
        fresh.lim,
        inr (ap (λ (x : Option ℕ). bucket_at x l.elements) at, evict-new l),
        answer,
        kept,
        λ q other.
            let same =
              allow_at-bucket now q mid.next (new.elements mid.next) new
                (insert-Avoids q ip mid other k')
              ∙ insert-bucket q ip mid other k' in
            elim (evict-IsKept q l) [ inl e ↦ inl (same ∙ e) | inr e ↦ inr (same ∙ e) ],
      )

  -- In a limiter after any calls, a further call is answered by the bucket of its own address, or by a
  -- new one with the limiter's rate and burst if the address is not remembered; that bucket is kept,
  -- and the bucket of any other address is forgotten or stays as it was.
  pub take-Takes :
      (now : Time) (ip : Text) (l : IpRateLimiter rl)
      → Reachable rl l
      → Takes now ip l (take rl now ip l)
  unfolding take
  take-Takes now ip l r = take_known-Takes now ip (l.limiters ip) l refl (Reachable-held rl r).0
