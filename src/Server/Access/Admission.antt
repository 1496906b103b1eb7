-- ===== src/Server/Access/Admission.antt =====
-- `auth`: who is let in, as long as the cached flag is sound.
use triagearr.Base.{
  ℕ, ◌≤◌, ◌≡◌, ◌≢◌, refl, sym, ap, subst, ◌⊎◌, inl, inr, List, [], ◌∷◌, Bool, true, false, not,
  Option, none, some, arith, is_empty, Bool-cases, Any, and-true,
}
use triagearr.Base.Text.{Text, text_eq, text_eq-eq}
use triagearr.Types.{Time, Error, Result, ok, err}
use triagearr.Float.{sub_time}
use triagearr.Auth.{
  touch_auth_session, AuthUser, AuthDb, AuthSession, has_auth_user, lookup_auth_session,
}
use triagearr.Auth.Tables.{IsSession, lookup_auth_session-Any}
use triagearr.Server.Access.{
  is_stale, AuthStateCache, ServerState, Host, Call, count_users, lookup_session, touch_session,
  auth_enabled_ttl, Verdict, refused, admitted, is_fresh, count_again, cached_flag, auth_enabled,
  touched, with_session, found_session, with_cookie, resolve_session, has_api_key, with_user,
  with_enabled, auth,
}

-- A cached flag that says that there is no account is right, or was never stored by a check.
abbrev pub IsSound : Option AuthStateCache → List AuthUser → Type 0
IsSound none us = Unit
IsSound (some k) us = k.enabled ≡ false → (us ≡ []) ⊎ (k.checked_at ≡ 0)

-- The clock has left the first seconds of Go's year 1.
abbrev pub IsLate : Call → Type 0
IsLate c = auth_enabled_ttl ≤ c.now 0

has_auth_user-nil : (db : AuthDb) → has_auth_user db ≡ false → db.users ≡ []
unfolding has_auth_user
has_auth_user-nil db e = nil_of db.users e
  where
    nil_of : (us : List AuthUser) → not (is_empty us) ≡ false → us ≡ []
    nil_of [] e = refl
    nil_of (u ∷ us) e = absurd cc

-- The zero value is never fresh.
is_fresh-zero :
    (now : Time) (k : AuthStateCache)
    → auth_enabled_ttl ≤ now
    → k.checked_at ≡ 0
    → is_fresh now (some k) ≡ false
unfolding is_fresh sub_time
is_fresh-zero now k l z = ground arith

-- What a check of the flag comes to.
abbrev pub Checks : ServerState → Result Bool × ServerState → Type 0
Checks s out =
    (out.1.db ≡ s.db) × IsSound out.1.auth_state s.db.users × (out.0 ≡ ok false → s.db.users ≡ [])

module _ (c : Call) where
  count_again-db : (e : Option Error) (s : ServerState) → (count_again c e s).1.db ≡ s.db
  unfolding count_again
  count_again-db (some e) s = refl
  count_again-db none s = refl

  count_again-Checks :
      (e : Option Error) (s : ServerState)
      → IsSound s.auth_state s.db.users
      → Checks s (count_again c e s)
  unfolding count_again
  count_again-Checks (some e) s h = (refl, h, λ k. absurd cc)
  count_again-Checks none s h =
      (refl, λ k. inl (has_auth_user-nil s.db k), λ k. has_auth_user-nil s.db (flag_of _ k))
    where
      flag_of : (b : Bool) → ◌≡◌ {A = Result Bool} (ok b) (ok false) → b ≡ false
      flag_of b k = cc

  cached_flag-db :
      (b : Bool) (k : Option AuthStateCache) (s : ServerState) → (cached_flag c b k s).1.db ≡ s.db
  unfolding cached_flag
  cached_flag-db true (some k) s = refl
  cached_flag-db true none s = count_again-db (c.fault count_users) s
  cached_flag-db false none s = count_again-db (c.fault count_users) s
  cached_flag-db false (some k) s = count_again-db (c.fault count_users) s

  -- A check of the flag touches no table.
  pub auth_enabled-db : (s : ServerState) → (auth_enabled c s).1.db ≡ s.db
  unfolding auth_enabled
  auth_enabled-db s = cached_flag-db (is_fresh (c.now 0) s.auth_state) s.auth_state s

  cached_flag-Checks :
      (b : Bool) (k : Option AuthStateCache) (s : ServerState)
      → is_fresh (c.now 0) k ≡ b
      → s.auth_state ≡ k
      → auth_enabled_ttl ≤ c.now 0
      → IsSound k s.db.users
      → Checks s (cached_flag c b k s)
  unfolding cached_flag
  cached_flag-Checks true none s f e l h =
      count_again-Checks (c.fault count_users) s (subst (λ x. IsSound x s.db.users) (sym e) h)
  cached_flag-Checks false k s f e l h =
      count_again-Checks (c.fault count_users) s (subst (λ x. IsSound x s.db.users) (sym e) h)
  cached_flag-Checks true (some k) s f e l h = (
    refl,
    subst (λ x. IsSound x s.db.users) (sym e) h,
    λ r. elim (h (flag_of k.enabled r)) [
      | inl none_left ↦ none_left
      | inr zero_value ↦ absurd (let no = is_fresh-zero (c.now 0) k l zero_value in cc)
    ],
  )
    where
      flag_of : (b : Bool) → ◌≡◌ {A = Result Bool} (ok b) (ok false) → b ≡ false
      flag_of b k = cc

  pub auth_enabled-Checks :
      (s : ServerState)
      → auth_enabled_ttl ≤ c.now 0
      → IsSound s.auth_state s.db.users
      → Checks s (auth_enabled c s)
  unfolding auth_enabled
  auth_enabled-Checks s l h =
      cached_flag-Checks (is_fresh (c.now 0) s.auth_state) s.auth_state s refl refl l h

module _ (h : Host) (c : Call) where
  -- The request carries the token of a session of this user that has not expired.
  abbrev pub HasSession : AuthDb → ℕ → Type 0
  HasSession db uid =
      (token : Text) × (sess : AuthSession) × (c.cookie ≡ some token)
      × Any (IsSession (h.hash_token token) (c.now 2) sess) db.sessions
      × (sess.user_id ≡ uid)

  -- What the look-up of a session comes to.
  abbrev pub Resolves : ServerState → Option ℕ × ServerState → Type 0
  Resolves s out =
      (out.1.db.users ≡ s.db.users)
      × (out.1.auth_state ≡ s.auth_state)
      × ((out.0 ≡ none) ⊎ ((uid : ℕ) × (out.0 ≡ some uid) × HasSession s.db uid))

  touched-users :
      (hash : Text) (e : Option Error) (s : ServerState)
      → ((touched h c hash e s).db.users ≡ s.db.users)
        × ((touched h c hash e s).auth_state ≡ s.auth_state)
  unfolding touched touch_auth_session
  touched-users hash (some e) s = (refl, refl)
  touched-users hash none s = (refl, refl)

  with_session-Resolves :
      (hash : Text) (o : Option AuthSession) (s : ServerState)
      → ((sess : AuthSession) → o ≡ some sess → HasSession s.db sess.user_id)
      → Resolves s (with_session h c hash o s)
  unfolding with_session
  with_session-Resolves hash none s k = (refl, refl, inl refl)
  with_session-Resolves hash (some sess) s k =
      let found = k sess refl in
      elim (Bool-cases (is_stale h c sess)) [
        | inl stale ↦
            let (us, st) = touched-users hash (c.fault touch_session) s in
            simp stale (us, st, inr (sess.user_id, refl, found))
        | inr recent ↦ simp recent (refl, refl, inr (sess.user_id, refl, found))
      ]

  found_session-eq :
      (e : Option Error) (hash : Text) (s : ServerState) (sess : AuthSession)
      → found_session h c e hash s ≡ some sess
      → lookup_auth_session hash (c.now 2) s.db ≡ some sess
  unfolding found_session
  found_session-eq none hash s sess e = e
  found_session-eq (some x) hash s sess e = absurd cc

  with_cookie-Resolves :
      (k : Option Text) (s : ServerState) → c.cookie ≡ k → Resolves s (with_cookie h c k s)
  unfolding with_cookie
  with_cookie-Resolves none s e = (refl, refl, inl refl)
  with_cookie-Resolves (some []) s e = (refl, refl, inl refl)
  with_cookie-Resolves (some (x ∷ token)) s e =
      let hash = h.hash_token (x ∷ token) in
      with_session-Resolves hash (found_session h c (c.fault lookup_session) hash s) s (λ sess f. (
        x ∷ token,
        sess,
        e,
        lookup_auth_session-Any hash (c.now 2) s.db sess
            (found_session-eq (c.fault lookup_session) hash s sess f),
        refl,
      ))

  pub resolve_session-Resolves : (s : ServerState) → Resolves s (resolve_session h c s)
  unfolding resolve_session
  resolve_session-Resolves s = with_cookie-Resolves c.cookie s refl

  -- Why a request may pass: no account exists, a live session of the user, or the API key.
  abbrev pub MayPass : AuthDb → Option ℕ → Type 0
  MayPass db user =
      ((db.users ≡ []) × (user ≡ none))
      ⊎ ((uid : ℕ) × (user ≡ some uid) × HasSession db uid)
      ⊎ ((h.api_key ≢ []) × (c.header ≡ h.api_key) × (user ≡ none))

  abbrev pub Passes : AuthDb → Verdict → Type 0
  Passes db (refused n) = (n ≡ 401) ⊎ (n ≡ 500)
  Passes db (admitted user) = MayPass db user

  -- What `auth` comes to.
  abbrev pub Guards : AuthDb → Verdict × ServerState → Type 0
  Guards db out = (out.1.db.users ≡ db.users) × IsSound out.1.auth_state db.users × Passes db out.0

  has_api_key-eq : has_api_key h c ≡ true → (h.api_key ≢ []) × (c.header ≡ h.api_key)
  unfolding has_api_key
  has_api_key-eq e =
      let both = and-true (not (is_empty h.api_key)) (text_eq c.header h.api_key) e in
      (
        λ k. absurd (let no = ap (λ t. not (is_empty t)) k in cc),
        text_eq-eq c.header h.api_key both.1,
      )

  with_user-Guards :
      (s : ServerState) (out : Option ℕ × ServerState)
      → IsSound s.auth_state s.db.users
      → Resolves s out
      → Guards s.db (with_user h c out)
  unfolding with_user
  with_user-Guards s (some uid, t) k (us, st, inl none_found) = absurd cc
  with_user-Guards s (some uid, t) k (us, st, inr (u, same, found)) =
      (us, subst (λ x. IsSound x s.db.users) (sym st) k, inr (inl (u, same, found)))
  with_user-Guards s (none, t) k (us, st, r) = elim (Bool-cases (has_api_key h c)) [
    | inl key ↦
        let (some_key, same) = has_api_key-eq key in
        simp key
          (us, subst (λ x. IsSound x s.db.users) (sym st) k, inr (inr (some_key, same, refl)))
    | inr other ↦ simp other (us, subst (λ x. IsSound x s.db.users) (sym st) k, inl refl)
  ]

  with_enabled-Guards :
      (s : ServerState) (out : Result Bool × ServerState)
      → Checks s out
      → Guards s.db (with_enabled h c out)
  unfolding with_enabled
  with_enabled-Guards s (err e, t) (same, k, none_left) =
      (ap (λ (d : AuthDb). d.users) same, k, inr refl)
  with_enabled-Guards s (ok false, t) (same, k, none_left) =
      (ap (λ (d : AuthDb). d.users) same, k, inl (none_left refl, refl))
  with_enabled-Guards s (ok true, t) (same, k, none_left) =
      subst (λ (d : AuthDb). Guards d (with_user h c (resolve_session h c t))) same
        (with_user-Guards t (resolve_session h c t)
          (subst (λ (d : AuthDb). IsSound t.auth_state d.users) (sym same) k)
          (resolve_session-Resolves t))

  -- While the cached flag is sound and the clock is past Go's first seconds: `auth` changes no
  -- account and keeps the flag sound; it lets a request in only if there is no account, the request
  -- carries the token of a session that is stored and has not expired, whose user it then passes
  -- on, or a key is configured and the request's header is that key; and it refuses with the status
  -- 401 or 500.
  pub auth-Guards :
      (s : ServerState)
      → auth_enabled_ttl ≤ c.now 0
      → IsSound s.auth_state s.db.users
      → Guards s.db (auth h c s)
  unfolding auth
  auth-Guards s l k = with_enabled-Guards s (auth_enabled c s) (auth_enabled-Checks c s l k)
