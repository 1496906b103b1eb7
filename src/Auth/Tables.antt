-- ===== src/Auth/Tables.antt =====
-- What the statements on the two tables leave alone, and what a row that is found is.
use triagearr.Base.{
  ℕ, ◌≤◌, ◌≡◌, refl, sym, List, [], ◌∷◌, ◌++◌, Bool, true, Option, none, some, arith, ltb,
  Bool-cases, Any, inl, inr, subst,
}
use triagearr.Base.Text.{Text, text_eq, text_eq-eq}
use triagearr.Types.{Time}
use triagearr.Auth.{
  AuthUser, AuthSession, AuthDb, first, get_auth_user_by_name, add_user, insert_auth_user,
  add_session, insert_auth_session, unless_expired, lookup_auth_session,
}

-- A row that is found stands in the table and passes the test.
pub first-Any :
    {A : Type 0} (p : A → Bool) (xs : List A) (a : A) (P : A → Type 0)
    → ((x : A) → p x ≡ true → x ≡ a → P x)
    → first p xs ≡ some a
    → Any P xs
unfolding first
first-Any p [] a P k e = absurd cc
first-Any p (x ∷ xs) a P k e = elim (Bool-cases (p x)) [
  | inl h ↦ let e1 = simp h at e in inl (k x h (cc))
  | inr h ↦ let e1 = simp h at e in inr (first-Any p xs a P k e1)
]

-- One session of the account was added, and nothing else.
abbrev pub Opened : ℕ → AuthDb → AuthDb → Type 0
Opened uid db d =
    (d.users ≡ db.users)
    × ((s : AuthSession) × (d.sessions ≡ db.sessions ++ s ∷ []) × (s.user_id ≡ uid))

-- The result of an insertion, if there is one.
abbrev pub Inserted : (AuthDb → Type 0) → Option AuthDb → Type 0
Inserted P none = Unit
Inserted P (some d) = P d

add_session-Opened :
    (s : AuthSession) (o : Option AuthSession) (db : AuthDb)
    → Inserted (Opened s.user_id db) (add_session s o db)
unfolding add_session
add_session-Opened s none db = (refl, (s, refl, refl))
add_session-Opened s (some t) db = tt

pub insert_auth_session-Opened :
    (hash : Text) (uid : ℕ) (expires now : Time) (db : AuthDb)
    → Inserted (Opened uid db) (insert_auth_session hash uid expires now db)
unfolding insert_auth_session
insert_auth_session-Opened hash uid expires now db =
    add_session-Opened _ (first (λ s. text_eq s.token_hash hash) db.sessions) db

-- An account was added.
abbrev pub Joined : AuthDb → AuthDb → Type 0
Joined db d = (u : AuthUser) × (d.users ≡ db.users ++ u ∷ [])

add_user-Joined :
    (u : AuthUser) (o : Option AuthUser) (db : AuthDb) → Inserted (Joined db) (add_user u o db)
unfolding add_user
add_user-Joined u none db = (u, refl)
add_user-Joined u (some t) db = tt

pub insert_auth_user-Joined :
    (name hash : Text) (now : Time) (id : ℕ) (db : AuthDb)
    → Inserted (Joined db) (insert_auth_user name hash now id db)
unfolding insert_auth_user
insert_auth_user-Joined name hash now id db = add_user-Joined _ (get_auth_user_by_name name db) db

-- A session that is looked up is stored under the hash, and has not expired.
abbrev pub IsSession : Text → Time → AuthSession → AuthSession → Type 0
IsSession hash now sess s = (s ≡ sess) × (s.token_hash ≡ hash) × (now ≤ s.expires_at)

unless_expired-le :
    (now : Time) (o : Option AuthSession) (sess : AuthSession)
    → unless_expired now o ≡ some sess
    → (o ≡ some sess) × (now ≤ sess.expires_at)
unfolding unless_expired
unless_expired-le now none sess e = absurd cc
unless_expired-le now (some s) sess e = elim (Bool-cases (ltb s.expires_at now)) [
  | inl h ↦ let e1 : ◌≡◌ {A = Option AuthSession} none (some sess) = simp h at e in absurd cc
  | inr h ↦
      let e1 : ◌≡◌ {A = Option AuthSession} (some s) (some sess) = simp h at e in
      let same : s ≡ sess = cc in
      (e1, subst (λ (x : AuthSession). now ≤ x.expires_at) same (ground arith))
]

pub lookup_auth_session-Any :
    (hash : Text) (now : Time) (db : AuthDb) (sess : AuthSession)
    → lookup_auth_session hash now db ≡ some sess
    → Any (IsSession hash now sess) db.sessions
unfolding lookup_auth_session
lookup_auth_session-Any hash now db sess e =
    let (found, alive) =
      unless_expired-le now (first (λ s. text_eq s.token_hash hash) db.sessions) sess e in
    first-Any (λ s. text_eq s.token_hash hash) db.sessions sess (IsSession hash now sess)
      (λ s h same. (
        same,
        text_eq-eq s.token_hash hash h,
        subst (λ (x : AuthSession). now ≤ x.expires_at) (sym same) alive,
      ))
      found

pub get_auth_user_by_name-Any :
    (name : Text) (db : AuthDb) (u : AuthUser)
    → get_auth_user_by_name name db ≡ some u
    → Any (λ (x : AuthUser). (x ≡ u) × (x.username ≡ name)) db.users
unfolding get_auth_user_by_name
get_auth_user_by_name-Any name db u e =
    first-Any (λ x. text_eq x.username name) db.users u
      (λ (x : AuthUser). (x ≡ u) × (x.username ≡ name))
      (λ x h same. (same, text_eq-eq x.username name h)) e
