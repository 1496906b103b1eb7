-- ===== src/HealthWatcher/Transitions.antt =====
-- `HealthWatcher`: the notifications of one connection alternate.
use triagearr.Base.{
  ◌≡◌, ◌∙◌, refl, sym, ap, subst, inl, inr, List, [], ◌∷◌, ◌++◌, Bool, true, false, not, Option,
  none, some, if◌then◌else◌, is_some, All, Bool-cases,
}
use triagearr.Base.Text.{Text, text_eq, text_eq-eq, codes}
use triagearr.Types.{Error, Result, ok, err}
use triagearr.Notify.Event.{HealthEvent}
use triagearr.HealthWatcher.{
  Instance, NotificationState, HealthStore, health_key, transition, unless_unread, event_of,
  reconcile, reconcile_all, with_clients, with_arrs, health_tick, health_ticks,
}

abbrev pub key_of : HealthEvent → Text
key_of ev = health_key ev.kind ev.component

-- The events of one key: whether each says that the connection is healthy.
unfoldable pub flags : Text → List HealthEvent → List Bool
flags q [] = []
flags q (e ∷ es) = let rest = flags q es in if text_eq q (key_of e) then e.healthy ∷ rest else rest

-- From `a`, whether an alert is open, to `b`: a recovery closes an open one, a failure opens one.
abbrev pub Alternates : Bool → List Bool → Bool → Type 0
Alternates a [] b = a ≡ b
Alternates a (h ∷ hs) b = (h ≡ a) × Alternates (not h) hs b

Alternates-append :
    (a b c : Bool) (xs ys : List Bool)
    → Alternates a xs b
    → Alternates b ys c
    → Alternates a (xs ++ ys) c
Alternates-append a b c [] ys e k = subst (λ (x : Bool). Alternates x ys c) (sym e) k
Alternates-append a b c (h ∷ hs) ys (e, rest) k = (e, Alternates-append (not h) b c hs ys rest k)

flags-append : (q : Text) (xs ys : List HealthEvent) → flags q (xs ++ ys) ≡ flags q xs ++ flags q ys
unfolding flags
flags-append q [] ys = refl
flags-append q (e ∷ es) ys = elim (Bool-cases (text_eq q (key_of e))) [
  | inl own ↦ simp own (ap (λ (l : List Bool). e.healthy ∷ l) (flags-append q es ys))
  | inr other ↦ simp other (flags-append q es ys)
]

-- The table and the events of one key agree.
abbrev pub Tracks : Text → NotificationState → List HealthEvent × NotificationState → Type 0
Tracks q t out = Alternates (is_some (t q)) (flags q out.0) (is_some (out.1 q))

Tracks-append :
    (q : Text) (t : NotificationState) (one more : List HealthEvent × NotificationState)
    → Tracks q t one
    → Tracks q one.1 more
    → Tracks q t (one.0 ++ more.0, more.1)
Tracks-append q t one more h k =
    subst (λ (l : List Bool). Alternates (is_some (t q)) l (is_some (more.1 q)))
      (sym (flags-append q one.0 more.0))
      (Alternates-append (is_some (t q)) (is_some (one.1 q)) (is_some (more.1 q)) (flags q one.0)
        (flags q more.0) h k)

-- No write of a tick fails.
abbrev pub Writes : HealthStore → Type 0
Writes st = ((k : Text) → st.mark_fault k ≡ none) × ((k : Text) → st.clear_fault k ≡ none)

module _ (st : HealthStore) (fine : Writes st) where
  transition-Tracks :
      (q : Text) (ev : HealthEvent) (t : NotificationState) (a : Bool)
      → is_some (t (key_of ev)) ≡ a
      → Tracks q t (transition st (key_of ev) ev a t)
  unfolding transition flags
  transition-Tracks q ev t true opened = elim (Bool-cases ev.healthy) [
    | inr bad ↦ simp bad refl
    | inl good ↦ elim (Bool-cases (text_eq q (key_of ev))) [
      | inr other ↦ simp (good, fine.1 (key_of ev), other) refl
      | inl own ↦
          let here : is_some (t q) ≡ true =
            ap (λ (k : Text). is_some (t k)) (text_eq-eq q (key_of ev) own) ∙ opened in
          simp (good, fine.1 (key_of ev), own, here) (refl, refl)
    ]
  ]
  transition-Tracks q ev t false closed = elim (Bool-cases ev.healthy) [
    | inl good ↦ simp good refl
    | inr bad ↦ elim (Bool-cases (text_eq q (key_of ev))) [
      | inr other ↦ simp (bad, fine.0 (key_of ev), other) refl
      | inl own ↦
          let here : is_some (t q) ≡ false =
            ap (λ (k : Text). is_some (t k)) (text_eq-eq q (key_of ev) own) ∙ closed in
          simp (bad, fine.0 (key_of ev), own, here) (refl, refl)
    ]
  ]

  unless_unread-Tracks :
      (q : Text) (o : Option Error) (ev : HealthEvent) (t : NotificationState)
      → Tracks q t (unless_unread st o (key_of ev) ev t)
  unfolding unless_unread flags
  unless_unread-Tracks q (some e) ev t = refl
  unless_unread-Tracks q none ev t = transition-Tracks q ev t (is_some (t (key_of ev))) refl

  reconcile-Tracks :
      (q kind : Text) (i : Instance) (t : NotificationState) → Tracks q t (reconcile st kind i t)
  unfolding reconcile event_of
  reconcile-Tracks q kind i t =
      unless_unread-Tracks q (st.read_fault (health_key kind i.kind)) (event_of st kind i) t

  reconcile_all-Tracks :
      (q kind : Text) (is : List Instance) (t : NotificationState)
      → Tracks q t (reconcile_all st kind is t)
  unfolding reconcile_all flags
  reconcile_all-Tracks q kind [] t = refl
  reconcile_all-Tracks q kind (i ∷ rest) t =
      let one = reconcile st kind i t in
      Tracks-append q t one (reconcile_all st kind rest one.1) (reconcile-Tracks q kind i t)
        (reconcile_all-Tracks q kind rest one.1)

  with_clients-Tracks :
      (q : Text) (r : Result (List Instance)) (t : NotificationState)
      → Tracks q t ((with_clients st r t).1, (with_clients st r t).2)
  unfolding with_clients flags
  with_clients-Tracks q (err e) t = refl
  with_clients-Tracks q (ok tcs) t = reconcile_all-Tracks q (codes "torrent_client") tcs t

  with_arrs-Tracks :
      (q : Text) (r : Result (List Instance)) (t : NotificationState)
      → Tracks q t ((with_arrs st r t).1, (with_arrs st r t).2)
  unfolding with_arrs flags
  with_arrs-Tracks q (err e) t = refl
  with_arrs-Tracks q (ok arrs) t =
      let one = reconcile_all st (codes "arr") arrs t in
      let two = with_clients st st.list_torrent_client_instances one.1 in
      Tracks-append q t one (two.1, two.2) (reconcile_all-Tracks q (codes "arr") arrs t)
        (with_clients-Tracks q st.list_torrent_client_instances one.1)

  health_tick-Tracks :
      (q : Text) (n : Bool) (t : NotificationState)
      → Tracks q t ((health_tick st n t).1, (health_tick st n t).2)
  unfolding health_tick flags
  health_tick-Tracks q false t = refl
  health_tick-Tracks q true t = with_arrs-Tracks q st.list_arr_instances t

-- Over any ticks in which no write of the notification state fails, reads and listings failing or
-- not, the notifications of each connection alternate: one of a failure only while no alert is open,
-- one of a recovery only while one is; and the table has a row exactly while one is open.
pub health_ticks-Tracks :
    (q : Text) (has_notifier : Bool) (ticks : List HealthStore) (t : NotificationState)
    → All Writes ticks
    → Tracks q t (health_ticks has_notifier ticks t)
unfolding health_ticks flags
health_ticks-Tracks q n [] t fine = refl
health_ticks-Tracks q n (st ∷ rest) t fine =
    let one = health_tick st n t in
    Tracks-append q t (one.1, one.2) (health_ticks n rest one.2)
      (health_tick-Tracks st fine.0 q n t) (health_ticks-Tracks q n rest one.2 fine.1)
