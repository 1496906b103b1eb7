-- ===== src/Notify/Dispatch/Ring.antt =====
-- `dispatch` and `record`: who is sent an event, and the ring of recent deliveries.
use triagearr.Base.{
  ℕ, zero, suc, ◌+◌, ◌-◌, ◌≤◌, ◌≡◌, ◌∙◌, refl, sym, ap, subst, inl, inr, List, [], ◌∷◌, ◌++◌, map,
  false, arith, ltb, length, length-append, select, Bool-cases, append-nil, append_assoc,
}
use triagearr.Notify.Event.{Event, allows}
use triagearr.Notify.Dispatch.{
  Notifier, Delivery, Dispatcher, delivery_ring_size, drop, keep_last, delivery, recorded, send_all,
  dispatch,
}

module _ {ℓ} {A : Type ℓ} where
  length-drop : (n : ℕ) (xs : List A) → length (drop n xs) ≡ length xs - n
  unfolding drop
  length-drop zero xs = omega arith
  length-drop (suc n) [] = omega arith
  length-drop (suc n) (x ∷ xs) = omega (arith, length-drop n xs)

  drop-append : (n : ℕ) (xs ys : List A) → n ≤ length xs → drop n (xs ++ ys) ≡ drop n xs ++ ys
  unfolding drop
  drop-append zero xs ys h = refl
  drop-append (suc n) [] ys h = absurd (omega arith)
  drop-append (suc n) (x ∷ xs) ys h = drop-append n xs ys (omega arith)

  drop-drop : (m n : ℕ) (xs : List A) → drop m (drop n xs) ≡ drop (n + m) xs
  unfolding drop
  drop-drop m zero xs = ap (λ (k : ℕ). drop k xs) (omega arith)
  drop-drop zero (suc n) [] =
      sym (ap (λ (k : ℕ). drop k []) {x = suc n + 0} {y = suc n} (omega arith))
  drop-drop (suc m) (suc n) [] =
      sym (ap (λ (k : ℕ). drop k []) {x = suc n + suc m} {y = suc (n + suc m)} (omega arith))
  drop-drop m (suc n) (x ∷ xs) =
      drop-drop m n xs
      ∙ sym (ap (λ (k : ℕ). drop k (x ∷ xs)) {x = suc n + m} {y = suc (n + m)} (omega arith))

  keep_last-drop : (m : ℕ) (xs : List A) → keep_last m xs ≡ drop (length xs - m) xs
  unfolding keep_last drop
  keep_last-drop m xs = elim (Bool-cases (ltb m (length xs))) [
    | inl long ↦ simp long refl
    | inr short ↦
        let none_dropped : length xs - m ≡ 0 = ground arith in simp (short, none_dropped) refl
  ]

  length-keep_last : (m : ℕ) (xs : List A) → length (keep_last m xs) ≤ m
  length-keep_last m xs =
      let e = ap length (keep_last-drop m xs) in
      let f = length-drop (length xs - m) xs in omega (arith, e, f)

  keep_last-append :
      (m : ℕ) (xs ys : List A) → keep_last m (keep_last m xs ++ ys) ≡ keep_last m (xs ++ ys)
  keep_last-append m xs ys =
      let a = length xs - m in
      let whole = length (xs ++ ys) in
      let joined : keep_last m xs ++ ys ≡ drop a (xs ++ ys) =
        ap (λ (k : List A). k ++ ys) (keep_last-drop m xs)
        ∙ sym (drop-append a xs ys (omega arith)) in
      ap (keep_last m) joined
      ∙ keep_last-drop m (drop a (xs ++ ys))
      ∙ drop-drop (length (drop a (xs ++ ys)) - m) a (xs ++ ys)
      ∙ ap (λ (k : ℕ). drop k (xs ++ ys))
          (omega (arith, length-drop a (xs ++ ys), length-append xs ys))
      ∙ sym (keep_last-drop m (xs ++ ys))

  keep_last-all : (m : ℕ) (xs : List A) → length xs ≤ m → keep_last m xs ≡ xs
  unfolding keep_last
  keep_last-all m xs h = let short : ltb m (length xs) ≡ false = ground arith in simp short refl

module _ {F : Type 0} where
  -- The providers that an event is for.
  abbrev pub admitted : Event F → List (Notifier F) → List (Notifier F)
  admitted ev ns = select (λ n. allows n.routing ev) ns

  abbrev pub logged : Event F → List (Notifier F) → List Delivery
  logged ev ns = map (λ n. delivery n ev) (admitted ev ns)

  -- A ring, its providers, and the ring after an event.
  abbrev pub Dispatches : Event F → Dispatcher F → List (Notifier F) × Dispatcher F → Type 0
  Dispatches ev d out =
      (out.0 ≡ admitted ev d.notifiers)
      × (out.1.notifiers ≡ d.notifiers)
      × (out.1.deliveries ≡ keep_last delivery_ring_size (d.deliveries ++ logged ev d.notifiers))
      × (length out.1.deliveries ≤ delivery_ring_size)

  send_all-sent :
      (ev : Event F) (ns : List (Notifier F)) (ds : List Delivery)
      → (send_all ev ns ds).0 ≡ admitted ev ns
  unfolding send_all
  send_all-sent ev [] ds = refl
  send_all-sent ev (n ∷ rest) ds = elim (Bool-cases (allows n.routing ev)) [
    | inr skip ↦ simp skip (send_all-sent ev rest ds)
    | inl send ↦ simp send (
        ap (λ (l : List (Notifier F)). n ∷ l) (send_all-sent ev rest (recorded (delivery n ev) ds)))
  ]

  send_all-ring :
      (ev : Event F) (ns : List (Notifier F)) (ds : List Delivery)
      → length ds ≤ delivery_ring_size
      → (send_all ev ns ds).1 ≡ keep_last delivery_ring_size (ds ++ logged ev ns)
  unfolding send_all recorded
  send_all-ring ev [] ds h =
      sym
        (ap (keep_last delivery_ring_size) (append-nil ds) ∙ keep_last-all delivery_ring_size ds h)
  send_all-ring ev (n ∷ rest) ds h = elim (Bool-cases (allows n.routing ev)) [
    | inr skip ↦ simp skip (send_all-ring ev rest ds h)
    | inl send ↦
        let one = delivery n ev in
        simp send (
          send_all-ring ev rest (recorded one ds)
            (length-keep_last delivery_ring_size (ds ++ one ∷ []))
          ∙ keep_last-append delivery_ring_size (ds ++ one ∷ []) (logged ev rest)
          ∙ ap (keep_last delivery_ring_size) (append_assoc ds (one ∷ []) (logged ev rest)))
  ]

  -- From a ring of at most a hundred deliveries, an event is sent to exactly the providers whose
  -- routing admits it, each once and in order; the ring then has the last hundred of what it had and
  -- of one delivery for each of them, whether it failed or not.
  pub dispatch-Dispatches :
      (ev : Event F) (d : Dispatcher F)
      → length d.deliveries ≤ delivery_ring_size
      → Dispatches ev d (dispatch ev d)
  unfolding dispatch
  dispatch-Dispatches ev d h =
      let ring = send_all-ring ev d.notifiers d.deliveries h in
      (
        send_all-sent ev d.notifiers d.deliveries,
        refl,
        ring,
        subst (λ (l : List Delivery). length l ≤ delivery_ring_size) (sym ring)
            (length-keep_last delivery_ring_size (d.deliveries ++ logged ev d.notifiers)),
      )
