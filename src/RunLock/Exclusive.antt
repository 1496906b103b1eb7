-- ===== src/RunLock/Exclusive.antt =====
-- At most one process holds the file-backed run lock, and a stop request reaches the armed run only.
use triagearr.Base.{
  ℕ, ◌≡◌, ◌∙◌, refl, sym, ap, subst, ◌⊎◌, inl, inr, Bool, true, false, Option, none, some, ◌==◌,
  arith, if◌then◌else◌, Bool-cases,
}
use triagearr.RunLock.{
  Lock, new, open_at, Slot, take_file, try_acquire, arm, request_stop, release, State, slot,
  with_slot, IsVerdict, CanGrant, Step, acquire, arms, releases, dies, start, Reachable, initially,
  followed, given_up,
}

-- A holder of a file-backed lock has the kernel's lock.
abbrev Holds : Lock → Option ℕ → ℕ → Type 0
Holds l owner p = l.file ≡ true → l.ch ≡ true → owner ≡ some p

Owned : State → Type 0
Owned s = (p : ℕ) → Holds (s.locks p) s.owner p

with_slot-Owned :
    (s : State) (p : ℕ) (t : Slot)
    → Owned s
    → Holds t.lock t.owner p
    → ((q : ℕ) → (q == p) ≡ false → s.owner ≡ some q → t.owner ≡ some q)
    → Owned (with_slot s p t)
unfolding with_slot Owned
with_slot-Owned s p t own mine others q = elim (Bool-cases (q == p)) [
  | inl same ↦
      let e : q ≡ p = ground arith in simp same (λ f c. mine f c ∙ ap (λ n. some n) (sym e))
  | inr other ↦ simp other (λ f c. others q other (own q f c))
]

try_acquire-Holds :
    (p : ℕ) (granted : Bool) (s : Slot)
    → Holds s.lock s.owner p
    → let t = (try_acquire p granted s).1 in Holds t.lock t.owner p
unfolding try_acquire take_file
try_acquire-Holds p granted s h = elim (Bool-cases s.lock.ch) [
  | inl full ↦ simp full (λ f c. h f full)
  | inr free ↦ elim (Bool-cases s.lock.file) [
    | inr memory ↦ simp (free, memory) (λ f c. absurd cc)
    | inl file ↦ elim (Bool-cases granted) [
      | inl grant ↦ simp (free, file, grant) (λ f c. refl)
      | inr deny ↦ simp (free, file, deny) (λ f c. absurd cc)
    ]
  ]
]

CanGrant-same : (p q : ℕ) (owner : Option ℕ) → CanGrant p owner → owner ≡ some q → q ≡ p
CanGrant-same p q none g e = absurd cc
CanGrant-same p q (some r) g e = cc

try_acquire-others :
    (p : ℕ) (granted : Bool) (s : Slot)
    → IsVerdict granted p s.owner
    → (q : ℕ) → (q == p) ≡ false
    → s.owner ≡ some q
    → (try_acquire p granted s).1.owner ≡ some q
unfolding try_acquire take_file
try_acquire-others p granted s v q n e = elim (Bool-cases s.lock.ch) [
  | inl full ↦ simp full e
  | inr free ↦ elim (Bool-cases s.lock.file) [
    | inr memory ↦ simp (free, memory) e
    | inl file ↦ elim (Bool-cases granted) [
      | inl grant ↦
          let same = CanGrant-same p q s.owner (subst (λ b. IsVerdict b p s.owner) grant v) e in
          absurd (ground arith)
      | inr deny ↦ simp (free, file, deny) e
    ]
  ]
]

given_up-others :
    (p q : ℕ) (owner : Option ℕ) → (q == p) ≡ false → owner ≡ some q → given_up p owner ≡ some q
given_up-others p q none n e = absurd cc
given_up-others p q (some r) n e = ground arith

release-others :
    (p : ℕ) (s : Slot) (q : ℕ) → (q == p) ≡ false → s.owner ≡ some q → (release p s).owner ≡ some q
unfolding release
release-others p s q n e = elim (Bool-cases s.lock.file) [
  | inl f ↦ simp f (given_up-others p q s.owner n e)
  | inr m ↦ simp m e
]

release-ch : (p : ℕ) (s : Slot) → (release p s).lock.ch ≡ false
unfolding release
release-ch p s = elim (Bool-cases s.lock.file) [ inl f ↦ simp f refl | inr m ↦ simp m refl ]

Step-Owned : {s t : State} → Step s t → Owned s → Owned t
unfolding Owned arm
Step-Owned {s} (acquire p granted v) own =
    with_slot-Owned s p _ own (try_acquire-Holds p granted (slot s p) (own p))
      (try_acquire-others p granted (slot s p) v)
Step-Owned {s} (arms p run cancel) own = with_slot-Owned s p _ own (own p) (λ q n e. e)
Step-Owned {s} (releases p c) own =
    with_slot-Owned s p _ own (λ f k. absurd (let no = release-ch p (slot s p) in cc))
      (release-others p (slot s p))
Step-Owned {s} (dies p) own =
    with_slot-Owned s p _ own (λ f k. absurd cc) (λ q. given_up-others p q s.owner)

start-Owned : (files : ℕ → Bool) → Owned (start files)
unfolding Owned new open_at
start-Owned files p = elim (Bool-cases (files p)) [
  | inl f ↦ simp f (λ a b. absurd cc)
  | inr m ↦ simp m (λ a b. absurd cc)
]

Reachable-Owned : (files : ℕ → Bool) {s : State} → Reachable files s → Owned s
Reachable-Owned files initially = start-Owned files
Reachable-Owned files (followed r step) = Step-Owned step (Reachable-Owned files r)

-- In every state that acquisitions, refused for any reason or granted as the kernel promises, arms,
-- releases and deaths of processes lead to, two processes that hold a file-backed lock are the same.
pub Reachable-exclusive :
    (files : ℕ → Bool) (s : State)
    → Reachable files s
    → (p q : ℕ) → (s.locks p).file ≡ true
    → (s.locks p).ch ≡ true
    → (s.locks q).file ≡ true
    → (s.locks q).ch ≡ true
    → p ≡ q
unfolding Owned
Reachable-exclusive files s r p q fp cp fq cq =
    let one = Reachable-Owned files r p fp cp in let two = Reachable-Owned files r q fq cq in cc

-- The token put into the channel and taken out again.
rolled_back :
    (s : Slot)
    → s.lock.ch ≡ false
    → s.lock.file ≡ true
    → record s { lock = record s.lock { ch = false; file = true } } ≡ s
rolled_back s free file =
    ap (λ (b : Bool). record s { lock = record s.lock { ch = b; file = true } }) (sym free)
    ∙ ap (λ (b : Bool). record s { lock = record s.lock { file = b } }) (sym file)

-- An acquisition either fails and leaves the lock and the file as they were, or it finds the channel
-- empty, fills it, and has the kernel's grant if there is a file.
pub try_acquire-cases :
    (p : ℕ) (granted : Bool) (s : Slot)
    → (try_acquire p granted s ≡ (false, s))
      ⊎ (((try_acquire p granted s).0 ≡ true)
          × (s.lock.ch ≡ false)
          × ((try_acquire p granted s).1.lock.ch ≡ true)
          × ((s.lock.file ≡ false)
              ⊎ ((granted ≡ true) × ((try_acquire p granted s).1.owner ≡ some p))))
unfolding try_acquire take_file
try_acquire-cases p granted s = elim (Bool-cases s.lock.ch) [
  | inl full ↦ simp full (inl refl)
  | inr free ↦ elim (Bool-cases s.lock.file) [
    | inr memory ↦ simp (free, memory) (inr (refl, refl, refl, inl refl))
    | inl file ↦ elim (Bool-cases granted) [
      | inl grant ↦ simp (free, file, grant) (inr (refl, refl, refl, inr (refl, refl)))
      | inr deny ↦
          simp (free, file, deny) (inl (ap (λ (t : Slot). (false, t)) (rolled_back s free file)))
    ]
  ]
]

-- After a run is armed, a stop request calls its cancel function exactly if it names that run; after
-- a release, no stop request calls any.
pub request_stop-arm-release :
    (run cancel r p : ℕ) (l : Lock) (s : Slot)
    → (request_stop r (arm run cancel l) ≡ (if run == r then some cancel else none))
      × (request_stop r (release p s).lock ≡ none)
unfolding request_stop arm release
request_stop-arm-release run cancel r p l s =
    (refl, elim (Bool-cases s.lock.file) [ inl f ↦ ground arith | inr m ↦ ground arith ])
