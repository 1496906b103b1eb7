-- ===== src/Pollers/Tracker/Catchup.antt =====
-- The tracker poller loses no signal, and catches up only when asked.
use triagearr.Base.{
  ℕ, suc, ◌≡◌, refl, ◌⊎◌, List, [], ◌∷◌, ◌++◌, map, Bool, true, false, Option, none, some,
  Bool-cases, inl, inr,
}
use triagearr.Types.{Hash, Error}
use triagearr.Pollers.Tracker.{
  PassAnswers, Fetched, fetched, fetch_failed, attempt_of, fetch_one, fetch_from_number, fetch_all,
  Pass, sweep, catchup, Wake, full_fired, signalled, debounce_fired, Loop, begin_loop, react,
}

-- A timer fires only while it runs; a signal may come at any time.
abbrev pub CanWake : Wake → Loop → Type 0
CanWake full_fired l = l.full_running ≡ true
CanWake signalled l = Unit
CanWake debounce_fired l = l.debounce_running ≡ true

-- What the loop has received and which pass it then ran, newest first.
abbrev pub Log : Type 0
Log = List (Wake × Option Pass)

-- Whether a signal came after the last catch-up that was run.
abbrev pub waits : Log → Bool
waits [] = false
waits ((w, some catchup) ∷ log) = false
waits ((w, some sweep) ∷ log) = waits log
waits ((signalled, none) ∷ log) = true
waits ((full_fired, none) ∷ log) = waits log
waits ((debounce_fired, none) ∷ log) = waits log

-- Sweeps are run by the timer of the sweeps, each time; a catch-up only by the other timer, and only
-- where a signal waits.
abbrev pub IsDue : Wake → Option Pass → Bool → Type 0
IsDue full_fired p waiting = p ≡ some sweep
IsDue signalled p waiting = p ≡ none
IsDue debounce_fired p waiting = (p ≡ some catchup) × (waiting ≡ true)

abbrev pub AreDue : Log → Type 0
AreDue [] = Unit
AreDue ((w, p) ∷ log) = IsDue w p (waits log) × AreDue log

-- The loop after any events.
pub data Reachable : Loop → Log → Type 0 where
  initially : Reachable begin_loop []
  woken :
      {l : Loop} {log : Log} (w : Wake)
      → CanWake w l
      → Reachable l log
      → Reachable (react w l).0 ((w, (react w l).1) ∷ log)

-- The loop and the log agree.
abbrev pub IsInStep : Loop → Log → Type 0
IsInStep l log =
    (l.debouncing ≡ waits log)
    × (l.debounce_running ≡ waits log)
    × (l.full_running ≡ true)
    × AreDue log

react-IsInStep :
    (w : Wake) (l : Loop) (log : Log)
    → CanWake w l
    → IsInStep l log
    → IsInStep (react w l).0 ((w, (react w l).1) ∷ log)
unfolding react
react-IsInStep full_fired l log can (d, r, f, due) = (d, r, refl, (refl, due))
react-IsInStep debounce_fired l log can (d, r, f, due) =
    let waiting : waits log ≡ true = cc in (refl, refl, f, ((refl, waiting), due))
react-IsInStep signalled l log can (d, r, f, due) = elim (Bool-cases l.debouncing) [
  | inl busy ↦
      let waiting : waits log ≡ true = cc in
      let runs : l.debounce_running ≡ true = cc in simp busy (refl, runs, f, (refl, due))
  | inr idle ↦ simp idle (refl, refl, f, (refl, due))
]

-- After any events, timers firing only while they run: the catch-up timer runs exactly while a signal
-- came after the last catch-up that was run, so that no signal is lost; every catch-up was run by
-- that timer, with such a signal waiting; and the timer of the sweeps is always running, and each
-- time that it fired, a sweep was run.
pub Reachable-IsInStep : (l : Loop) (log : Log) → Reachable l log → IsInStep l log
unfolding begin_loop
Reachable-IsInStep l log initially = (refl, refl, refl, tt)
Reachable-IsInStep l log (woken {l = before} {log = earlier} w can r) =
    react-IsInStep w before earlier can (Reachable-IsInStep before earlier r)

module _ (a : PassAnswers) where
  abbrev pub hash_of : Fetched → Hash
  hash_of (fetched h) = h
  hash_of (fetch_failed h e) = h

  attempt_of-hash : (h : Hash) (o : Option Error) → hash_of (attempt_of a h o) ≡ h
  attempt_of-hash h none = refl
  attempt_of-hash h (some e) = refl

  -- What a pass has come to is the first torrents, each once and in order.
  fetch_from_number-prefix :
      (n : ℕ) (hs : List Hash)
      → (rest : List Hash) × (map hash_of (fetch_from_number a n hs) ++ rest ≡ hs)
        × ((rest ≡ []) ⊎ ((k : ℕ) × (a.cancelled k ≡ true)))
  unfolding fetch_from_number
  fetch_from_number-prefix n [] = ([], refl, inl refl)
  fetch_from_number-prefix n (h ∷ hs) = elim (Bool-cases (a.cancelled n)) [
    | inl gone ↦ simp gone (h ∷ hs, refl, inr (n, gone))
    | inr runs ↦
        let (rest, e, why) = fetch_from_number-prefix (suc n) hs in
        let own = attempt_of-hash h (fetch_one a h) in simp runs (rest, cc, why)
  ]

  -- A pass tries the torrents that it was given, each once and in order, whether others failed or
  -- not; some are left out only if the context was cancelled.
  pub fetch_all-prefix :
      (hs : List Hash)
      → (rest : List Hash) × (map hash_of (fetch_all a hs) ++ rest ≡ hs)
        × ((rest ≡ []) ⊎ ((k : ℕ) × (a.cancelled k ≡ true)))
  unfolding fetch_all
  fetch_all-prefix [] = ([], refl, inl refl)
  fetch_all-prefix (h ∷ hs) = fetch_from_number-prefix 0 (h ∷ hs)
