-- ===== src/RunLock.antt =====
-- internal/runlock/runlock.go: the guard that lets at most one destructive run execute. A process is
-- a number, and has one `Lock`; the locks with a file share it. Only the kernel's verdict on the
-- file is a parameter. The mutex makes each operation on the registry one step.
pub mod Exclusive
use triagearr.Base.{
  ℕ, ◌≡◌, ◌⊎◌, Bool, true, false, not, ◌&&◌, ◌||◌, Option, none, some, ◌==◌, if◌then◌else◌,
}

-- `Lock`: whether the channel holds its token, whether there is a file, the armed run, and its
-- cancel function, a number.
pub record Lock : Type 0 where
  pub ch : Bool
  pub file : Bool
  pub run_id : ℕ
  pub cancel : Option ℕ

-- `New` and `Open`.
unfoldable pub new : Lock
new = record { ch = false; file = false; run_id = 0; cancel = none }

unfoldable pub open_at : Lock
open_at = record { ch = false; file = true; run_id = 0; cancel = none }

-- A lock, and the process whose open file has the kernel's lock.
pub record Slot : Type 0 where
  pub lock : Lock
  pub owner : Option ℕ

-- `flock(LOCK_UN)` gives up the lock of the caller's own open file.
abbrev pub given_up : ℕ → Option ℕ → Option ℕ
given_up p none = none
given_up p (some q) = if q == p then none else some q

-- `TryAcquire` after the token was put into the channel; `granted` is the kernel's verdict.
take_file : ℕ → Bool → Slot → Bool × Slot
take_file p true s = (true, record s { owner = some p })
take_file p false s = (false, record s { lock = record s.lock { ch = false } })

-- `TryAcquire` of process `p`.
unfoldable pub try_acquire : ℕ → Bool → Slot → Bool × Slot
unfolding take_file
try_acquire p granted s =
    let full = record s { lock = record s.lock { ch = true } } in
    if s.lock.ch
    then (false, s)
    else (if s.lock.file then take_file p granted full else (true, full))

-- `Arm`.
unfoldable pub arm : ℕ → ℕ → Lock → Lock
arm run_id cancel l = record l { run_id = run_id; cancel = some cancel }

-- `RequestStop`: the cancel function that it calls; nothing is `false`.
unfoldable pub request_stop : ℕ → Lock → Option ℕ
request_stop run_id l = if l.run_id == run_id then l.cancel else none

-- `Release`; the receive from the channel waits if it is empty.
unfoldable pub release : ℕ → Slot → Slot
release p s =
    let cleared = record s.lock { run_id = 0; cancel = none; ch = false } in
    if s.lock.file
    then record { lock = cleared; owner = given_up p s.owner }
    else record s { lock = cleared }

-- All processes.
pub record State : Type 0 where
  pub locks : ℕ → Lock
  pub owner : Option ℕ

abbrev pub slot : State → ℕ → Slot
slot s p = record { lock = s.locks p; owner = s.owner }

unfoldable pub with_slot : State → ℕ → Slot → State
with_slot s p t = record { locks = λ q. if q == p then t.lock else s.locks q; owner = t.owner }

-- The kernel grants an exclusive lock only if no other open file has it.
abbrev pub CanGrant : ℕ → Option ℕ → Type 0
CanGrant p none = Unit
CanGrant p (some q) = q ≡ p

-- A grant respects the kernel's promise, a refusal may have any reason.
abbrev pub IsVerdict : Bool → ℕ → Option ℕ → Type 0
IsVerdict true p owner = CanGrant p owner
IsVerdict false p owner = Unit

-- One step of one process. A process that dies loses its memory, and the kernel's lock.
pub data Step (s : State) : State → Type 0 where
  acquire :
      (p : ℕ) (granted : Bool)
      → IsVerdict granted p s.owner
      → Step s (with_slot s p (try_acquire p granted (slot s p)).1)
  arms :
      (p run cancel : ℕ)
      → Step s (with_slot s p (record (slot s p) { lock = arm run cancel (s.locks p) }))
  releases : (p : ℕ) → (s.locks p).ch ≡ true → Step s (with_slot s p (release p (slot s p)))
  dies :
      (p : ℕ)
      → Step s (
          with_slot s p (record {
            lock = record (s.locks p) { ch = false; run_id = 0; cancel = none };
            owner = given_up p s.owner;
          }))

abbrev pub start : (ℕ → Bool) → State
start files = record { locks = λ p. if files p then open_at else new; owner = none }

pub data Reachable (files : ℕ → Bool) : State → Type 0 where
  initially : Reachable files (start files)
  followed : {s t : State} → Reachable files s → Step s t → Reachable files t
