-- ===== src/Notify/Format.antt =====
-- internal/notify/format.go: the events of a run, of an alert and of a health transition. The verbs
-- `%.1f` and `%q` of package fmt are parameters. Byte counts are int64 words.
pub mod Bytes
pub mod Events
use triagearr.Base.{
  ℕ, zero, suc, ◌+◌, ◌-◌, ◌/◌, List, [], ◌∷◌, ◌++◌, Bool, true, false, not, ◌&&◌, Option, none,
  some, ltb, leb, ◌==◌, if◌then◌else◌, length, is_empty,
}
use triagearr.Base.Int.{pos}
use triagearr.Base.Words.{modulus, half, lt64, mul64, sub64}
use triagearr.Base.Text.{Text, codes, decimal}
use triagearr.Types.{
  RunMode, live, dry_run, other_mode, ActionStatus, pending, running, succeeded, aborted_arr_fail,
  failed_qbit, aborted_nlink_check, skipped_cross_seed,
}
use triagearr.Float.{Float}
use triagearr.DiskWatcher.{Report, ReportItem, Alert, is_succeeded}
use triagearr.Notify.Event.{
  EventKind, run_executed, run_partial, run_failed, target_unreachable, health_degraded,
  health_recovered, test, other_kind, no_kind, severity_of, severity_info, HealthEvent, Payload,
  no_payload, of_run, of_alert, of_health, Event,
}

pub record Verbs (F : Type 0) : Type 0 where
  pub fixed1 : F → Text
  pub quoted : Text → Text

abbrev pub newline : Text
newline = 10 ∷ []

unfoldable pub mode_text : RunMode → Text
mode_text live = codes "live"
mode_text dry_run = codes "dry-run"
mode_text (other_mode m) = m

-- `%d` of an int64.
unfoldable pub decimal64 : ℕ → Text
decimal64 n = if ltb n half then decimal n else codes "-" ++ decimal (modulus - n)

-- `itemMark`; a status that it has no case for is its own text.
unfoldable pub item_mark : ActionStatus → Text
item_mark succeeded = codes "ok"
item_mark aborted_arr_fail = codes "failed: arr"
item_mark aborted_nlink_check = codes "aborted: nlink check"
item_mark failed_qbit = codes "failed: qbit"
item_mark skipped_cross_seed = codes "skipped: cross-seed"
item_mark pending = codes "pending"
item_mark running = codes "running"

-- The loop of `HumanBytes` on at most `fuel` rounds, for a `v` that is not negative: the divisor and
-- the exponent it ends with.
unfoldable pub scale : ℕ → ℕ → ℕ → ℕ → Option (ℕ × ℕ)
scale zero v div exp = none
scale (suc fuel) v div exp =
    let rest = scale fuel (v / 1024) (mul64 div 1024) (suc exp) in
    if leb 1024 v then rest else some (div, exp)

-- `"KMGTPE"[exp]`; nothing is a panic.
unfoldable pub letter_at : ℕ → Text → Option ℕ
letter_at n [] = none
letter_at zero (c ∷ s) = some c
letter_at (suc n) (c ∷ s) = letter_at n s

abbrev pub unit_letter : ℕ → Option ℕ
unit_letter exp = letter_at exp (codes "KMGTPE")

-- At most six rounds are ever made.
abbrev pub scale_fuel : ℕ
scale_fuel = 7

-- Nothing is a panic, or a loop that goes on.
abbrev pub scaled : ℕ → Option (ℕ × ℕ)
scaled n = scale scale_fuel (n / 1024) 1024 0

-- How many elements pass a test.
unfoldable pub count : {A : Type 0} → (A → Bool) → List A → ℕ
count p [] = 0
count p (x ∷ xs) = let rest = count p xs in if p x then suc rest else rest

abbrev pub item_succeeded : ReportItem → Bool
item_succeeded it = is_succeeded it.status

abbrev pub is_cross_seed_skip : ActionStatus → Bool
is_cross_seed_skip skipped_cross_seed = true
is_cross_seed_skip _ = false

unfoldable pub hard_failed : ReportItem → Bool
hard_failed it = not (item_succeeded it) && not (is_cross_seed_skip it.status)

module _ (fl : Float) (v : Verbs fl.F) where
  open fl use {F, of_int, div}
  open v use {fixed1, quoted}

  with_letter : ℕ → ℕ → Option ℕ → Text
  with_letter n d none = []
  with_letter n d (some c) =
      fixed1 (div (of_int (pos n)) (of_int (pos d))) ++ codes " " ++ (c ∷ codes "iB")

  with_scale : ℕ → Option (ℕ × ℕ) → Text
  unfolding with_letter
  with_scale n none = []
  with_scale n (some (d, exp)) = with_letter n d (unit_letter exp)

  -- `HumanBytes`; where it would panic, no text.
  unfoldable pub human_bytes : ℕ → Text
  unfolding with_scale
  human_bytes n = if lt64 n 1024 then decimal64 n ++ codes " B" else with_scale n (scaled n)

  abbrev pub succeeded_count : Report F → ℕ
  succeeded_count r = count item_succeeded r.items

  abbrev pub hard_failed_count : Report F → ℕ
  hard_failed_count r = count hard_failed r.items

  -- `RunOutcome`; its empty kind is `no_kind`.
  unfoldable pub run_outcome : Report F → EventKind
  run_outcome r =
      if is_empty r.items
      then no_kind
      else (if succeeded_count r == 0
          then run_failed
          else (if ltb 0 (hard_failed_count r) then run_partial else run_executed))

  item_name : ReportItem → Text
  item_name it = if is_empty it.name then it.hash else it.name

  item_line : ReportItem → Text
  unfolding item_name
  item_line it =
      codes "  • "
      ++ item_name it
      ++ codes " — "
      ++ human_bytes it.size_bytes
      ++ codes " ["
      ++ item_mark it.status
      ++ codes "]"
      ++ newline

  item_lines : List ReportItem → Text
  unfolding item_line
  item_lines [] = []
  item_lines (it ∷ rest) = item_line it ++ item_lines rest

  delta_line : Report F → Text
  delta_line r =
      if not (r.real_freed_bytes == 0) && lt64 0 r.total_freed_bytes
      then codes "Disk delta: "
        ++ human_bytes r.real_freed_bytes
        ++ codes " (claimed "
        ++ human_bytes r.total_freed_bytes
        ++ codes ")"
        ++ newline
      else []

  unfoldable pub run_text : Report F → Text
  unfolding delta_line item_lines mode_text
  run_text r =
      codes "Triagearr — disk pressure on "
      ++ quoted r.volume_name
      ++ newline
      ++ codes "Free space: "
      ++ fixed1 r.free_pct_before
      ++ codes "% -> "
      ++ fixed1 r.free_pct_after
      ++ codes "% (target "
      ++ fixed1 r.target_free_pct
      ++ codes "%)"
      ++ newline
      ++ codes "Disk free: "
      ++ human_bytes r.free_bytes_before
      ++ codes " -> "
      ++ human_bytes r.free_bytes_after
      ++ newline
      ++ codes "Run #"
      ++ decimal64 r.run_id
      ++ codes " · "
      ++ mode_text r.mode
      ++ codes " mode"
      ++ newline
      ++ newline
      ++ codes "Deleted "
      ++ decimal (succeeded_count r)
      ++ codes "/"
      ++ decimal (length r.items)
      ++ codes " items, "
      ++ human_bytes r.total_freed_bytes
      ++ codes " freed:"
      ++ newline
      ++ delta_line r
      ++ item_lines r.items
