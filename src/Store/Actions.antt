-- ===== src/Store/Actions.antt =====
-- internal/store/actions_repos.go: the tables `actions` and `audit_log`, which keep what a run has done.
-- A statement of SQLite may fail, and then changes nothing.
pub mod Logged
use triagearr.Base.{
  ℕ, suc, List, [], ◌∷◌, ◌++◌, map, Bool, true, false, not, ◌&&◌, Option, none, some, leb, ◌==◌,
  if◌then◌else◌, any, select,
}
use triagearr.Base.Text.{Text}
use triagearr.Types.{Time, Error, Action, ActionStatus, AuditEntry, AuditStep, AuditOutcome}

-- `auditRow`; nothing is NULL.
pub record AuditRow : Type 0 where
  pub action_id : ℕ
  pub ts : Time
  pub step : AuditStep
  pub arr_type : Option Text
  pub arr_file_id : Option ℕ
  pub outcome : AuditOutcome
  pub detail : Option Text

-- The tables, in the order of insertion, and the next id of an action.
pub record ActionDb : Type 0 where
  pub actions : List Action
  pub audit_log : List AuditRow
  pub next_action : ℕ

-- A row of the same run and rank violates the unique key.
same_rank : Action → Action → Bool
same_rank a b = a.run_id == b.run_id && a.rank == b.rank

-- `InsertAction`; nothing is an error, also that of a run that does not exist, in a table which is
-- not one of these. `finished_at` is not among the columns.
unfoldable pub insert_action_row : Option Error → Action → ActionDb → Option ℕ × ActionDb
unfolding same_rank
insert_action_row (some e) a db = (none, db)
insert_action_row none a db =
    let new = record a { id = db.next_action; finished_at = none } in
    let out : Option ℕ × ActionDb = (
      some db.next_action,
      record db { actions = db.actions ++ new ∷ []; next_action = suc db.next_action },
    ) in
    if any (same_rank a) db.actions then (none, db) else out

with_finish : ActionStatus → Time → ℕ → Action → Action
with_finish status at freed a = record a {
  status = status;
  finished_at = some at;
  freed_bytes = freed;
}

unfoldable pub update_action : ℕ → (Action → Action) → List Action → List Action
update_action id f [] = []
update_action id f (a ∷ rest) =
    let more = update_action id f rest in if a.id == id then f a ∷ more else a ∷ more

-- `FinishAction`: whether it succeeds, and the tables.
unfoldable pub finish_action_row :
    Option Error → ℕ → ActionStatus → Time → ℕ → ActionDb → Bool × ActionDb
unfolding with_finish
finish_action_row (some e) id status at freed db = (false, db)
finish_action_row none id status at freed db = (
  any (λ (a : Action). a.id == id) db.actions,
  record db { actions = update_action id (with_finish status at freed) db.actions },
)

-- NULL for the zero value.
unfoldable pub null_text : Text → Option Text
null_text [] = none
null_text (c ∷ s) = some (c ∷ s)

unfoldable pub null_number : ℕ → Option ℕ
null_number n = if n == 0 then none else some n

unfoldable pub to_row : AuditEntry → AuditRow
to_row e = record {
  action_id = e.action_id;
  ts = e.timestamp;
  step = e.step;
  arr_type = null_text e.arr_type;
  arr_file_id = null_number e.arr_file_id;
  outcome = e.outcome;
  detail = null_text e.detail;
}

-- `AppendAudit`, for an action that exists: the foreign key.
unfoldable pub append_audit_row : Option Error → AuditEntry → ActionDb → Bool × ActionDb
append_audit_row (some e) entry db = (false, db)
append_audit_row none entry db =
    if any (λ (a : Action). a.id == entry.action_id) db.actions
    then (true, record db { audit_log = db.audit_log ++ to_row entry ∷ [] })
    else (false, db)

-- The zero value for NULL.
abbrev pub text_or_empty : Option Text → Text
text_or_empty none = []
text_or_empty (some s) = s

abbrev pub number_or_zero : Option ℕ → ℕ
number_or_zero none = 0
number_or_zero (some n) = n

unfoldable pub to_entry : AuditRow → AuditEntry
to_entry r = record {
  action_id = r.action_id;
  timestamp = r.ts;
  step = r.step;
  arr_type = text_or_empty r.arr_type;
  arr_file_id = number_or_zero r.arr_file_id;
  outcome = r.outcome;
  detail = text_or_empty r.detail;
}

-- `GetAction`; nothing is `sql.ErrNoRows`.
unfoldable pub find_action : ℕ → List Action → Option Action
find_action id [] = none
find_action id (a ∷ rest) = let more = find_action id rest in if a.id == id then some a else more

-- `ORDER BY rank ASC`.
unfoldable pub insert_action_by_rank : Action → List Action → List Action
insert_action_by_rank a [] = a ∷ []
insert_action_by_rank a (x ∷ xs) =
    let more = insert_action_by_rank a xs in if leb a.rank x.rank then a ∷ x ∷ xs else x ∷ more

unfoldable pub actions_by_rank : List Action → List Action
actions_by_rank [] = []
actions_by_rank (x ∷ xs) = insert_action_by_rank x (actions_by_rank xs)

-- `ListActionsByRun`.
unfoldable pub list_actions_of_run : ℕ → ActionDb → List Action
list_actions_of_run run_id db =
    actions_by_rank (select (λ (a : Action). a.run_id == run_id) db.actions)

-- `ListAuditByAction`: the log is in the order of its ids.
unfoldable pub list_audit_by_action : ℕ → ActionDb → List AuditEntry
list_audit_by_action id db =
    map to_entry (select (λ (r : AuditRow). r.action_id == id) db.audit_log)
