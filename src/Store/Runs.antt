-- ===== src/Store/Runs.antt =====
-- internal/store/runs_repos.go: the tables `runs` and `run_items`. A statement of SQLite may fail, and
-- then changes nothing; the keys of the tables are those of the migrations.
pub mod Stored
use triagearr.Base.{
  ℕ, zero, suc, ◌+◌, List, [], ◌∷◌, ◌++◌, map, Bool, true, false, not, ◌&&◌, ◌||◌, Option, none,
  some, ltb, leb, ◌==◌, if◌then◌else◌, any, select,
}
use triagearr.Base.Text.{Text, codes}
use triagearr.Types.{Error, Run, RunItem, RunStopReason, user_stopped}

-- The tables, in the order of insertion, and the next id that AUTOINCREMENT gives.
pub record RunDb (F : Type 0) : Type 0 where
  pub runs : List (Run F)
  pub run_items : List (RunItem F)
  pub next_id : ℕ

module _ {F : Type 0} where
  -- `InsertRun`, with the id.
  unfoldable pub insert_run : Option Error → Run F → RunDb F → Option ℕ × RunDb F
  insert_run (some e) r db = (none, db)
  insert_run none r db = (
    some db.next_id,
    record db { runs = db.runs ++ record r { id = db.next_id } ∷ []; next_id = suc db.next_id },
  )

  -- A row of the same primary key.
  unfoldable pub same_key : RunItem F → RunItem F → Bool
  same_key a b = a.run_id == b.run_id && a.rank == b.rank

  -- The loop of `InsertRunItems`; nothing is a violated key.
  unfoldable pub add_items : ℕ → List (RunItem F) → List (RunItem F) → Option (List (RunItem F))
  add_items run_id [] table = some table
  add_items run_id (it ∷ rest) table =
      let row = record it { run_id = run_id } in
      let more = add_items run_id rest (table ++ row ∷ []) in
      if any (same_key row) table then none else more

  committed : Option (List (RunItem F)) → RunDb F → Bool × RunDb F
  committed none db = (false, db)
  committed (some table) db = (true, record db { run_items = table })

  -- `InsertRunItems`: whether it succeeds, and the tables. The fault is any of its transaction;
  -- a run that does not exist violates the foreign key.
  unfoldable pub insert_run_items : Option Error → ℕ → List (RunItem F) → RunDb F → Bool × RunDb F
  unfolding committed
  insert_run_items fault run_id [] db = (true, db)
  insert_run_items (some e) run_id (it ∷ rest) db = (false, db)
  insert_run_items none run_id (it ∷ rest) db =
      let out = committed (add_items run_id (it ∷ rest) db.run_items) db in
      if not (any (λ r. r.id == run_id) db.runs) then (false, db) else out

  -- `updateRun`: whether a row has the id, and the tables.
  unfoldable pub update_where : ℕ → (Run F → Run F) → List (Run F) → List (Run F)
  update_where id f [] = []
  update_where id f (r ∷ rest) =
      let more = update_where id f rest in if r.id == id then f r ∷ more else r ∷ more

  unfoldable pub update_run : Option Error → ℕ → (Run F → Run F) → RunDb F → Bool × RunDb F
  update_run (some e) id f db = (false, db)
  update_run none id f db =
      (any (λ r. r.id == id) db.runs, record db { runs = update_where id f db.runs })

  unfoldable pub mark_run_status : Option Error → ℕ → Text → RunDb F → Bool × RunDb F
  mark_run_status fault id status db = update_run fault id (λ r. record r { status = status }) db

  unfoldable pub mark_run_stopped : Option Error → ℕ → RunDb F → Bool × RunDb F
  mark_run_stopped fault id db =
      update_run fault id
        (λ r. record r { status = codes "stopped"; stop_reason = some user_stopped }) db

  -- `ORDER BY rank ASC`.
  unfoldable pub insert_by_rank : RunItem F → List (RunItem F) → List (RunItem F)
  insert_by_rank it [] = it ∷ []
  insert_by_rank it (x ∷ xs) =
      let more = insert_by_rank it xs in if leb it.rank x.rank then it ∷ x ∷ xs else x ∷ more

  unfoldable pub by_rank : List (RunItem F) → List (RunItem F)
  by_rank [] = []
  by_rank (x ∷ xs) = insert_by_rank x (by_rank xs)

  unfoldable pub find_run : ℕ → List (Run F) → Option (Run F)
  find_run id [] = none
  find_run id (r ∷ rest) = let more = find_run id rest in if r.id == id then some r else more

  abbrev pub items_of_run : ℕ → List (RunItem F) → List (RunItem F)
  items_of_run id table = by_rank (select (λ it. it.run_id == id) table)

  with_items_of : ℕ → RunDb F → Option (Run F) → Option (Run F × List (RunItem F))
  with_items_of id db none = none
  with_items_of id db (some r) = some (r, items_of_run id db.run_items)

  -- `GetRun` on reads that succeed; nothing is `sql.ErrNoRows`.
  unfoldable pub get_run_row : ℕ → RunDb F → Option (Run F × List (RunItem F))
  unfolding with_items_of
  get_run_row id db = with_items_of id db (find_run id db.runs)

  -- `ORDER BY triggered_at DESC, id DESC`.
  is_before : Run F → Run F → Bool
  is_before a b =
      ltb b.triggered_at a.triggered_at || (a.triggered_at == b.triggered_at && leb b.id a.id)

  unfoldable pub insert_recent : Run F → List (Run F) → List (Run F)
  unfolding is_before
  insert_recent r [] = r ∷ []
  insert_recent r (x ∷ xs) =
      let more = insert_recent r xs in if is_before r x then r ∷ x ∷ xs else x ∷ more

  unfoldable pub most_recent_first : List (Run F) → List (Run F)
  most_recent_first [] = []
  most_recent_first (r ∷ rs) = insert_recent r (most_recent_first rs)

  -- `LIMIT`, of which 0 is none.
  first_of : ℕ → List (Run F) → List (Run F)
  first_of zero rs = []
  first_of (suc n) [] = []
  first_of (suc n) (r ∷ rs) = r ∷ first_of n rs

  unfoldable pub list_runs : ℕ → RunDb F → List (Run F)
  unfolding first_of
  list_runs limit db =
      let rows = most_recent_first db.runs in if ltb 0 limit then first_of limit rows else rows
