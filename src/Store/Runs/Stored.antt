-- ===== src/Store/Runs/Stored.antt =====
-- A run and its items are read back as they were inserted.
use triagearr.Base.{
  ℕ, suc, ◌≤◌, ◌<◌, ◌≡◌, ◌∙◌, refl, sym, ap, inl, inr, List, [], ◌∷◌, ◌++◌, map, Bool, true, false,
  Option, none, some, arith, leb, ◌==◌, any, select, All, Bool-cases, ==-refl, append_assoc,
  append-nil,
}
use triagearr.Types.{Run, RunItem}
use triagearr.Store.Runs.{
  RunDb, insert_run, same_key, add_items, committed, insert_run_items, insert_by_rank, by_rank,
  find_run, items_of_run, with_items_of, get_run_row,
}

module _ {F : Type 0} where
  -- Every id that is in use is below the next.
  abbrev pub IsNumbered : RunDb F → Type 0
  IsNumbered db =
      All (λ (r : Run F). r.id < db.next_id) db.runs
      × All (λ (it : RunItem F). it.run_id < db.next_id) db.run_items

  -- The ranks go up, from at least `n`.
  abbrev pub IsRanked : ℕ → List (RunItem F) → Type 0
  IsRanked n [] = Unit
  IsRanked n (it ∷ rest) = (n ≤ it.rank) × IsRanked (suc it.rank) rest

  abbrev pub of_run : ℕ → List (RunItem F) → List (RunItem F)
  of_run id items = map (λ (it : RunItem F). record it { run_id = id }) items

  find_run-append :
      (id : ℕ) (rs : List (Run F)) (r : Run F)
      → All (λ (x : Run F). x.id < id) rs
      → r.id ≡ id
      → find_run id (rs ++ r ∷ []) ≡ some r
  unfolding find_run
  find_run-append id [] r h e = let own : (r.id == id) ≡ true = ground arith in simp own refl
  find_run-append id (x ∷ xs) r h e =
      let one = h.0 in
      let other : (x.id == id) ≡ false = ground arith in simp other (find_run-append id xs r h.1 e)

  -- No row of the table has the run's id and a rank from `n` on.
  abbrev pub IsFree : ℕ → ℕ → List (RunItem F) → Type 0
  IsFree id n table = All (λ (x : RunItem F). (x.run_id ≡ id) → x.rank < n) table

  IsFree-any :
      (row : RunItem F) (n : ℕ) (table : List (RunItem F))
      → IsFree row.run_id n table
      → n ≤ row.rank
      → any (same_key row) table ≡ false
  unfolding same_key
  IsFree-any row n [] h le = refl
  IsFree-any row n (x ∷ xs) h le = elim (Bool-cases (row.run_id == x.run_id)) [
    | inr other ↦ simp other (IsFree-any row n xs h.1 le)
    | inl same ↦
        let eq : x.run_id ≡ row.run_id = ground arith in
        let low = h.0 eq in
        let d : (row.rank == x.rank) ≡ false = ground arith in
        simp (same, d) (IsFree-any row n xs h.1 le)
  ]

  IsFree-next :
      (id n k : ℕ) (table : List (RunItem F)) (row : RunItem F)
      → IsFree id n table
      → n ≤ k
      → row.rank < k
      → IsFree id k (table ++ row ∷ [])
  IsFree-next id n k [] row h le lt = ((λ e. lt), tt)
  IsFree-next id n k (x ∷ xs) row h le lt =
      ((λ e. let low = h.0 e in omega arith), IsFree-next id n k xs row h.1 le lt)

  add_items-all :
      (id n : ℕ) (items table : List (RunItem F))
      → IsRanked n items
      → IsFree id n table
      → add_items id items table ≡ some (table ++ of_run id items)
  unfolding add_items
  add_items-all id n [] table h free = ap some (sym (append-nil table))
  add_items-all id n (it ∷ rest) table h free =
      let row : RunItem F = record it { run_id = id } in
      simp (IsFree-any row n table free h.0) (
        add_items-all id (suc it.rank) rest (table ++ row ∷ []) h.1 (
          IsFree-next id n (suc it.rank) table row free (let low = h.0 in omega arith)
            (omega arith))
        ∙ ap some (append_assoc table (row ∷ []) (of_run id rest)))

  select-none :
      (id : ℕ) (table : List (RunItem F))
      → All (λ (x : RunItem F). x.run_id < id) table
      → (more : List (RunItem F))
      → select (λ it. it.run_id == id) (table ++ more) ≡ select (λ it. it.run_id == id) more
  select-none id [] h more = refl
  select-none id (x ∷ xs) h more =
      let low = h.0 in
      let other : (x.run_id == id) ≡ false = ground arith in simp other (select-none id xs h.1 more)

  select-own :
      (id : ℕ) (items : List (RunItem F))
      → select (λ it. it.run_id == id) (of_run id items) ≡ of_run id items
  select-own id [] = refl
  select-own id (it ∷ rest) =
      let own = ==-refl id in
      simp own (ap (λ (l : List (RunItem F)). record it { run_id = id } ∷ l) (select-own id rest))

  by_rank-ranked :
      (id n : ℕ) (items : List (RunItem F))
      → IsRanked n items
      → by_rank (of_run id items) ≡ of_run id items
  unfolding by_rank insert_by_rank
  by_rank-ranked id n [] h = refl
  by_rank-ranked id n (it ∷ []) h = refl
  by_rank-ranked id n (it ∷ next ∷ rest) h =
      let up = h.1.0 in
      let first : leb it.rank next.rank ≡ true = ground arith in
      ap (insert_by_rank (record it { run_id = id }))
        (by_rank-ranked id (suc it.rank) (next ∷ rest) h.1)
      ∙ simp first refl

  any-last :
      (id : ℕ) (rs : List (Run F)) (r : Run F)
      → r.id ≡ id
      → any (λ (x : Run F). x.id == id) (rs ++ r ∷ []) ≡ true
  any-last id [] r e = ground arith
  any-last id (x ∷ xs) r e = ground (arith, any-last id xs r e)

  IsFree-below :
      (id : ℕ) (table : List (RunItem F))
      → All (λ (x : RunItem F). x.run_id < id) table
      → IsFree id 0 table
  IsFree-below id [] h = tt
  IsFree-below id (x ∷ xs) h =
      ((λ e. let low = h.0 in absurd (omega arith)), IsFree-below id xs h.1)

  items_of_run-stored :
      (id : ℕ) (items table : List (RunItem F))
      → IsRanked 0 items
      → All (λ (x : RunItem F). x.run_id < id) table
      → items_of_run id (table ++ of_run id items) ≡ of_run id items
  items_of_run-stored id items table h low =
      ap by_rank (select-none id table low (of_run id items) ∙ select-own id items)
      ∙ by_rank-ranked id 0 items h

  -- The tables after a run and its items were inserted.
  abbrev pub with_run : Run F → List (RunItem F) → RunDb F → RunDb F
  with_run r items db = record {
    runs = db.runs ++ record r { id = db.next_id } ∷ [];
    run_items = db.run_items ++ of_run db.next_id items;
    next_id = suc db.next_id;
  }

  insert_run-tables :
      (r : Run F) (items : List (RunItem F)) (db : RunDb F)
      → IsNumbered db
      → IsRanked 0 items
      → insert_run_items none db.next_id items (insert_run none r db).1
        ≡ (true, with_run r items db)
  unfolding insert_run insert_run_items committed
  insert_run-tables r [] db h k =
      ap (λ (t : List (RunItem F)). (true, record (insert_run none r db).1 { run_items = t }))
        (sym (append-nil db.run_items))
  insert_run-tables r (it ∷ rest) db h k =
      let here = any-last db.next_id db.runs (record r { id = db.next_id }) refl in
      simp here (
        ap (λ (o : Option (List (RunItem F))). committed o (insert_run none r db).1)
          (add_items-all db.next_id 0 (it ∷ rest) db.run_items k
            (IsFree-below db.next_id db.run_items h.1)))

  get_run_row-with_run :
      (r : Run F) (items : List (RunItem F)) (db : RunDb F)
      → IsNumbered db
      → IsRanked 0 items
      → get_run_row db.next_id (with_run r items db)
        ≡ some (record r { id = db.next_id }, of_run db.next_id items)
  unfolding get_run_row with_items_of
  get_run_row-with_run r items db h k =
      ap (with_items_of db.next_id (with_run r items db))
        (find_run-append db.next_id db.runs (record r { id = db.next_id }) h.0 refl)
      ∙ ap (λ (l : List (RunItem F)). some (record r { id = db.next_id }, l))
          (items_of_run-stored db.next_id items db.run_items k h.1)

  -- In tables whose ids are below the next one, a run is inserted under the next id, its items, with
  -- ranks that go up, are then inserted without a violated key, and reading the run gives it back
  -- under its id with its items in order, each under the run's id.
  pub get_run_row-insert_run :
      (r : Run F) (items : List (RunItem F)) (db : RunDb F)
      → IsNumbered db
      → IsRanked 0 items
      → ((insert_run none r db).0 ≡ some db.next_id)
        × ((insert_run_items none db.next_id items (insert_run none r db).1).0 ≡ true)
        × (get_run_row db.next_id
              (insert_run_items none db.next_id items (insert_run none r db).1).1
            ≡ some (record r { id = db.next_id }, of_run db.next_id items))
  unfolding insert_run
  get_run_row-insert_run r items db h k =
      let e = insert_run-tables r items db h k in
      (
        refl,
        ap (λ (out : Bool × RunDb F). out.0) e,
        ap (λ (out : Bool × RunDb F). get_run_row db.next_id out.1) e
            ∙ get_run_row-with_run r items db h k,
      )
