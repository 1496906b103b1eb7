-- ===== src/Store/Replaced.antt =====
-- `ReplaceTrackers`: all or nothing.
use triagearr.Base.{
  ◌≡◌, ◌≢◌, ◌∙◌, refl, sym, ap, subst, ◌⊎◌, inl, inr, List, [], ◌∷◌, ◌++◌, map, Bool, true, not,
  Option, none, some, arith, Bool-cases, append_assoc, append-nil, select,
}
use triagearr.Base.Text.{Text, text_eq, codes}
use triagearr.Types.{Hash, Error}
use triagearr.Scorer.Trackers.{TrackerRow}
use triagearr.Store.{
  TrackerInfo, Database, new_row, Tx, begun, commit, is_of, without_rows, with_row, or_return,
  insert_rows, in_transaction, committed_rows, replace_trackers,
}

text_eq_refl : (t : Text) → text_eq t t ≡ true
unfolding text_eq
text_eq_refl [] = refl
text_eq_refl (c ∷ t) = ground (arith, text_eq_refl t)

select-append :
    (p : TrackerRow → Bool) (xs ys : List TrackerRow)
    → select p (xs ++ ys) ≡ select p xs ++ select p ys
select-append p [] ys = refl
select-append p (x ∷ xs) ys = elim (Bool-cases (p x)) [
  | inl h ↦ simp h (ap (λ (l : List TrackerRow). x ∷ l) (select-append p xs ys))
  | inr h ↦ simp h (select-append p xs ys)
]

select-others :
    (p : TrackerRow → Bool) (xs : List TrackerRow) → select p (select (λ r. not (p r)) xs) ≡ []
select-others p [] = refl
select-others p (x ∷ xs) = elim (Bool-cases (p x)) [
  | inl h ↦ simp h (select-others p xs)
  | inr h ↦ simp h (select-others p xs)
]

select-twice : (p : TrackerRow → Bool) (xs : List TrackerRow) → select p (select p xs) ≡ select p xs
select-twice p [] = refl
select-twice p (x ∷ xs) = elim (Bool-cases (p x)) [
  | inl h ↦ simp h (ap (λ (l : List TrackerRow). x ∷ l) (select-twice p xs))
  | inr h ↦ simp h (select-twice p xs)
]

module _ (db : Database) (h : Hash) where
  abbrev pub is_other : TrackerRow → Bool
  is_other r = not (is_of h r)

  -- A call of the transaction failed.
  abbrev pub Fails : Type 0
  Fails =
      (db.begin_tx ≢ none)
      ⊎ ((db.load_prior ≢ none)
          ⊎ ((db.clear ≢ none)
              ⊎ (((row : TrackerRow) × (db.insert row ≢ none)) ⊎ (db.commit ≢ none))))

  module _ (prior : List TrackerRow) where
    select-own :
        (infos : List TrackerInfo)
        → select (is_of h) (map (new_row db h prior) infos) ≡ map (new_row db h prior) infos
    unfolding new_row
    select-own [] = refl
    select-own (info ∷ infos) =
        let own = text_eq_refl h in
        simp own (ap (λ (l : List TrackerRow). new_row db h prior info ∷ l) (select-own infos))

    select-none_other :
        (infos : List TrackerInfo) → select is_other (map (new_row db h prior) infos) ≡ []
    unfolding new_row
    select-none_other [] = refl
    select-none_other (info ∷ infos) =
        let own = text_eq_refl h in simp own (select-none_other infos)

  -- How the transaction ends: `new` is committed, or after an error what was committed before.
  abbrev Ends : List TrackerRow → List TrackerRow → Tx × Option Error → Type 0
  Ends old new out =
      ((out.1 ≡ none) × (out.0.committed ≡ new))
      ⊎ ((out.1 ≢ none) × (out.0.committed ≡ old) × Fails)

  or_return-Ends :
      (e : Option Error) (s : Text) (old new : List TrackerRow) (tx : Tx) (next : Tx × Option Error)
      → tx.committed ≡ old
      → (e ≢ none → Fails)
      → Ends old new next
      → Ends old new (or_return e s tx next)
  unfolding or_return
  or_return-Ends (some x) s old new tx next c f ends = inr ((λ k. cc), c, f (λ k. cc))
  or_return-Ends none s old new tx next c f ends = ends

  insert_rows-Ends :
      (prior : List TrackerRow) (infos : List TrackerInfo) (old : List TrackerRow) (tx : Tx)
      → tx.committed ≡ old
      → Ends old (tx.working ++ map (new_row db h prior) infos) (insert_rows db h prior infos tx)
  unfolding insert_rows
  insert_rows-Ends prior [] old tx c =
      or_return-Ends db.commit _ old (tx.working ++ []) tx (commit tx, none) c
        (λ k. inr (inr (inr (inr k)))) (inl (refl, sym (append-nil tx.working)))
  insert_rows-Ends prior (info ∷ infos) old tx c =
      let row = new_row db h prior info in
      let more = map (new_row db h prior) infos in
      or_return-Ends (db.insert row) _ old (tx.working ++ row ∷ more) tx
        (insert_rows db h prior infos (with_row row tx)) c (λ k. inr (inr (inr (inl (row, k)))))
        (subst
          (λ (l : List TrackerRow). Ends old l (insert_rows db h prior infos (with_row row tx)))
          (append_assoc tx.working (row ∷ []) more)
          (insert_rows-Ends prior infos old (with_row row tx) c))

  -- All of the new rows in place of the torrent's, or, as a call failed, the rows as they were.
  abbrev pub Replaced : List TrackerRow → List TrackerInfo → List TrackerRow × Option Error → Type 0
  Replaced rows infos out =
      ((out.1 ≡ none)
        × (select (is_of h) out.0 ≡ map (new_row db h (select (is_of h) rows)) infos)
        × (select is_other out.0 ≡ select is_other rows))
      ⊎ ((out.1 ≢ none) × (out.0 ≡ rows) × Fails)

  committed-Replaced :
      (rows : List TrackerRow) (infos : List TrackerInfo) (out : Tx × Option Error)
      → Ends rows (select is_other rows ++ map (new_row db h (select (is_of h) rows)) infos) out
      → Replaced rows infos (committed_rows out)
  unfolding committed_rows
  committed-Replaced rows infos (tx, e) (inr (failed, same, why)) = inr (failed, same, why)
  committed-Replaced rows infos (tx, e) (inl (done, c)) =
      let kept = select is_other rows in
      let new = map (new_row db h (select (is_of h) rows)) infos in
      inl (
        done,
        ap (λ (l : List TrackerRow). select (is_of h) l) c
            ∙ select-append (is_of h) kept new
            ∙ ap (λ (l : List TrackerRow). l ++ select (is_of h) new) (select-others (is_of h) rows)
            ∙ select-own (select (is_of h) rows) infos,
        ap (λ (l : List TrackerRow). select is_other l) c
            ∙ select-append is_other kept new
            ∙ ap (λ (l : List TrackerRow). l ++ select is_other new) (select-twice is_other rows)
            ∙ ap (λ (l : List TrackerRow). kept ++ l)
                (select-none_other (select (is_of h) rows) infos)
            ∙ append-nil kept,
      )

  in_transaction-Ends :
      (rows : List TrackerRow) (infos : List TrackerInfo)
      → Ends rows
          (select is_other rows ++ map (new_row db h (select (is_of h) rows)) infos)
          (in_transaction db h infos (begun rows))
  unfolding in_transaction
  in_transaction-Ends rows infos =
      let prior = select (is_of h) rows in
      let tx = begun rows in
      let new = select is_other rows ++ map (new_row db h prior) infos in
      let loop = insert_rows db h prior infos (without_rows h tx) in
      or_return-Ends db.load_prior _ rows new tx _ refl (λ k. inr (inl k))
        (or_return-Ends db.clear _ rows new tx loop refl (λ k. inr (inr (inl k)))
          (insert_rows-Ends prior infos rows (without_rows h tx) refl))

  -- A call of `ReplaceTrackers` either returns no error, and then the rows of the torrent are those
  -- of the given trackers, in order, each made with the torrent's rows from before, and the rows of
  -- the other torrents are as they were; or a call of the database failed, an error is returned, and
  -- all rows are as they were.
  pub replace_trackers-Replaced :
      (rows : List TrackerRow) (infos : List TrackerInfo)
      → Replaced rows infos (replace_trackers db h infos rows)
  unfolding replace_trackers
  replace_trackers-Replaced rows infos =
      let tx = begun rows in
      let new = select is_other rows ++ map (new_row db h (select (is_of h) rows)) infos in
      let started = codes "begin tx for trackers: " in
      committed-Replaced rows infos
        (or_return db.begin_tx started tx (in_transaction db h infos tx))
        (or_return-Ends db.begin_tx started rows new tx (in_transaction db h infos tx) refl
          (λ k. inl k) (in_transaction-Ends rows infos))
