-- ===== src/ArrHistory/Paging.antt =====
-- `Fetch` against a history that does not change: it ends, and what it returns.
use native.Mathlib.Nat.{mul-suc}
use triagearr.Base.{
  ℕ, zero, suc, ◌+◌, ◌*◌, ◌-◌, ◌≤◌, ◌<◌, ◌≡◌, ◌∙◌, refl, sym, ap, inl, inr, List, [], ◌∷◌, ◌++◌,
  Bool, true, false, ◌||◌, Option, none, some, arith, ltb, if◌then◌else◌, length, Bool-cases,
  append-nil, append_assoc,
}
use triagearr.Base.Int.{ℤ, leb_ℤ}
use triagearr.Base.Text.{Text}
use triagearr.Types.{Result, ok}
use triagearr.ArrHistory.{
  page_size, HistoryRecord, Page, ImportRecord, Strings, history_path, last_first, convert,
  with_record, scan, after_page, fetch_from, fetch,
}

module _ {A : Type 0} where
  unfoldable pub taken : ℕ → List A → List A
  taken zero xs = []
  taken (suc n) [] = []
  taken (suc n) (x ∷ xs) = x ∷ taken n xs

  unfoldable pub dropped : ℕ → List A → List A
  dropped zero xs = xs
  dropped (suc n) [] = []
  dropped (suc n) (x ∷ xs) = dropped n xs

  taken-dropped : (n : ℕ) (xs : List A) → taken n xs ++ dropped n xs ≡ xs
  unfolding taken dropped
  taken-dropped zero xs = refl
  taken-dropped (suc n) [] = refl
  taken-dropped (suc n) (x ∷ xs) = ap (λ (l : List A). x ∷ l) (taken-dropped n xs)

  dropped-short : (n : ℕ) (xs : List A) → length (taken n xs) < n → dropped n xs ≡ []
  unfolding taken dropped
  dropped-short zero xs h = absurd (omega arith)
  dropped-short (suc n) [] h = refl
  dropped-short (suc n) (x ∷ xs) h = dropped-short n xs (omega arith)

  length-taken : (n : ℕ) (xs : List A) → length (taken n xs) ≤ length xs
  unfolding taken
  length-taken zero xs = omega arith
  length-taken (suc n) [] = omega arith
  length-taken (suc n) (x ∷ xs) = omega (arith, length-taken n xs)

  length-dropped : (n : ℕ) (xs : List A) → length (dropped n xs) ≡ length xs - n
  unfolding dropped
  length-dropped zero xs = omega arith
  length-dropped (suc n) [] = omega arith
  length-dropped (suc n) (x ∷ xs) = omega (arith, length-dropped n xs)

  dropped-dropped : (m n : ℕ) (xs : List A) → dropped m (dropped n xs) ≡ dropped (n + m) xs
  unfolding dropped
  dropped-dropped m zero xs = ap (λ (k : ℕ). dropped k xs) (omega arith)
  dropped-dropped zero (suc n) [] =
      ap (λ (k : ℕ). dropped k []) {x = suc n} {y = suc n + 0} (omega arith)
  dropped-dropped (suc m) (suc n) [] =
      ap (λ (k : ℕ). dropped k []) {x = suc (n + suc m)} {y = suc n + suc m} (omega arith)
  dropped-dropped m (suc n) (x ∷ xs) =
      dropped-dropped m n xs
      ∙ ap (λ (k : ℕ). dropped k (x ∷ xs)) {x = suc (n + m)} {y = suc n + m} (omega arith)

module _ (s : Strings) (since : ℤ) where
  abbrev pub one_or_none : Option ImportRecord → List ImportRecord
  one_or_none none = []
  one_or_none (some r) = r ∷ []

  -- The usable records of a history, newest first, before the first one that is not newer.
  unfoldable pub newer : List HistoryRecord → List ImportRecord
  newer [] = []
  newer (r ∷ rs) =
      let rest = newer rs in if leb_ℤ r.id since then [] else one_or_none (convert s r) ++ rest

  -- Some record is not newer.
  unfoldable pub has_old : List HistoryRecord → Bool
  has_old [] = false
  has_old (r ∷ rs) = leb_ℤ r.id since || has_old rs

  with_record-append :
      (c : List ImportRecord) (o : Option ImportRecord) → with_record s c o ≡ c ++ one_or_none o
  unfolding with_record
  with_record-append c none = sym (append-nil c)
  with_record-append c (some r) = refl

  scan-newer :
      (rs : List HistoryRecord) (c : List ImportRecord)
      → scan s since rs c ≡ (has_old rs, c ++ newer rs)
  unfolding scan has_old newer
  scan-newer [] c = ap (λ (l : List ImportRecord). (false, l)) (sym (append-nil c))
  scan-newer (r ∷ rs) c = elim (Bool-cases (leb_ℤ r.id since)) [
    | inl old ↦ simp old (ap (λ (l : List ImportRecord). (true, l)) (sym (append-nil c)))
    | inr new ↦ simp new (
        scan-newer rs (with_record s c (convert s r))
        ∙ ap (λ (l : List ImportRecord). (has_old rs, l))
            (ap (λ (l : List ImportRecord). l ++ newer rs) (with_record-append c (convert s r))
              ∙ append_assoc c (one_or_none (convert s r)) (newer rs)))
  ]

  newer-stopped : (rs more : List HistoryRecord) → has_old rs ≡ true → newer (rs ++ more) ≡ newer rs
  unfolding has_old newer
  newer-stopped [] more h = absurd cc
  newer-stopped (r ∷ rs) more h = elim (Bool-cases (leb_ℤ r.id since)) [
    | inl old ↦ simp old refl
    | inr new ↦
        let rest : has_old rs ≡ true = simp new at h in
        simp new (
          ap (λ (l : List ImportRecord). one_or_none (convert s r) ++ l)
            (newer-stopped rs more rest))
  ]

  newer-append :
      (rs more : List HistoryRecord)
      → has_old rs ≡ false
      → newer (rs ++ more) ≡ newer rs ++ newer more
  unfolding has_old newer
  newer-append [] more h = refl
  newer-append (r ∷ rs) more h = elim (Bool-cases (leb_ℤ r.id since)) [
    | inl old ↦ let bad : true ≡ false = simp old at h in absurd cc
    | inr new ↦
        let rest : has_old rs ≡ false = simp new at h in
        simp new (
          ap (λ (l : List ImportRecord). one_or_none (convert s r) ++ l) (newer-append rs more rest)
          ∙ sym (append_assoc (one_or_none (convert s r)) (newer rs) (newer more)))
  ]

-- The server answers page `n + 1`, as long as the history reaches it, with the `size` records that
-- follow the first `size * n`.
abbrev pub Serves : ℕ → (Text → Result Page) → List HistoryRecord → Type 0
Serves size get history =
    (n : ℕ)
    → size * n ≤ length history
    → (pg : Page) × (get (history_path (suc n)) ≡ ok pg)
      × (pg.records ≡ taken size (dropped (size * n) history))

module _ (s : Strings) (since : ℤ) (get : Text → Result Page) (size : ℕ)
    (history : List HistoryRecord) (some_size : 1 ≤ size) (serves : Serves size get history) where
  abbrev left_at : ℕ → List HistoryRecord
  left_at n = dropped (size * n) history

  left_at-next : (n : ℕ) → left_at (suc n) ≡ dropped size (left_at n)
  left_at-next n =
      ap (λ (k : ℕ). dropped k history) (mul-suc size n)
      ∙ sym (dropped-dropped size (size * n) history)

  -- What is left after a page that has an old record, or is not full, has nothing to add.
  newer-page :
      (n : ℕ)
      → (has_old s since (taken size (left_at n)) || ltb (length (taken size (left_at n))) size)
        ≡ true
      → newer s since (taken size (left_at n)) ≡ newer s since (left_at n)
  newer-page n h = elim (Bool-cases (has_old s since (taken size (left_at n)))) [
    | inl old ↦
        sym (newer-stopped s since (taken size (left_at n)) (dropped size (left_at n)) old)
        ∙ ap (newer s since) (taken-dropped size (left_at n))
    | inr new ↦
        let short : length (taken size (left_at n)) < size = ground arith in
        let none_left = dropped-short size (left_at n) short in
        ap (newer s since) (
          sym (append-nil (taken size (left_at n)))
          ∙ ap (λ (l : List HistoryRecord). taken size (left_at n) ++ l) (sym none_left)
          ∙ taken-dropped size (left_at n))
  ]

  newer-rest :
      (n : ℕ)
      → (has_old s since (taken size (left_at n)) || ltb (length (taken size (left_at n))) size)
        ≡ false
      → newer s since (taken size (left_at n)) ++ newer s since (left_at (suc n))
        ≡ newer s since (left_at n)
  newer-rest n h =
      let new : has_old s since (taken size (left_at n)) ≡ false = ground arith in
      ap (λ (l : List HistoryRecord). newer s since (taken size (left_at n)) ++ newer s since l)
        (left_at-next n)
      ∙ sym (newer-append s since (taken size (left_at n)) (dropped size (left_at n)) new)
      ∙ ap (newer s since) (taken-dropped size (left_at n))

  left_at-less :
      (n : ℕ) {fuel : ℕ}
      → (has_old s since (taken size (left_at n)) || ltb (length (taken size (left_at n))) size)
        ≡ false
      → length (left_at n) < suc fuel
      → length (left_at (suc n)) < fuel
  left_at-less n {fuel} h k =
      let full : size ≤ length (taken size (left_at n)) = ground arith in
      let e = ap length (left_at-next n) in
      let f = length-dropped size (left_at n) in
      let g = length-taken size (left_at n) in omega (arith, e, f, g)

  left_at-reached :
      (n : ℕ)
      → (has_old s since (taken size (left_at n)) || ltb (length (taken size (left_at n))) size)
        ≡ false
      → size * n ≤ length history
      → size * suc n ≤ length history
  left_at-reached n h k =
      let full : size ≤ length (taken size (left_at n)) = ground arith in
      let f = length-dropped (size * n) history in
      let g = length-taken size (left_at n) in omega (arith, f, g, mul-suc size n)

  after_page-scanned :
      (k : ℕ) (c : List ImportRecord) (pg : Page)
      (next : List ImportRecord → Option (Result (List ImportRecord)))
      → after_page s get since size k c (ok pg) next ≡ (
          if has_old s since pg.records || ltb (length pg.records) size
          then some (ok (last_first (c ++ newer s since pg.records)))
          else next (c ++ newer s since pg.records))
  unfolding after_page
  after_page-scanned k c pg next =
      ap
        (λ (out : Bool × List ImportRecord).
          if out.0 || ltb (length pg.records) size
          then some (ok (last_first out.1))
          else next out.1)
        (scan-newer s since pg.records c)

  fetch_from-whole :
      (fuel n : ℕ) (c : List ImportRecord)
      → length (left_at n) < fuel
      → size * n ≤ length history
      → fetch_from s get since size fuel (suc n) c
        ≡ some (ok (last_first (c ++ newer s since (left_at n))))
  unfolding fetch_from
  fetch_from-whole zero n c h k = absurd (omega arith)
  fetch_from-whole (suc fuel) n c h k =
      let (pg, e, r) = serves n k in
      let next =
        λ (more : List ImportRecord). fetch_from s get since size fuel (suc (suc n)) more in
      let page = taken size (left_at n) in
      ap (λ x. after_page s get since size (suc n) c x next) e
      ∙ after_page-scanned (suc n) c pg next
      ∙ ap
          (λ (rs : List HistoryRecord).
            if has_old s since rs || ltb (length rs) size
            then some (ok (last_first (c ++ newer s since rs)))
            else next (c ++ newer s since rs))
          r
      ∙ elim (Bool-cases (has_old s since page || ltb (length page) size)) [
        | inl ends ↦
            simp ends
              (ap (λ (l : List ImportRecord). some (ok (last_first (c ++ l)))) (newer-page n ends))
        | inr goes_on ↦ simp goes_on (
            fetch_from-whole fuel (suc n) (c ++ newer s since page) (left_at-less n goes_on h)
              (left_at-reached n goes_on k)
            ∙ ap (λ (l : List ImportRecord). some (ok (last_first l)))
                (append_assoc c (newer s since page) (newer s since (left_at (suc n)))
                  ∙ ap (λ (l : List ImportRecord). c ++ l) (newer-rest n goes_on)))
      ]

-- Against a server that gives page after page of one history, as far as it reaches, `Fetch` ends after at most one page
-- more than there are records, and returns, oldest first, the usable records from the newest one
-- down to the first that is not newer than the given id.
pub fetch-newer :
    (s : Strings) (since : ℤ) (get : Text → Result Page) (history : List HistoryRecord)
    → Serves page_size get history
    → (fuel : ℕ) → length history < fuel
    → fetch s get since fuel ≡ some (ok (last_first (newer s since history)))
unfolding fetch dropped
fetch-newer s since get history serves fuel h =
    fetch_from-whole s since get page_size history (omega arith) serves fuel 0 [] h (omega arith)
