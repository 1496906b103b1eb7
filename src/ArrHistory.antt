-- ===== src/ArrHistory.antt =====
-- internal/clients/arr/arrhistory/arrhistory.go: the import history of a Sonarr or Radarr, page by
-- page. The HTTP call, `strings.EqualFold` and `strconv.ParseInt` are parameters; the loop runs on
-- fuel, one unit a page.
pub mod Paging
use triagearr.Base.{
  ℕ, zero, suc, ◌+◌, List, [], ◌∷◌, ◌++◌, Bool, true, false, not, ◌&&◌, ◌||◌, Option, none, some,
  ltb, if◌then◌else◌, length, is_empty,
}
use triagearr.Base.Int.{ℤ, leb_ℤ}
use triagearr.Base.Text.{Text, codes, decimal, to_lower}
use triagearr.Types.{Hash, Time, Error, Result, ok, err}

abbrev pub page_size : ℕ
page_size = 500

-- `recordData`.
pub record RecordData : Type 0 where
  pub file_id : Text
  pub download_client : Text
  pub dropped_path : Text
  pub imported_path : Text

-- `record`.
pub record HistoryRecord : Type 0 where
  pub id : ℤ
  pub date : Time
  pub event_type : Text
  pub download_id : Text
  pub details : RecordData

pub record Page : Type 0 where
  pub total_records : ℤ
  pub records : List HistoryRecord

-- `triagearr.ImportRecord`.
pub record ImportRecord : Type 0 where
  pub history_id : ℤ
  pub file_id : ℤ
  pub download_id : Hash
  pub dropped_path : Text
  pub imported_path : Text
  pub imported_at : Time

pub record Strings : Type 0 where
  pub equal_fold : Text → Text → Bool
  pub parse_int : Text → Option ℤ

-- The path of a page.
unfoldable pub history_path : ℕ → Text
history_path page_num =
    codes "/api/v3/history?eventType=3&page="
    ++ decimal page_num
    ++ codes "&pageSize="
    ++ decimal page_size
    ++ codes "&sortKey=date&sortDirection=descending"

unfoldable pub last_first : {A : Type 0} → List A → List A
last_first [] = []
last_first (x ∷ xs) = last_first xs ++ x ∷ []

module _ (s : Strings) where
  with_file_id : HistoryRecord → Option ℤ → Option ImportRecord
  with_file_id r none = none
  with_file_id r (some fid) = some (record {
    history_id = r.id;
    file_id = fid;
    download_id = to_lower r.download_id;
    dropped_path = r.details.dropped_path;
    imported_path = r.details.imported_path;
    imported_at = r.date;
  })

  is_other_client : Text → Bool
  is_other_client client = not (is_empty client) && not (s.equal_fold client (codes "qBittorrent"))

  unfoldable pub convert : HistoryRecord → Option ImportRecord
  unfolding with_file_id is_other_client
  convert r =
      if is_empty r.download_id || is_empty r.details.file_id
      then none
      else (if is_other_client r.details.download_client
          then none
          else with_file_id r (s.parse_int r.details.file_id))

  pub with_record : List ImportRecord → Option ImportRecord → List ImportRecord
  with_record collected none = collected
  with_record collected (some rec) = collected ++ rec ∷ []

  -- The loop over one page: `stop`, and what is collected.
  unfoldable pub scan : ℤ → List HistoryRecord → List ImportRecord → Bool × List ImportRecord
  unfolding with_record
  scan since [] collected = (false, collected)
  scan since (r ∷ rs) collected =
      let rest = scan since rs (with_record collected (convert r)) in
      if leb_ℤ r.id since then (true, collected) else rest

  module _ (get : Text → Result Page) (since : ℤ) where
    page_failed : ℕ → Error → Error
    page_failed n e = record e {
      message = codes "history page " ++ decimal n ++ codes ": " ++ e.message;
    }

    -- What a page comes to, `next` being the rounds after it.
    unfoldable pub after_page :
        ℕ
        → ℕ
        → List ImportRecord
        → Result Page
        → (List ImportRecord → Option (Result (List ImportRecord)))
        → Option (Result (List ImportRecord))
    unfolding page_failed
    after_page size n collected (err e) next = some (err (page_failed n e))
    after_page size n collected (ok pg) next =
        let out = scan since pg.records collected in
        if out.0 || ltb (length pg.records) size then some (ok (last_first out.1)) else next out.1

    -- The loop of `Fetch` from page `n` on; nothing means that the fuel has run out.
    unfoldable pub fetch_from : ℕ → ℕ → ℕ → List ImportRecord → Option (Result (List ImportRecord))
    fetch_from size zero n collected = none
    fetch_from size (suc fuel) n collected =
        after_page size n collected (get (history_path n))
          (λ more. fetch_from size fuel (suc n) more)

    unfoldable pub fetch : ℕ → Option (Result (List ImportRecord))
    fetch fuel = fetch_from page_size fuel 1 []
