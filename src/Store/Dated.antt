-- ===== src/Store/Dated.antt =====
-- `ReplaceTrackers`: since when a tracker counts as dead.
use triagearr.Base.{
  ◌≤◌, ◌<◌, ◌≡◌, ◌≢◌, refl, ap, ◌⊎◌, inl, inr, List, [], ◌∷◌, ◌++◌, true, false, Option, none, some,
  arith, ◌==◌, ltb, Bool-cases, All,
}
use triagearr.Base.Text.{Text, text_eq}
use triagearr.Types.{Hash, Time, tracker_not_working}
use triagearr.Scorer.Trackers.{TrackerRow}
use triagearr.Store.{
  TrackerInfo, Database, previous, seed_dead_since, carried, or_seed, first_seen_dead, new_row,
}

-- The last row of a URL; the table has at most one.
abbrev pub IsLast : Text → List TrackerRow → TrackerRow → Type 0
IsLast u rows p =
    (before : List TrackerRow) × (behind : List TrackerRow) × (rows ≡ before ++ p ∷ behind)
    × (text_eq p.url u ≡ true)
    × All (λ r. text_eq r.url u ≡ false) behind

previous-cases :
    (rows : List TrackerRow) (u : Text)
    → ((previous rows u ≡ none) × All (λ r. text_eq r.url u ≡ false) rows)
      ⊎ ((p : TrackerRow) × (previous rows u ≡ some p) × IsLast u rows p)
unfolding previous
previous-cases [] u = inl (refl, tt)
previous-cases (r ∷ rs) u = elim (previous-cases rs u) [
  | inr (p, e, (before, behind, split, same, rest)) ↦
      rw e
        (inr (p, refl, (r ∷ before, behind, ap (λ (l : List TrackerRow). r ∷ l) split, same, rest)))
  | inl (e, rest) ↦ rw e (elim (Bool-cases (text_eq r.url u)) [
    | inl same ↦ simp same (inr (r, refl, ([], rs, refl, same, rest)))
    | inr other ↦ simp other (inl (refl, (refl, rest)))
  ])
]

module _ (db : Database) (h : Hash) (prior : List TrackerRow) where
  -- The activity of the torrent, or now if that is not earlier or not known.
  abbrev pub IsSeed : Time → Type 0
  IsSeed d =
      ((p : Time) × (db.proxy ≡ some p) × (p < db.now) × (d ≡ p))
      ⊎ (((db.proxy ≡ none) ⊎ ((p : Time) × (db.proxy ≡ some p) × (db.now ≤ p))) × (d ≡ db.now))

  -- The row from before was dead since `d`.
  abbrev pub IsKept : Text → Time → Type 0
  IsKept u d =
      (p : TrackerRow) × IsLast u prior p
      × (p.status ≡ tracker_not_working)
      × (p.first_seen_dead ≡ some d)

  -- There was no row from before, or it was not dead, or without a date.
  abbrev pub IsFresh : Text → Type 0
  IsFresh u =
      All (λ r. text_eq r.url u ≡ false) prior
      ⊎ ((p : TrackerRow) × IsLast u prior p
          × ((p.status ≢ tracker_not_working) ⊎ (p.first_seen_dead ≡ none)))

  -- Since when a tracker counts as dead.
  abbrev pub IsDated : TrackerInfo → TrackerRow → Type 0
  IsDated info r =
      ((info.status ≢ tracker_not_working) × (r.first_seen_dead ≡ none))
      ⊎ ((d : Time) × (info.status ≡ tracker_not_working)
          × (r.first_seen_dead ≡ some d)
          × (IsKept info.url d ⊎ (IsFresh info.url × IsSeed d)))

  seed_dead_since-IsSeed : (p : Option Time) → db.proxy ≡ p → IsSeed (seed_dead_since p db.now)
  unfolding seed_dead_since
  seed_dead_since-IsSeed none e = inr (inl e, refl)
  seed_dead_since-IsSeed (some p) e = elim (Bool-cases (ltb p db.now)) [
    | inl early ↦ simp early (inl (p, e, ground arith, refl))
    | inr late ↦ simp late (inr (inr (p, e, ground arith), refl))
  ]

  date-cases :
      (u : Text) (p : TrackerRow)
      → IsLast u prior p
      → p.status ≡ tracker_not_working
      → (o : Option Time) → p.first_seen_dead ≡ o
      → ((d : Time) × (o ≡ some d) × IsKept u d) ⊎ ((o ≡ none) × IsFresh u)
  date-cases u p last dead none e = inr (refl, inr (p, last, inr e))
  date-cases u p last dead (some d) e = inl (d, refl, (p, last, dead, e))

  -- What is kept, with a reason where it is nothing.
  carried-cases :
      (u : Text)
      → ((d : Time) × (carried (previous prior u) ≡ some d) × IsKept u d)
        ⊎ ((carried (previous prior u) ≡ none) × IsFresh u)
  unfolding carried
  carried-cases u = elim (previous-cases prior u) [
    | inl (e, free) ↦ rw e (inr (refl, inl free))
    | inr (p, e, last) ↦ rw e (elim (Bool-cases (p.status == tracker_not_working)) [
      | inr works ↦ simp works (inr (refl, inr (p, last, inl (ground arith))))
      | inl dead ↦ simp dead (date-cases u p last (ground arith) p.first_seen_dead refl)
    ])
  ]

  -- A tracker that works has no date of death. One that does not keeps the date of the row that its
  -- URL had, if that one did not work and had a date, and otherwise gets the time of the torrent's
  -- activity, if that is known and past, and else now.
  pub new_row-IsDated : (info : TrackerInfo) → IsDated info (new_row db h prior info)
  unfolding new_row first_seen_dead or_seed
  new_row-IsDated info = elim (Bool-cases (info.status == tracker_not_working)) [
    | inr works ↦ simp works (inl (ground arith, refl))
    | inl dead ↦ elim (carried-cases info.url) [
      | inl (d, e, kept) ↦ simp (dead, e) (inr (d, ground arith, refl, inl kept))
      | inr (e, free) ↦
          simp (dead, e)
            (inr (
              seed_dead_since db.proxy db.now,
              ground arith,
              refl,
              inr (free, seed_dead_since-IsSeed db.proxy refl),
            ))
    ]
  ]
