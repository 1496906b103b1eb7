-- ===== src/Actor/Sweep.antt =====
-- The link check: what `skip == false` promises.
use triagearr.Base.{
  ℕ, ◌+◌, ◌≡◌, ◌≢◌, refl, ◌⊎◌, inl, inr, List, [], ◌∷◌, ◌++◌, Bool, true, false, All, Any,
  All-append, All-map, Any-append_left, Any-append_right, Bool-cases,
}
use triagearr.Base.Text.{Text}
use triagearr.Base.Words.{lt64}
use triagearr.Types.{Hash, Error, Result, ok, err, TorrentFile}
use triagearr.Actor.Quiet.{is_quiet, Quiet}
use triagearr.Actor.World.{
  Event, path_read, files_read, statted, Trace, Env, Does, Does-after, Does-weaken,
}
use triagearr.Actor.Calls.{audit, stat_nlink, torrent_files, torrent_save_path}
use triagearr.Actor.{nlink_failed, after_stat, sweep, with_files, with_path, check_nlink}

cons≢nil : {A : Type 0} (x : A) (xs : List A) → x ∷ xs ≢ []
cons≢nil x xs e = cc

module _ {F : Type 0} (w : Env F) where
  -- The file was seen to be gone, or to have at most one hard link.
  abbrev pub IsLoneStat : Text → Event F → Type 0
  IsLoneStat path e =
      ((n : ℕ) × (e ≡ statted path (ok n)) × (lt64 1 n ≡ false))
      ⊎ ((x : Error) × (e ≡ statted path (err x)) × (x.not_exist ≡ true))

  abbrev pub SeenAlone : Trace F → Text → Type 0
  SeenAlone ext path = Any (IsLoneStat path) ext

  abbrev pub Swept : Text → List (TorrentFile F) → Result Bool → Trace F → Type 0
  Swept dir fs r ext =
      Quiet ext × (r ≡ ok false → All (λ f. SeenAlone ext (w.join_path dir f.name)) fs)

  -- A sweep that goes on after an event.
  Swept-after :
      (dir : Text) (f : TorrentFile F) (fs : List (TorrentFile F)) (e : Event F) (b : Result Bool)
      (more : Trace F)
      → is_quiet e ≡ true
      → IsLoneStat (w.join_path dir f.name) e
      → Swept dir fs b more
      → Swept dir (f ∷ fs) b (more ++ e ∷ [])
  Swept-after dir f fs e b more q lone p = (
    All-append _ more (e ∷ []) p.0 (q, tt),
    λ h. (
      Any-append_right _ more (e ∷ []) (inl lone),
      All-map (λ g d. Any-append_left _ more (e ∷ []) d) fs (p.1 h),
    ),
  )

  after_stat-Swept :
      (id : ℕ) (dir : Text) (f : TorrentFile F) (fs : List (TorrentFile F)) (c g : ℕ) (r : Result ℕ)
      (tr : Trace F)
      → ((c' g' : ℕ) (s : Trace F) → Does (sweep w id dir fs c' g' s) s (Swept dir fs))
      → let path = w.join_path dir f.name in
        Does
          (after_stat w id path c g (sweep w id dir fs) r (statted path r ∷ tr))
          tr
          (Swept dir (f ∷ fs))
  unfolding after_stat nlink_failed audit is_quiet
  after_stat-Swept id dir f fs c g (ok n) tr ih = elim (Bool-cases (lt64 1 n)) [
    | inl linked ↦ rw linked (_, _ ∷ _ ∷ [], refl, ((refl, (refl, tt)), λ e. cc))
    | inr alone ↦ rw alone (
        Does-after _ _ tr _ (
          Does-weaken _ _ (Swept dir fs) _ (ih (c + 1) g _)
            (λ b more p. Swept-after dir f fs _ b more refl (inl (n, refl, alone)) p)))
  ]
  after_stat-Swept id dir f fs c g (err x) tr ih = elim (Bool-cases x.not_exist) [
    | inl gone ↦ simp gone (
        Does-after _ _ tr _ (
          Does-weaken _ _ (Swept dir fs) _ (ih c (g + 1) _)
            (λ b more p. Swept-after dir f fs _ b more refl (inr (x, refl, gone)) p)))
    | inr broken ↦ simp broken (_, _ ∷ _ ∷ [], refl, ((refl, (refl, tt)), λ e. cc))
  ]

  sweep-Swept :
      (id : ℕ) (dir : Text) (fs : List (TorrentFile F)) (c g : ℕ) (tr : Trace F)
      → Does (sweep w id dir fs c g tr) tr (Swept dir fs)
  unfolding sweep audit stat_nlink is_quiet
  sweep-Swept id dir [] c g tr = (ok false, _ ∷ [], refl, ((refl, tt), λ e. tt))
  sweep-Swept id dir (f ∷ fs) c g tr =
      after_stat-Swept id dir f fs c g _ tr (λ c' g'. sweep-Swept id dir fs c' g')

  -- The torrent's files, as the client and the store report them, were all seen alone.
  abbrev pub AllAlone : Hash → Trace F → Type 0
  AllAlone h ext =
      (dir : Text) × (fs : List (TorrentFile F)) × Any (λ e. e ≡ path_read h (ok dir)) ext
      × Any (λ e. e ≡ files_read h (ok fs)) ext
      × (fs ≢ [])
      × All (λ f. SeenAlone ext (w.join_path dir f.name)) fs

  abbrev pub Checked : Hash → Result Bool → Trace F → Type 0
  Checked h r ext = Quiet ext × (r ≡ ok false → AllAlone h ext)

  with_files-Checked :
      (id : ℕ) (h : Hash) (dir : Text) (r : Result (List (TorrentFile F))) (tr : Trace F)
      → Does (with_files w id h dir r (files_read h r ∷ path_read h (ok dir) ∷ tr)) tr (Checked h)
  unfolding with_files nlink_failed audit is_quiet
  with_files-Checked id h dir (err x) tr =
      (_, _ ∷ _ ∷ _ ∷ [], refl, ((refl, (refl, (refl, tt))), λ e. cc))
  with_files-Checked id h dir (ok []) tr =
      (_, _ ∷ _ ∷ _ ∷ [], refl, ((refl, (refl, (refl, tt))), λ e. cc))
  with_files-Checked id h dir (ok (f ∷ fs)) tr = Does-after _ _ tr _ (
      Does-after _ _ _ _ (
        Does-weaken _ _ (Swept dir (f ∷ fs)) _ (sweep-Swept id dir (f ∷ fs) 0 0 _) (λ b more p. (
          All-append _ (more ++ _ ∷ []) _ (All-append _ more _ p.0 (refl, tt)) (refl, tt),
          λ e. (
            dir,
            f ∷ fs,
            Any-append_right _ (more ++ _ ∷ []) _ (inl refl),
            Any-append_left _ (more ++ _ ∷ []) _ (Any-append_right _ more _ (inl refl)),
            cons≢nil f fs,
            All-map (λ g d. Any-append_left _ (more ++ _ ∷ []) _ (Any-append_left _ more _ d))
                (f ∷ fs) (p.1 e),
          ),
        ))))

  with_path-Checked :
      (id : ℕ) (h : Hash) (r : Result Text) (tr : Trace F)
      → Does (with_path w id h r (path_read h r ∷ tr)) tr (Checked h)
  unfolding with_path nlink_failed audit torrent_files is_quiet
  with_path-Checked id h (err x) tr = (_, _ ∷ _ ∷ [], refl, ((refl, (refl, tt)), λ e. cc))
  with_path-Checked id h (ok dir) tr = with_files-Checked id h dir _ tr

  -- The check deletes no torrent and closes no action; it lets the deletion go on only where every
  -- file of a non-empty list was seen to be gone or to have at most one link.
  pub check_nlink-Checked :
      (id : ℕ) (h : Hash) (tr : Trace F) → Does (check_nlink w id h tr) tr (Checked h)
  unfolding check_nlink torrent_save_path
  check_nlink-Checked id h tr = with_path-Checked id h _ tr
