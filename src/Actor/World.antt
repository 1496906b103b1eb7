-- ===== src/Actor/World.antt =====
-- What the Actor runs against: the store, the clients, the file system and the clock. A call is an
-- event; the answer to it may depend on everything that happened before, latest first.
use triagearr.Base.{ℕ, ◌≡◌, ◌∙◌, ap, sym, List, [], ◌∷◌, ◌++◌, Bool, Option, append_assoc}
use triagearr.Base.Text.{Text}
use triagearr.Types.{
  Hash, Time, Duration, Error, Result, DeleteOpts, TorrentFile, Run, RunItem, Link, Action,
  ActionStatus, AuditEntry,
}

-- A call and what it returned; nothing is a nil error.
pub data Event (F : Type 0) : Type 0 where
  run_read : ℕ → Event F
  status_marked : ℕ → Text → Option Error → Event F
  stop_marked : ℕ → Option Error → Event F
  action_inserted : Action → Result ℕ → Event F
  action_finished : ℕ → ActionStatus → ℕ → Option Error → Event F
  audited : AuditEntry → Event F
  links_read : Hash → Result (List Link) → Event F
  forgotten : Hash → Option Error → Event F
  path_read : Hash → Result Text → Event F
  files_read : Hash → Result (List (TorrentFile F)) → Event F
  client_deleted : Hash → DeleteOpts → Option Error → Event F
  media_deleted : Text → ℕ → DeleteOpts → Option Error → Event F
  statted : Text → Result ℕ → Event F
  slept : Duration → Event F

abbrev pub Trace : Type 0 → Type 0
Trace F = List (Event F)

-- `Options` of the Actor, and the world behind its interfaces.
pub record Env (F : Type 0) : Type 0 where
  pub max_deletions_per_run : ℕ
  pub inter_action_delay : Duration
  pub add_import_exclusion : Bool
  -- `DeleterResolver`: whether the kind has a deleter.
  pub has_deleter : Text → Bool
  -- `filepath.Join`.
  pub join_path : Text → Text → Text
  pub now : Trace F → Time
  pub rand : Trace F → ℕ → ℕ
  -- `ctx.Err() != nil`: an operator asked for a stop.
  pub stop_requested : Trace F → Bool
  pub get_run : Trace F → ℕ → Result (Run F × List (RunItem F))
  pub mark_run_status : Trace F → ℕ → Text → Option Error
  pub mark_run_stopped : Trace F → ℕ → Option Error
  pub insert_action : Trace F → Action → Result ℕ
  pub finish_action : Trace F → ℕ → ActionStatus → Time → ℕ → Option Error
  pub links_by_hash : Trace F → Hash → Result (List Link)
  pub forget_torrent : Trace F → Hash → Option Error
  pub torrent_save_path : Trace F → Hash → Result Text
  pub torrent_files : Trace F → Hash → Result (List (TorrentFile F))
  pub client_delete : Trace F → Hash → DeleteOpts → Option Error
  pub delete_media_file : Trace F → Text → ℕ → DeleteOpts → Option Error
  pub stat_nlink : Trace F → Text → Result ℕ

abbrev pub M : Type 0 → Type 0 → Type 0
M F A = Trace F → A × Trace F

module _ {F : Type 0} where
  abbrev pub pure : {A : Type 0} → A → M F A
  pure a tr = (a, tr)

  infixl 5 ◌>>=◌ ◌>>◌
  abbrev pub ◌>>=◌ : {A B : Type 0} → M F A → (A → M F B) → M F B
  ◌>>=◌ m f tr = let (a, tr1) = m tr in f a tr1

  abbrev pub ◌>>◌ : {A B : Type 0} → M F A → M F B → M F B
  m >> k = m >>= λ _. k

  -- An outcome that has added some events to `tr`, and satisfies `P` of its result and them.
  abbrev pub Does : {A : Type 0} → A × Trace F → Trace F → (A → Trace F → Type 0) → Type 0
  Does {A} o tr P = (a : A) × (ext : Trace F) × (o ≡ (a, ext ++ tr)) × P a ext

  -- What comes after one event.
  pub Does-after :
      {A : Type 0} (o : A × Trace F) (e : Event F) (tr : Trace F) (P : A → Trace F → Type 0)
      → Does o (e ∷ tr) (λ a ext. P a (ext ++ e ∷ []))
      → Does o tr P
  Does-after o e tr P (a, ext, made, p) = (
    a,
    ext ++ e ∷ [],
    made ∙ ap (λ (l : Trace F). (a, l)) (sym (append_assoc ext (e ∷ []) tr)),
    p,
  )

  -- What comes after a computation.
  pub Does-bind :
      {A B : Type 0} (o : A × Trace F) (k : A → M F B) (tr : Trace F) (P : A → Trace F → Type 0)
      (Q : B → Trace F → Type 0)
      → Does o tr P
      → ((a : A) (ext : Trace F)
          → P a ext
          → Does (k a (ext ++ tr)) (ext ++ tr) (λ b more. Q b (more ++ ext)))
      → Does (k o.0 o.1) tr Q
  Does-bind {A} o k tr P Q (a, ext, e, p) cont =
      let (b, more, e2, q) = cont a ext p in
      (
        b,
        more ++ ext,
        ap (λ (x : A × Trace F). k x.0 x.1) e
            ∙ (e2 ∙ ap (λ (l : Trace F). (b, l)) (sym (append_assoc more ext tr))),
        q,
      )

  pub Does-weaken :
      {A : Type 0} (o : A × Trace F) (tr : Trace F) (P Q : A → Trace F → Type 0)
      → Does o tr P
      → ((a : A) (ext : Trace F) → P a ext → Q a ext)
      → Does o tr Q
  Does-weaken o tr P Q (a, ext, e, p) k = (a, ext, e, k a ext p)
