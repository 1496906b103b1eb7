-- ===== src/Auth/Password.antt =====
-- internal/auth/auth.go. The random source, and bcrypt, are parameters.
use triagearr.Base.{ℕ, Bool, true, false, not, leb, if◌then◌else◌, is_empty}
use triagearr.Base.{length, ◌++◌}
use triagearr.Base.Text.{Text, codes}
use triagearr.Types.{Error, Result, ok, err}

abbrev pub min_password_runes : ℕ
min_password_runes = 12

-- `Valid`.
unfoldable pub valid : Text → Bool
valid s = leb min_password_runes (length s)

pub record Resolved : Type 0 where
  pub plain : Text
  pub hash : Text
  pub generated : Bool

-- `ErrTooShort`, and any other error.
pub data ResolveError : Type 0 where
  too_short : ResolveError
  internal : Error → ResolveError

pub data Resolution : Type 0 where
  resolved : Resolved → Resolution
  unresolved : ResolveError → Resolution

hashed : Text → Bool → Result Text → Resolution
hashed plain generated (err e) = unresolved (internal e)
hashed plain generated (ok h) = resolved (record { plain = plain; hash = h; generated = generated })

checked : (Text → Result Text) → Text → Bool → Resolution
unfolding hashed
checked hash plain generated =
    if not (valid plain) then unresolved too_short else hashed plain generated (hash plain)

or_generated : (Text → Result Text) → Result Text → Resolution
unfolding checked
or_generated hash (err e) =
    unresolved (internal (record e { message = codes "generating password: " ++ e.message }))
or_generated hash (ok p) = checked hash p true

-- `Resolve`: `generate` and `hash` are `Generate` and `Hash`.
unfoldable pub resolve : (Text → Result Text) → Result Text → Text → Resolution
unfolding or_generated checked
resolve hash generate supplied =
    if is_empty supplied then or_generated hash generate else checked hash supplied false
