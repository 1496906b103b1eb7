-- ===== src/Base/Space.antt =====
-- White space: `unicode.IsSpace` and `strings.TrimSpace`.
use Prim.Native.Nat.{ℕ}
use mathlib.Core.Bool.{Bool, ◌&&◌, ◌||◌}
use mathlib.Core.List.{[], ◌∷◌}
use triagearr.Base.Tests.{leb, ◌==◌, if◌then◌else◌}
use triagearr.Base.Text.{Text}

-- `unicode.IsSpace`.
is_space : ℕ → Bool
is_space c =
    (leb 9 c && leb c 13)
    || (c == 32
        || c == 133
        || c == 160
        || c == 5760
        || (leb 8192 c && leb c 8202)
        || c == 8232
        || c == 8233
        || c == 8239
        || c == 8287
        || c == 12288)

trim_space_left : Text → Text
unfolding is_space
trim_space_left [] = []
trim_space_left (c ∷ s) = let rest = trim_space_left s in if is_space c then rest else c ∷ s

trim_space_right : Text → Text
unfolding is_space
trim_space_right [] = []
trim_space_right (c ∷ s) = elim (trim_space_right s) [
  | [] ↦ if is_space c then [] else c ∷ []
  | d ∷ t ↦ c ∷ d ∷ t
]

-- `strings.TrimSpace`.
unfoldable pub trim_space : Text → Text
unfolding trim_space_left trim_space_right
trim_space s = trim_space_right (trim_space_left s)
