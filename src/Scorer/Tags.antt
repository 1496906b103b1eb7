-- ===== src/Scorer/Tags.antt =====
-- internal/scorer/factors.go, `splitTags`, and the functions of package `strings` that it calls.
use triagearr.Base.{ℕ, List, [], ◌∷◌, ◌==◌, if◌then◌else◌, is_empty}
use triagearr.Base.Text.{Text}
use triagearr.Base.Space.{trim_space}

extend : ℕ → List Text → List Text
extend c [] = (c ∷ []) ∷ []
extend c (p ∷ ps) = (c ∷ p) ∷ ps

-- `strings.Split` by one character.
split : ℕ → Text → List Text
unfolding extend
split sep [] = [] ∷ []
split sep (c ∷ s) = let rest = split sep s in if c == sep then [] ∷ rest else extend c rest

-- The loop of `splitTags`.
kept : List Text → List Text
unfolding trim_space
kept [] = []
kept (p ∷ ps) = let q = trim_space p in if is_empty q then kept ps else q ∷ kept ps

unfoldable pub split_tags : Text → List Text
unfolding kept split
split_tags [] = []
split_tags (c ∷ csv) = kept (split 44 (c ∷ csv))
