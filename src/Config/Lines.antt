-- ===== src/Config/Lines.antt =====
-- internal/config/load.go: `expandEnv` and `splitYAMLComment`. What `ReplaceAllStringFunc` does with
-- `envVarPattern` is a parameter: the pieces of a text, each literal or a reference.
pub mod Comments
pub mod Plain
use triagearr.Base.{
  ℕ, ◌≡◌, ◌∙◌, refl, sym, ap, inl, inr, List, [], ◌∷◌, ◌++◌, Bool, true, false, not, ◌&&◌, ◌||◌,
  Option, none, some, arith, ◌==◌, if◌then◌else◌, Bool-cases, All,
}
use triagearr.Base.Text.{Text}

-- The bytes in question.
abbrev pub quote : ℕ
quote = 39

abbrev pub double_quote : ℕ
double_quote = 34

abbrev pub hash_sign : ℕ
hash_sign = 35

abbrev pub line_feed : ℕ
line_feed = 10

-- The loop of `splitYAMLComment` from a byte on: `start` is at column 0, `prev` the byte before.
abbrev pub is_blank : ℕ → Bool
is_blank c = c == 32 || c == 9

abbrev pub behind : ℕ → Text × Text → Text × Text
behind c (code, comment) = (c ∷ code, comment)

unfoldable pub split_from : Bool → Bool → Bool → ℕ → Text → Text × Text
split_from start in_single in_double prev [] = ([], [])
split_from start in_single in_double prev (c ∷ rest) =
    let in_quotes = split_from false (not in_single) in_double c rest in
    let in_double_quotes = split_from false in_single (not in_double) c rest in
    let plain = split_from false in_single in_double c rest in
    if c == quote && not in_double
    then behind c in_quotes
    else (if c == double_quote && not in_single
        then behind c in_double_quotes
        else (if c == hash_sign && (not in_single && (not in_double && (start || is_blank prev)))
            then ([], c ∷ rest)
            else behind c plain))

unfoldable pub split_yaml_comment : Text → Text × Text
split_yaml_comment line = split_from true false false 32 line

-- `strings.Split(s, "\n")`.
abbrev pub onto_first : ℕ → List Text → List Text
onto_first c [] = (c ∷ []) ∷ []
onto_first c (l ∷ ls) = (c ∷ l) ∷ ls

unfoldable pub split_lines : Text → List Text
split_lines [] = [] ∷ []
split_lines (c ∷ s) =
    let rest = split_lines s in if c == line_feed then [] ∷ rest else onto_first c rest

-- `strings.Join(lines, "\n")`.
unfoldable pub join_lines : List Text → Text
join_lines [] = []
join_lines (l ∷ []) = l
join_lines (l ∷ m ∷ ms) = l ++ line_feed ∷ join_lines (m ∷ ms)

-- A piece of a text: what the pattern does not match, or a match with its name and its default.
pub data Piece : Type 0 where
  literal : Text → Piece
  reference : Text → Text → Option Text → Piece

-- The pieces of a text, and the environment.
pub record Expansion : Type 0 where
  pub pieces : Text → List Piece
  pub lookup_env : Text → Option Text

module _ (x : Expansion) where
  default_of : Text → Text → Option Text → Text × List Text
  default_of whole name (some d) = (d, [])
  default_of whole name none = (whole, name ∷ [])

  -- The replacement of one match, and the names that are missing.
  unfoldable pub replaced : Text → Text → Option Text → Option Text → Text × List Text
  unfolding default_of
  replaced whole name d (some val) = (val, [])
  replaced whole name d none = default_of whole name d

  unfoldable pub expand_pieces : List Piece → Text × List Text
  expand_pieces [] = ([], [])
  expand_pieces (literal t ∷ rest) = let more = expand_pieces rest in (t ++ more.0, more.1)
  expand_pieces (reference whole name d ∷ rest) =
      let one = replaced whole name d (x.lookup_env name) in
      let more = expand_pieces rest in (one.0 ++ more.0, one.1 ++ more.1)

  -- One line: its code expanded, its comment as it is.
  unfoldable pub expand_line : Text → Text × List Text
  expand_line line =
      let parts = split_yaml_comment line in
      let out = expand_pieces (x.pieces parts.0) in (out.0 ++ parts.1, out.1)

  unfoldable pub expand_lines : List Text → List Text × List Text
  expand_lines [] = ([], [])
  expand_lines (l ∷ ls) =
      let one = expand_line l in let more = expand_lines ls in (one.0 ∷ more.0, one.1 ++ more.1)

  -- `expandEnv`: the text, or the names that are not set.
  pub data Expanded : Type 0 where
    expanded : Text → Expanded
    missing : List Text → Expanded

  unfoldable pub expanded_or_missing : List Text × List Text → Expanded
  expanded_or_missing (ls, []) = expanded (join_lines ls)
  expanded_or_missing (ls, m ∷ ms) = missing (m ∷ ms)

  unfoldable pub expand_env : Text → Expanded
  unfolding expanded_or_missing
  expand_env text = expanded_or_missing (expand_lines (split_lines text))
