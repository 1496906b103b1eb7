-- ===== src/Config/Lines/Plain.antt =====
-- `expandEnv` on a file without references in its code.
use triagearr.Base.{
  ℕ, ◌≡◌, ◌∙◌, refl, sym, ap, inl, inr, List, [], ◌∷◌, ◌++◌, arith, ◌==◌, Bool-cases, All,
}
use triagearr.Base.Text.{Text}
use triagearr.Config.Lines.{
  line_feed, split_lines, onto_first, join_lines, Piece, literal, reference, Expansion,
  expand_pieces, expand_line, expand_lines, expanded, expanded_or_missing, expand_env,
}
use triagearr.Config.Lines.Comments.{IsLine, split_yaml_comment-IsLine}

join_lines-onto_first :
    (c : ℕ) (ls : List Text) (s : Text) → join_lines ls ≡ s → join_lines (onto_first c ls) ≡ c ∷ s
unfolding join_lines
join_lines-onto_first c [] s e = ap (λ (t : Text). c ∷ t) e
join_lines-onto_first c (l ∷ []) s e = ap (λ (t : Text). c ∷ t) e
join_lines-onto_first c (l ∷ m ∷ ms) s e = ap (λ (t : Text). c ∷ t) e

split_lines-some : (s : Text) → (l : Text) × (ls : List Text) × (split_lines s ≡ l ∷ ls)
unfolding split_lines
split_lines-some [] = ([], [], refl)
split_lines-some (c ∷ s) = elim (Bool-cases (c == line_feed)) [
  | inl cut ↦ simp cut ([], split_lines s, refl)
  | inr go ↦ let (l, ls, e) = split_lines-some s in simp go (c ∷ l, ls, ap (onto_first c) e)
]

join_lines-empty_first :
    (ls : List Text) (l : Text) (more : List Text)
    → ls ≡ l ∷ more
    → join_lines ([] ∷ ls) ≡ line_feed ∷ join_lines ls
unfolding join_lines
join_lines-empty_first [] l more e = absurd cc
join_lines-empty_first (k ∷ ks) l more e = refl

join_lines-split_lines : (s : Text) → join_lines (split_lines s) ≡ s
unfolding split_lines join_lines
join_lines-split_lines [] = refl
join_lines-split_lines (c ∷ s) = elim (Bool-cases (c == line_feed)) [
  | inl cut ↦
      let (l, ls, e) = split_lines-some s in
      let same : c ≡ line_feed = ground arith in
      simp cut (
        join_lines-empty_first (split_lines s) l ls e
        ∙ ap (λ (t : Text). line_feed ∷ t) (join_lines-split_lines s)
        ∙ ap (λ (b : ℕ). b ∷ s) (sym same))
  | inr go ↦ simp go (join_lines-onto_first c (split_lines s) s (join_lines-split_lines s))
]

module _ (x : Expansion) where
  -- The text that a piece stands for.
  abbrev pub text_of : Piece → Text
  text_of (literal t) = t
  text_of (reference whole name d) = whole

  abbrev pub joined : List Piece → Text
  joined [] = []
  joined (p ∷ ps) = text_of p ++ joined ps

  abbrev pub IsLiteral : Piece → Type 0
  IsLiteral (literal t) = Unit
  IsLiteral (reference whole name d) = ⊥

  -- The code of a line has no reference.
  abbrev pub IsPlainLine : Text → Type 0
  IsPlainLine line =
      (code : Text) × (comment : Text) × IsLine line code comment × All IsLiteral (x.pieces code)

  abbrev pub IsPlain : Text → Type 0
  IsPlain text = All IsPlainLine (split_lines text)

  expand_pieces-literal :
      (ps : List Piece) → All IsLiteral ps → expand_pieces x ps ≡ (joined ps, [])
  unfolding expand_pieces
  expand_pieces-literal [] h = refl
  expand_pieces-literal (literal t ∷ rest) h =
      ap (λ (out : Text × List Text). (t ++ out.0, out.1)) (expand_pieces-literal rest h.1)
  expand_pieces-literal (reference whole name d ∷ rest) h = absurd h.0

  expand_line-literal :
      (l : Text)
      → ((t : Text) → joined (x.pieces t) ≡ t)
      → IsPlainLine l
      → expand_line x l ≡ (l, [])
  unfolding expand_line
  expand_line-literal l cuts (code, comment, line, h) =
      ap
        (λ (parts : Text × Text).
          let out = expand_pieces x (x.pieces parts.0) in (out.0 ++ parts.1, out.1))
        (split_yaml_comment-IsLine l code comment line)
      ∙ ap (λ (out : Text × List Text). (out.0 ++ comment, out.1))
          (expand_pieces-literal (x.pieces code) h)
      ∙ ap (λ (t : Text). (t ++ comment, [])) (cuts code)
      ∙ ap (λ (t : Text). (t, [])) (sym line.0)

  expand_lines-literal :
      (ls : List Text)
      → ((t : Text) → joined (x.pieces t) ≡ t)
      → All IsPlainLine ls
      → expand_lines x ls ≡ (ls, [])
  unfolding expand_lines
  expand_lines-literal [] cuts h = refl
  expand_lines-literal (l ∷ ls) cuts h =
      ap
        (λ (one : Text × List Text).
          (one.0 ∷ (expand_lines x ls).0, one.1 ++ (expand_lines x ls).1))
        (expand_line-literal l cuts h.0)
      ∙ ap (λ (more : List Text × List Text). (l ∷ more.0, more.1))
          (expand_lines-literal ls cuts h.1)

  -- Let the pieces of a text make up the text. Where each line is code and a comment, the code by
  -- the rules of `Code`, and no code has a reference, a file is expanded to itself: whatever
  -- references the comments have, none is expanded and none is missing, and nothing is lost.
  pub expand_env-plain :
      (text : Text)
      → ((t : Text) → joined (x.pieces t) ≡ t)
      → IsPlain text
      → expand_env x text ≡ expanded text
  unfolding expand_env expanded_or_missing
  expand_env-plain text cuts h =
      ap (expanded_or_missing x) (expand_lines-literal (split_lines text) cuts h)
      ∙ ap expanded (join_lines-split_lines text)
