-- ===== src/Config/Lines/Comments.antt =====
-- `splitYAMLComment`: where the comment of a line starts.
use triagearr.Base.{
  ℕ, ◌≡◌, ◌∙◌, refl, sym, ap, ◌⊎◌, inl, inr, [], ◌∷◌, ◌++◌, Bool, true, false, ◌&&◌, ◌||◌, arith,
  ◌==◌, Bool-cases, All, append_assoc, append-nil,
}
use triagearr.Base.Text.{Text}
use triagearr.Config.Lines.{
  quote, double_quote, hash_sign, is_blank, behind, split_from, split_yaml_comment,
}

-- The code of a line, as YAML has it: bytes outside quotes, texts in quotes of either kind, and at the
-- end perhaps a text whose quote is never closed. The first flag is whether a `#` in front of it would
-- start a comment, as one does at the start of the line and behind a blank; the last, whether one
-- behind it would.
pub data Code : Bool → Text → Bool → Type 0 where
  done : (b : Bool) → Code b [] b
  plain :
      {b e : Bool} (c : ℕ) (rest : Text)
      → (c == quote) ≡ false
      → (c == double_quote) ≡ false
      → (b && c == hash_sign) ≡ false
      → Code (is_blank c) rest e
      → Code b (c ∷ rest) e
  single :
      {b e : Bool} (inside rest : Text)
      → All (λ c. (c == quote) ≡ false) inside
      → Code false rest e
      → Code b (quote ∷ inside ++ quote ∷ rest) e
  double :
      {b e : Bool} (inside rest : Text)
      → All (λ c. (c == double_quote) ≡ false) inside
      → Code false rest e
      → Code b (double_quote ∷ inside ++ double_quote ∷ rest) e
  single_open :
      {b : Bool} (inside : Text)
      → All (λ c. (c == quote) ≡ false) inside
      → Code b (quote ∷ inside) false
  double_open :
      {b : Bool} (inside : Text)
      → All (λ c. (c == double_quote) ≡ false) inside
      → Code b (double_quote ∷ inside) false

-- What follows the code of a line: nothing, or a comment where one may start.
abbrev pub Follows : Bool → Text → Type 0
Follows e comment = (comment ≡ []) ⊎ ((e ≡ true) × (r : Text) × (comment ≡ hash_sign ∷ r))

-- A line with its code and its comment.
abbrev pub IsLine : Text → Text → Text → Type 0
IsLine line code comment =
    (line ≡ code ++ comment) × (e : Bool) × Code true code e × Follows e comment

-- Bytes that a quote covers.
step-single :
    (c prev : ℕ) (rest : Text)
    → (c == quote) ≡ false
    → split_from false true false prev (c ∷ rest) ≡ behind c (split_from false true false c rest)
unfolding split_from
step-single c prev rest h = elim (Bool-cases (c == double_quote)) [
  | inl dq ↦ elim (Bool-cases (c == hash_sign)) [
    | inl sign ↦ simp (h, dq, sign) refl
    | inr other ↦ simp (h, dq, other) refl
  ]
  | inr no_dq ↦ elim (Bool-cases (c == hash_sign)) [
    | inl sign ↦ simp (h, no_dq, sign) refl
    | inr other ↦ simp (h, no_dq, other) refl
  ]
]

step-double :
    (c prev : ℕ) (rest : Text)
    → (c == double_quote) ≡ false
    → split_from false false true prev (c ∷ rest) ≡ behind c (split_from false false true c rest)
unfolding split_from
step-double c prev rest h = elim (Bool-cases (c == quote)) [
  | inl q ↦ elim (Bool-cases (c == hash_sign)) [
    | inl sign ↦ simp (h, q, sign) refl
    | inr other ↦ simp (h, q, other) refl
  ]
  | inr no_q ↦ elim (Bool-cases (c == hash_sign)) [
    | inl sign ↦ simp (h, no_q, sign) refl
    | inr other ↦ simp (h, no_q, other) refl
  ]
]

-- A text in front of both parts, in front of the code.
abbrev onto : Text → Text × Text → Text × Text
onto [] parts = parts
onto (c ∷ s) parts = behind c (onto s parts)

onto-parts : (s code comment : Text) → onto s (code, comment) ≡ (s ++ code, comment)
onto-parts [] code comment = refl
onto-parts (c ∷ s) code comment = ap (behind c) (onto-parts s code comment)

in-single :
    (inside tail : Text) (prev : ℕ)
    → All (λ c. (c == quote) ≡ false) inside
    → split_from false true false prev (inside ++ quote ∷ tail)
      ≡ onto inside (behind quote (split_from false false false quote tail))
unfolding split_from
in-single [] tail prev h = refl
in-single (c ∷ s) tail prev h =
    step-single c prev (s ++ quote ∷ tail) h.0 ∙ ap (behind c) (in-single s tail c h.1)

in-double :
    (inside tail : Text) (prev : ℕ)
    → All (λ c. (c == double_quote) ≡ false) inside
    → split_from false false true prev (inside ++ double_quote ∷ tail)
      ≡ onto inside (behind double_quote (split_from false false false double_quote tail))
unfolding split_from
in-double [] tail prev h = refl
in-double (c ∷ s) tail prev h =
    step-double c prev (s ++ double_quote ∷ tail) h.0 ∙ ap (behind c) (in-double s tail c h.1)

to-end-single :
    (inside : Text) (prev : ℕ)
    → All (λ c. (c == quote) ≡ false) inside
    → split_from false true false prev inside ≡ (inside, [])
unfolding split_from
to-end-single [] prev h = refl
to-end-single (c ∷ s) prev h = step-single c prev s h.0 ∙ ap (behind c) (to-end-single s c h.1)

to-end-double :
    (inside : Text) (prev : ℕ)
    → All (λ c. (c == double_quote) ≡ false) inside
    → split_from false false true prev inside ≡ (inside, [])
unfolding split_from
to-end-double [] prev h = refl
to-end-double (c ∷ s) prev h = step-double c prev s h.0 ∙ ap (behind c) (to-end-double s c h.1)

step-plain :
    (start : Bool) (c prev : ℕ) (rest : Text)
    → (c == quote) ≡ false
    → (c == double_quote) ≡ false
    → ((start || is_blank prev) && c == hash_sign) ≡ false
    → split_from start false false prev (c ∷ rest) ≡ behind c (split_from false false false c rest)
unfolding split_from
step-plain start c prev rest q dq h = elim (Bool-cases (c == hash_sign)) [
  | inr other ↦ simp (q, dq, other) refl
  | inl sign ↦
      let no : (start || is_blank prev) ≡ false = ground arith in simp (q, dq, sign, no) refl
]

split_from-Code :
    (b e start : Bool) (prev : ℕ) (code comment : Text)
    → Code b code e
    → Follows e comment
    → (start || is_blank prev) ≡ b
    → split_from start false false prev (code ++ comment) ≡ (code, comment)
unfolding split_from
split_from-Code b e start prev code comment (done f) (inl none) same = rw none refl
split_from-Code b e start prev code comment (done f) (inr (may, r, starts)) same =
    let here : (start || is_blank prev) ≡ true = same ∙ may in rw starts (simp here refl)
split_from-Code b e start prev code comment (plain c rest q dq h more) after same =
    let no : ((start || is_blank prev) && c == hash_sign) ≡ false = rw same h in
    step-plain start c prev (rest ++ comment) q dq no
    ∙ ap (behind c) (split_from-Code (is_blank c) e false c rest comment more after refl)
split_from-Code b e start prev code comment (single inside rest h more) after same =
    ap (λ (l : Text). behind quote (split_from false true false quote l))
      (append_assoc inside (quote ∷ rest) comment)
    ∙ ap (behind quote) (in-single inside (rest ++ comment) quote h)
    ∙ ap (λ (out : Text × Text). behind quote (onto inside (behind quote out)))
        (split_from-Code false e false quote rest comment more after refl)
    ∙ ap (behind quote) (onto-parts inside (quote ∷ rest) comment)
split_from-Code b e start prev code comment (double inside rest h more) after same =
    ap (λ (l : Text). behind double_quote (split_from false false true double_quote l))
      (append_assoc inside (double_quote ∷ rest) comment)
    ∙ ap (behind double_quote) (in-double inside (rest ++ comment) double_quote h)
    ∙ ap (λ (out : Text × Text). behind double_quote (onto inside (behind double_quote out)))
        (split_from-Code false e false double_quote rest comment more after refl)
    ∙ ap (behind double_quote) (onto-parts inside (double_quote ∷ rest) comment)
split_from-Code b e start prev code comment (single_open inside h) (inl none) same =
    ap (λ (l : Text). behind quote (split_from false true false quote (inside ++ l))) none
    ∙ ap (λ (l : Text). behind quote (split_from false true false quote l)) (append-nil inside)
    ∙ ap (behind quote) (to-end-single inside quote h)
    ∙ ap (λ (l : Text). (quote ∷ inside, l)) (sym none)
split_from-Code b e start prev code comment (double_open inside h) (inl none) same =
    ap (λ (l : Text). behind double_quote (split_from false false true double_quote (inside ++ l)))
      none
    ∙ ap (λ (l : Text). behind double_quote (split_from false false true double_quote l))
        (append-nil inside)
    ∙ ap (behind double_quote) (to-end-double inside double_quote h)
    ∙ ap (λ (l : Text). (double_quote ∷ inside, l)) (sym none)
split_from-Code b e start prev code comment (single_open inside h) (inr (may, r, starts)) same =
    absurd cc
split_from-Code b e start prev code comment (double_open inside h) (inr (may, r, starts)) same =
    absurd cc

pub split_yaml_comment-IsLine :
    (line code comment : Text)
    → IsLine line code comment
    → split_yaml_comment line ≡ (code, comment)
unfolding split_yaml_comment
split_yaml_comment-IsLine line code comment (e, b, written, after) =
    ap (λ (l : Text). split_from true false false 32 l) e
    ∙ split_from-Code true b true 32 code comment written after refl
