-- ===== src/Scorer/Exclusions/Reasons.antt =====
-- When a torrent has a reason to be excluded.
use triagearr.Base.{
  ℕ, ◌≡◌, ◌∙◌, ◌⊎◌, inl, inr, refl, List, [], ◌∷◌, ◌++◌, false, not, ◌&&◌, ◌||◌, any, is_empty,
  Bool-cases,
}
use triagearr.Base.Text.{Text}
use triagearr.Scorer.Factors.{ScoringTorrent}
use triagearr.Scorer.Tags.{split_tags}
use triagearr.Scorer.Exclusions.{
  LinkedMedia, ArrsConfig, TorrentClientInstanceConfig, contains_fold, index_arr_tags_exclude,
  excluded_tags, tag_reasons, arr_tag_reasons, media_reasons, has_category, evaluate_exclusions,
  has_excluded_tag,
}

nil-cases : (xs : List Text) → (xs ≡ []) ⊎ (is_empty xs ≡ false)
nil-cases [] = inl refl
nil-cases (x ∷ xs) = inr refl

module _ (simple_fold : ℕ → ℕ) where
  is_empty-append :
      (xs ys : List Text) → not (is_empty (xs ++ ys)) ≡ (not (is_empty xs) || not (is_empty ys))
  is_empty-append [] ys = refl
  is_empty-append (x ∷ xs) ys = refl

  contains_fold-nil : (tags : List Text) → any (contains_fold simple_fold []) tags ≡ false
  unfolding contains_fold
  contains_fold-nil [] = refl
  contains_fold-nil (tag ∷ tags) = contains_fold-nil tags

  tag_reasons-any :
      (excl tags : List Text)
      → not (is_empty (tag_reasons simple_fold excl tags))
        ≡ any (contains_fold simple_fold excl) tags
  unfolding tag_reasons
  tag_reasons-any excl [] = refl
  tag_reasons-any excl (tag ∷ tags) = elim (Bool-cases (contains_fold simple_fold excl tag)) [
    | inl h ↦ simp h refl
    | inr h ↦ simp h (tag_reasons-any excl tags)
  ]

  arr_tag_reasons-any :
      (typ : Text) (excl tags : List Text)
      → not (is_empty (arr_tag_reasons simple_fold typ excl tags))
        ≡ any (contains_fold simple_fold excl) tags
  unfolding arr_tag_reasons
  arr_tag_reasons-any typ excl [] = refl
  arr_tag_reasons-any typ excl (tag ∷ tags) =
      elim (Bool-cases (contains_fold simple_fold excl tag)) [
        | inl h ↦ simp h refl
        | inr h ↦ simp h (arr_tag_reasons-any typ excl tags)
      ]

  media_reasons-any :
      (arrs : ArrsConfig) (ms : List LinkedMedia)
      → not (is_empty (media_reasons simple_fold (index_arr_tags_exclude arrs) ms))
        ≡ any (has_excluded_tag simple_fold arrs) ms
  unfolding media_reasons
  media_reasons-any arrs [] = refl
  media_reasons-any arrs (m ∷ ms) =
      let index = index_arr_tags_exclude arrs in
      let excl = excluded_tags index m.arr_type in
      let more = media_reasons-any arrs ms in
      elim (nil-cases excl) [
        | inl e ↦ simp (e, contains_fold-nil (split_tags m.tags), more) refl
        | inr h ↦ simp h (
            is_empty-append (arr_tag_reasons simple_fold m.arr_type excl (split_tags m.tags))
              (media_reasons simple_fold index ms)
            ∙ simp (arr_tag_reasons-any m.arr_type excl (split_tags m.tags), more) refl)
      ]

  -- A torrent is excluded exactly if it is protected, or has a category and the client excludes it,
  -- or has a tag that the client excludes, or is linked to a medium with a tag that the list of the
  -- medium's arr excludes, names compared up to case.
  pub evaluate_exclusions-any :
      (t : ScoringTorrent) (linked : List LinkedMedia) (qb : TorrentClientInstanceConfig)
      (arrs : ArrsConfig)
      → not (is_empty (evaluate_exclusions simple_fold t linked qb arrs)) ≡ (
          t.protected
          || ((not (is_empty t.category)
                && contains_fold simple_fold qb.category_exclude t.category)
              || (any (contains_fold simple_fold qb.tags_exclude) (split_tags t.tags)
                  || any (has_excluded_tag simple_fold arrs) linked)))
  unfolding evaluate_exclusions
  evaluate_exclusions-any t linked qb arrs =
      let own = tag_reasons simple_fold qb.tags_exclude (split_tags t.tags) in
      let media = media_reasons simple_fold (index_arr_tags_exclude arrs) linked in
      let tail : not (is_empty (own ++ media)) ≡ (
          any (contains_fold simple_fold qb.tags_exclude) (split_tags t.tags)
          || any (has_excluded_tag simple_fold arrs) linked) =
        is_empty-append own media
        ∙ simp (tag_reasons-any qb.tags_exclude (split_tags t.tags), media_reasons-any arrs linked)
            refl in
      elim (Bool-cases t.protected) [
        | inl p ↦ simp p refl
        | inr p ↦ elim (Bool-cases (has_category simple_fold t qb)) [
          | inl c ↦ simp (p, c) refl
          | inr c ↦ simp (p, c) tail
        ]
      ]
