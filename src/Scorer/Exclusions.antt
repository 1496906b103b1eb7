-- ===== src/Scorer/Exclusions.antt =====
-- internal/scorer/factors.go: the reasons for which a torrent is never a candidate.
pub mod Reasons
use triagearr.Base.{
  ℕ, ◌≡◌, ◌∙◌, ◌⊎◌, inl, inr, refl, List, [], ◌∷◌, ◌++◌, map, Bool, true, false, not, ◌&&◌, ◌||◌,
  leb, ◌==◌, if◌then◌else◌, any, is_empty, Bool-cases,
}
use triagearr.Base.Text.{Text, text_eq, codes}
use triagearr.Types.{ArrType, arr_label, sonarr, radarr, lidarr, whisparr_v2, whisparr_v3}
use triagearr.Scorer.Tags.{split_tags}
use triagearr.Scorer.Factors.{ScoringTorrent}

-- `store.LinkedMedia`.
pub record LinkedMedia : Type 0 where
  pub arr_type : Text
  pub media_id : ℕ
  pub tags : Text

-- `TagsExclude` of the five arrs of `config.ArrsConfig`.
pub record ArrsConfig : Type 0 where
  pub tags_exclude : ArrType → List Text

-- The exclusion lists of that configuration.
pub record TorrentClientInstanceConfig : Type 0 where
  pub category_exclude : List Text
  pub tags_exclude : List Text

-- `add` of `indexArrTagsExclude`; a later entry of a key replaces an earlier one.
add_index : ArrsConfig → ArrType → List (Text × List Text) → List (Text × List Text)
add_index arrs typ out =
    if is_empty (arrs.tags_exclude typ) then out else (arr_label typ, arrs.tags_exclude typ) ∷ out

unfoldable pub index_arr_tags_exclude : ArrsConfig → List (Text × List Text)
unfolding add_index
index_arr_tags_exclude arrs = add_index arrs whisparr_v3 (
    add_index arrs whisparr_v2
      (add_index arrs lidarr (add_index arrs radarr (add_index arrs sonarr []))))

-- The Go map's value at a key, nil when it is missing.
unfoldable pub excluded_tags : List (Text × List Text) → Text → List Text
excluded_tags [] typ = []
excluded_tags ((k, tags) ∷ rest) typ = if text_eq k typ then tags else excluded_tags rest typ

-- `simple_fold` sends a character to the least one that Unicode's simple folding makes equal to it.
module _ (simple_fold : ℕ → ℕ) where
  -- `strings.EqualFold`.
  unfoldable pub equal_fold : Text → Text → Bool
  equal_fold s t = text_eq (map simple_fold s) (map simple_fold t)

  unfoldable pub contains_fold : List Text → Text → Bool
  contains_fold [] want = false
  contains_fold (s ∷ ss) want = if equal_fold s want then true else contains_fold ss want

  -- The loop over the torrent's own tags.
  pub tag_reasons : List Text → List Text → List Text
  tag_reasons excluded [] = []
  tag_reasons excluded (tag ∷ tags) =
      let rest = tag_reasons excluded tags in
      if contains_fold excluded tag then (codes "qbit_tag:" ++ tag) ∷ rest else rest

  pub arr_tag_reasons : Text → List Text → List Text → List Text
  arr_tag_reasons typ excluded [] = []
  arr_tag_reasons typ excluded (tag ∷ tags) =
      let rest = arr_tag_reasons typ excluded tags in
      if contains_fold excluded tag
      then (codes "arr_tag:" ++ typ ++ codes ":" ++ tag) ∷ rest
      else rest

  -- The loop over the linked media.
  pub media_reasons : List (Text × List Text) → List LinkedMedia → List Text
  unfolding arr_tag_reasons
  media_reasons index [] = []
  media_reasons index (m ∷ ms) =
      let excl = excluded_tags index m.arr_type in
      let rest = media_reasons index ms in
      if is_empty excl then rest else arr_tag_reasons m.arr_type excl (split_tags m.tags) ++ rest

  abbrev pub has_category : ScoringTorrent → TorrentClientInstanceConfig → Bool
  has_category t qb = not (is_empty t.category) && contains_fold qb.category_exclude t.category

  unfoldable pub evaluate_exclusions :
      ScoringTorrent → List LinkedMedia → TorrentClientInstanceConfig → ArrsConfig → List Text
  unfolding tag_reasons media_reasons
  evaluate_exclusions t linked qb arrs =
      (if t.protected then codes "triagearr_protected" ∷ [] else [])
      ++ (if has_category t qb then (codes "qbit_category:" ++ t.category) ∷ [] else [])
      ++ tag_reasons qb.tags_exclude (split_tags t.tags)
      ++ media_reasons (index_arr_tags_exclude arrs) linked

  -- A linked medium carries a tag that its arr excludes.
  abbrev pub has_excluded_tag : ArrsConfig → LinkedMedia → Bool
  has_excluded_tag arrs m =
      any (contains_fold (excluded_tags (index_arr_tags_exclude arrs) m.arr_type))
        (split_tags m.tags)
