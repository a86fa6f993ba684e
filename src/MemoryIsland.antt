-- ===== src/MemoryIsland.antt =====
-- shenyu_gateway/memory_island.py: the block of stars and mem notes that is put into the context.
-- Here is how it is rendered, with `render_star_context` of stars/_render.py, and `shorten` and
-- `human_time_ago` of utils.py.
pub mod Lanes
pub mod Resolve
pub mod Retained
pub mod Kept
mod Tests
use shenyugateway.Common.{
  ℕ, ◌-◌, ◌/◌, Bool, true, false, not, ◌&&◌, ◌||◌, Option, none, some, List, [], ◌∷◌, ◌++◌, ◌==◌,
  leb, ltb, if◌then◌else◌, length, take, String, map,
}
use shenyugateway.Text.{Text, codes, strip, rstrip, is_empty}
use shenyugateway.Json.{
  Json, Items, nil, cons, Fields, number, arr, str, get, truthy, Stdlib, to_str, str_or_empty,
}

unfoldable pub shorten : Text → ℕ → Text
shorten text limit =
    let stripped = strip text in
    if leb (length stripped) limit
    then stripped
    else rstrip (take (limit - 3) stripped) ++ codes "..."

-- `separator.join(parts)`
unfoldable pub join_with : Text → List Text → Text
join_with separator [] = []
join_with separator (t ∷ []) = t
join_with separator (t ∷ u ∷ parts) = t ++ (separator ++ join_with separator (u ∷ parts))

-- Elements of a list, and the characters of a text.
unfoldable pub elements : Items → List Json
elements nil = []
elements (cons v vs) = v ∷ elements vs

unfoldable pub values_of : Json → List Json
unfolding elements
values_of (arr vs) = elements vs
values_of (str t) = map (λ c. str (c ∷ [])) t
values_of _ = []

-- What the code calls of the calendar, and today's local day.
pub record Today : Type 0 where
  pub parse_local_date : Json → Option ℕ
  pub local_day_of : Json → Option ℕ
  pub isoformat : ℕ → Text
  pub today : ℕ

unfoldable pub in_brackets : List Text → Text
unfolding join_with
in_brackets [] = []
in_brackets (a ∷ anchors) = codes "（" ++ (join_with (codes "；") (a ∷ anchors) ++ codes "）")

module _ (std : Stdlib) where
  unfoldable pub in_decimal : ℕ → Text
  in_decimal n = to_str std (number false n 0)

  unfoldable pub human_time_ago : ℕ → Text
  unfolding in_decimal
  human_time_ago days =
      let weeks = days / 7 in
      if ltb days 1
      then codes "今天"
      else if days == 1
      then codes "昨天"
      else if ltb days 7
      then in_decimal days ++ codes "天前"
      else if weeks == 1
      then codes "一周前"
      else if ltb weeks 5
      then in_decimal weeks ++ codes "周前"
      else in_decimal days ++ codes "天前"

  -- `str(item.get(key) or "").strip()`
  unfoldable pub clean : String → Fields → Text
  clean key item = strip (str_or_empty std (get key item))

  -- `render_star_context`: the lines of the stars with content.
  unfoldable pub star_lines : List Fields → List Text
  unfolding clean shorten
  star_lines [] = []
  star_lines (item ∷ items) =
      let rest = star_lines items in
      let content = clean "content" item in
      let chord = clean "chord" item in
      let prefix = if is_empty chord then [] else chord ++ codes " · " in
      if is_empty content then rest else (codes "- " ++ (prefix ++ shorten content 220)) ∷ rest

  unfoldable pub render_star_context : List Fields → Text
  unfolding star_lines join_with
  render_star_context items = join_with (codes "\n") (star_lines items)

  module _ (day : Today) where
    -- `_mem_date_note`
    unfoldable pub mem_date_note : Fields → List Text
    unfolding human_time_ago
    mem_date_note item = elim (day.parse_local_date (get "remind_on" item)) [
      | none ↦ []
      | some remind_on ↦
          let part =
            if remind_on == day.today
            then codes "说的就是今天"
            else if ltb remind_on day.today
            then codes "说的是" ++ day.isoformat remind_on ++ codes "，已经过了"
            else codes "说的是" ++ day.isoformat remind_on in
          part ∷ (elim (day.local_day_of (get "created_at" item)) [
            | none ↦ []
            | some written_on ↦ (human_time_ago (day.today - written_on) ++ codes "记的") ∷ []
          ])
    ]

    -- `f"{label}：…"` of the first three values under a key.
    unfoldable pub anchor_of : Text → String → Fields → List Text
    unfolding values_of join_with
    anchor_of label key item =
        if truthy (get key item)
        then (label
            ++ codes "："
            ++ join_with (codes "、") (map (to_str std) (take 3 (values_of (get key item)))))
          ∷ []
        else []

    unfoldable pub note_line : Text → Fields → Text
    unfolding mem_date_note anchor_of clean shorten in_brackets
    note_line text item =
        let mem_type = clean "mem_type" item in
        let prefix = if is_empty mem_type then [] else mem_type ++ codes "：" in
        let anchors =
          mem_date_note item
          ++ anchor_of (codes "人") "people" item
          ++ anchor_of (codes "地") "places" item
          ++ anchor_of (codes "物") "objects" item in
        let suffix = in_brackets anchors in codes "- " ++ (prefix ++ (shorten text 180 ++ suffix))

    unfoldable pub note_lines : List Fields → List Text
    unfolding note_line clean
    note_lines [] = []
    note_lines (item ∷ items) =
        let rest = note_lines items in
        let summary = clean "summary" item in
        let content = clean "content" item in
        let text = if is_empty summary then content else summary in
        if is_empty text then rest else note_line text item ∷ rest

    -- The heading alone is not rendered.
    unfoldable pub render_mem_notes : List Fields → Text
    unfolding note_lines join_with
    render_mem_notes items = elim (note_lines items) [
      | [] ↦ []
      | line ∷ lines ↦ join_with (codes "\n") (codes "## 我之前写下的便签，可能用的到。" ∷ line ∷ lines)
    ]

    unfoldable pub render_memory_island : List Fields → List Fields → Text
    unfolding render_star_context render_mem_notes join_with
    render_memory_island stars mem_notes =
        let star_text = render_star_context stars in
        let mem_text = render_mem_notes mem_notes in
        join_with (codes "\n\n") (
          (if is_empty star_text then [] else (codes "# 我之前落下的星星\n" ++ star_text) ∷ [])
          ++ (if is_empty mem_text then [] else mem_text ∷ []))
