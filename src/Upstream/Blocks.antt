-- ===== src/Upstream/Blocks.antt =====
-- `_content_blocks` of upstream_adapter.py, with `is_unfetchable_image_url` of client_extra.py.
use shenyugateway.Common.{
  ℕ, Bool, false, not, ◌&&◌, ◌||◌, List, [], ◌∷◌, ◌++◌, ◌==◌, if◌then◌else◌, drop, any,
}
use shenyugateway.Text.{Text, codes, text_eq, mem_text, strip, starts_with, is_empty}
use shenyugateway.Json.{
  Json, null, str, arr, obj, Fields, field, end, get, truthy, is_dict, dict_or_empty, list_items,
  Stdlib, to_str, str_or_empty,
}
use shenyugateway.Window.Events.{text_block}
use shenyugateway.Upstream.Normal.{normalize_text}

-- `t.partition(c)`: the text before the first `c`, whether there is one, and the text after it.
unfoldable pub before_char : ℕ → Text → Text
before_char c [] = []
before_char c (d ∷ t) = let rest = before_char c t in if d == c then [] else d ∷ rest

unfoldable pub has_char : ℕ → Text → Bool
has_char c t = any (λ d. d == c) t

unfoldable pub after_char : ℕ → Text → Text
after_char c [] = []
after_char c (d ∷ t) = let rest = after_char c t in if d == c then t else rest

-- `t.split(c)`: the first part, and the others.
unfoldable pub split_rest : ℕ → Text → List Text
unfolding before_char
split_rest c [] = []
split_rest c (d ∷ t) = let rest = split_rest c t in if d == c then before_char c t ∷ rest else rest

unfoldable pub data_block : Text → Text → Json
data_block media_type base64 =
    let source = obj (
      field "type" (str (codes "base64"))
        (field "media_type" (str media_type) (field "data" (str base64) end))) in
    obj (field "type" (str (codes "image")) (field "source" source end))

unfoldable pub url_block : Text → Json
url_block url =
    let source = obj (field "type" (str (codes "url")) (field "url" (str url) end)) in
    obj (field "type" (str (codes "image")) (field "source" source end))

module _ (std : Stdlib) where
  unfoldable pub is_unfetchable_image_url : Json → Bool
  unfolding strip str_or_empty
  is_unfetchable_image_url url =
      let t = std.lower (strip (str_or_empty std url)) in
      not (is_empty t)
      && (starts_with t (codes "blob:")
          || starts_with t (codes "filesystem:")
          || starts_with t (codes "about:"))

  -- An image that stands in its URL, as base64.
  unfoldable pub data_image : Text → List Json
  unfolding before_char has_char after_char split_rest data_block strip
  data_image url =
      let header = drop 5 (before_char 44 url) in
      let media_type = strip (before_char 59 header) in
      let is_base64 =
        any (λ part. text_eq (std.lower (strip part)) (codes "base64")) (split_rest 59 header) in
      if has_char 44 url
        && is_base64
        && starts_with media_type (codes "image/")
        && not (is_empty (after_char 44 url))
      then data_block media_type (after_char 44 url) ∷ []
      else []

  unfoldable pub image_url_of : Fields → Json
  image_url_of block = elim (get "image_url" block) [ obj d ↦ get "url" d | url ↦ url ]

  unfoldable pub fetched_image : Text → List Json
  unfolding data_image url_block
  fetched_image url =
      if is_empty url
      then []
      else if starts_with url (codes "data:")
      then data_image url
      else url_block url ∷ []

  unfoldable pub image_url_blocks : Fields → List Json
  unfolding image_url_of is_unfetchable_image_url fetched_image text_block strip
  image_url_blocks block =
      if is_unfetchable_image_url (image_url_of block)
      then text_block (codes "（圆圆发来的这张照片这次没能传过来。）") ∷ []
      else elim (image_url_of block) [ str t ↦ fetched_image (strip t) | _ ↦ [] ]

  -- An image block that Anthropic would not take.
  unfoldable pub is_inner_image : Fields → Bool
  unfolding str_or_empty mem_text
  is_inner_image block =
      is_dict (get "source" block)
      && mem_text (str_or_empty std (get "type" (dict_or_empty (get "source" block))))
          (codes "base64" ∷ codes "url" ∷ codes "file" ∷ [])

  unfoldable pub is_type : Fields → Text → Bool
  is_type block t = elim (get "type" block) [ str s ↦ text_eq s t | _ ↦ false ]

  unfoldable pub dict_blocks : Fields → List Json
  unfolding is_type image_url_blocks is_inner_image text_block
  dict_blocks block =
      if is_type block (codes "image_url")
      then image_url_blocks block
      else if is_type block (codes "image") && not (is_inner_image block)
      then []
      else if truthy (get "type" block)
      then obj block ∷ []
      else elim (get "text" block) [ str t ↦ text_block t ∷ [] | _ ↦ [] ]

  unfoldable pub text_blocks : Text → List Json
  unfolding text_block
  text_blocks t = if is_empty t then [] else text_block t ∷ []

  unfoldable pub item_blocks : Json → List Json
  unfolding dict_blocks text_blocks
  item_blocks (obj block) = dict_blocks block
  item_blocks value = text_blocks (to_str std value)

  unfoldable pub all_item_blocks : List Json → List Json
  unfolding item_blocks
  all_item_blocks [] = []
  all_item_blocks (item ∷ rest) = item_blocks item ++ all_item_blocks rest

  unfoldable pub content_blocks : Json → List Json
  unfolding all_item_blocks text_blocks normalize_text
  content_blocks null = []
  content_blocks (arr values) = all_item_blocks (list_items values)
  content_blocks value = text_blocks (normalize_text std value)
