-- ===== src/Upstream/Contents.antt =====
-- `_sanitize_openai_content_blocks` and `_sanitize_openai_compatible_tool_calls` of
-- upstream_adapter.py.
use shenyugateway.Common.{Bool, ◌&&◌, List, [], ◌∷◌, ◌++◌, if◌then◌else◌}
use shenyugateway.Text.{Text, codes, strip, starts_with, is_empty}
use shenyugateway.Json.{
  Json, null, str, obj, Fields, get, put, truthy, dict_or_empty, Stdlib, to_str, str_or_empty,
}
use shenyugateway.Window.Events.{text_block}
use shenyugateway.Upstream.Blocks.{is_type, image_url_of, is_unfetchable_image_url}

unfoldable pub nonblank_block : Text → List Json
unfolding strip text_block
nonblank_block text = if is_empty (strip text) then [] else text_block text ∷ []

-- `dumps` is json.dumps with the keys in their order.
module _ (std : Stdlib) (dumps : Json → Text) where
  unfoldable pub sanitize_text_block : Fields → List Json
  unfolding strip
  sanitize_text_block block = elim (get "text" block) [
    | null ↦ []
    | value ↦
        let text = to_str std value in
        if is_empty (strip text) then [] else obj (put "text" (str text) block) ∷ []
  ]

  -- Whether a block is one of the gateway's own image marks.
  unfoldable pub is_image_mark : Fields → Bool
  unfolding str_or_empty
  is_image_mark block =
      starts_with (str_or_empty std (get "type" (dict_or_empty (get "source" block))))
        (codes "shenyu_")

  unfoldable pub sanitize_block : Json → List Json
  unfolding nonblank_block sanitize_text_block is_image_mark is_type image_url_of
      is_unfetchable_image_url text_block
  sanitize_block (obj block) =
      if is_type std block (codes "text")
      then sanitize_text_block block
      else if is_type std block (codes "image_url")
          && is_unfetchable_image_url std (image_url_of std block)
      then text_block (codes "（圆圆发来的这张照片这次没能传过来。）") ∷ []
      else if is_type std block (codes "image") && is_image_mark block
      then []
      else obj block ∷ []
  sanitize_block value = nonblank_block (to_str std value)

  unfoldable pub sanitize_openai_content_blocks : List Json → List Json
  unfolding sanitize_block
  sanitize_openai_content_blocks [] = []
  sanitize_openai_content_blocks (item ∷ content) =
      sanitize_block item ++ sanitize_openai_content_blocks content

  unfoldable pub sanitize_arguments : Json → Text
  unfolding strip
  sanitize_arguments (str t) = if is_empty (strip t) then codes "{}" else t
  sanitize_arguments value =
      let text = if truthy value then dumps value else codes "{}" in
      if is_empty (strip text) then codes "{}" else text

  unfoldable pub sanitize_tool_call : Fields → Fields
  unfolding sanitize_arguments
  sanitize_tool_call call = elim (get "function" call) [
    | obj function ↦
        put "function"
          (obj (put "arguments" (str (sanitize_arguments (get "arguments" function))) function))
          call
    | _ ↦ call
  ]

  unfoldable pub sanitize_openai_compatible_tool_calls : List Json → List Json
  unfolding sanitize_tool_call
  sanitize_openai_compatible_tool_calls [] = []
  sanitize_openai_compatible_tool_calls (obj call ∷ tool_calls) =
      obj (sanitize_tool_call call) ∷ sanitize_openai_compatible_tool_calls tool_calls
  sanitize_openai_compatible_tool_calls (_ ∷ tool_calls) =
      sanitize_openai_compatible_tool_calls tool_calls
