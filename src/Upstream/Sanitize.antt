-- ===== src/Upstream/Sanitize.antt =====
-- `_sanitize_openai_compatible_messages` of upstream_adapter.py: the messages as an
-- OpenAI-compatible upstream gets them.
use shenyugateway.Common.{ℕ, Bool, true, not, ◌&&◌, List, [], ◌∷◌, ◌++◌, if◌then◌else◌, length}
use shenyugateway.Text.{Text, codes, strip, is_empty}
use shenyugateway.Json.{
  Json, null, str, arr, cons, Fields, field, end, Message, get, put, truthy, has_role, list_items,
  items, Stdlib, str_or_empty,
}
use shenyugateway.Window.Events.{text_block}
use shenyugateway.Registry.Arguments.{has_key, without_keys}
use shenyugateway.Upstream.Normal.{normalize_text}
use shenyugateway.Upstream.Contents.{
  sanitize_openai_content_blocks, sanitize_openai_compatible_tool_calls,
}

-- Without the items whose value is `None`.
unfoldable pub without_none : Fields → Fields
without_none end = end
without_none (field k null d) = without_none d
without_none (field k v d) = field k v (without_none d)

-- `dumps` is json.dumps with the keys in their order.
module _ (std : Stdlib) (dumps : Json → Text) where
  -- Content that nothing is left of is taken out.
  unfoldable pub with_blocks : List Json → Message → Message
  unfolding without_keys
  with_blocks [] clean = without_keys ("content" ∷ []) clean
  with_blocks (block ∷ blocks) clean = put "content" (arr (cons block (items blocks))) clean

  unfoldable pub with_text : Text → Message → Message
  unfolding without_keys strip
  with_text text clean =
      if is_empty (strip text)
      then without_keys ("content" ∷ []) clean
      else put "content" (str text) clean

  unfoldable pub sanitize_content : Message → Message
  unfolding with_blocks with_text sanitize_openai_content_blocks has_key without_keys strip
      normalize_text
  sanitize_content clean = elim (get "content" clean) [
    | arr content ↦
        with_blocks (sanitize_openai_content_blocks std dumps (list_items content)) clean
    | str content ↦ if is_empty (strip content) then without_keys ("content" ∷ []) clean else clean
    | content ↦
        if has_key "content" clean then with_text (normalize_text std content) clean else clean
  ]

  unfoldable pub with_default_content : Message → Message
  unfolding has_key has_role
  with_default_content clean =
      if has_role "tool" clean && not (has_key "content" clean)
      then put "content" (str (codes "{}")) clean
      else clean

  unfoldable pub with_clean_calls : Message → Message
  unfolding sanitize_openai_compatible_tool_calls has_role
  with_clean_calls clean = elim (get "tool_calls" clean) [
    | arr tool_calls ↦
        if has_role "assistant" clean
        then put "tool_calls"
            (arr (items (sanitize_openai_compatible_tool_calls std dumps (list_items tool_calls))))
            clean
        else clean
    | _ ↦ clean
  ]

  unfoldable pub clean_message : Message → Message
  unfolding without_none without_keys sanitize_content with_default_content with_clean_calls
  clean_message msg = with_clean_calls (
      with_default_content (
        sanitize_content (
          without_keys
            ("_shenyu_tool_images" ∷ "_shenyu_album_view" ∷ "_shenyu_context_layer"
              ∷ "_shenyu_island_bumps" ∷ [])
            (without_none msg))))

  -- A message without content is sent only if it is an assistant's with calls.
  unfoldable pub is_kept : Message → Bool
  unfolding has_key has_role
  is_kept clean =
      if has_key "content" clean
      then true
      else has_role "assistant" clean && truthy (get "tool_calls" clean)

  pub record Sanitizing : Type 0 where
    pub sanitized : List Message
    pub pending_images : List Json
    pub tool_image_indices : List ℕ

  unfoldable pub image_message : List Json → Message
  image_message images =
      field "role" (str (codes "user")) (field "content" (arr (items images)) end)

  unfoldable pub flush_tool_images : Sanitizing → Sanitizing
  unfolding image_message
  flush_tool_images s = elim s.pending_images [
    | [] ↦ s
    | image ∷ images ↦ record {
      sanitized = s.sanitized ++ image_message (image ∷ images) ∷ [];
      pending_images = [];
      tool_image_indices = s.tool_image_indices ++ length s.sanitized ∷ [];
    }
  ]

  unfoldable pub image_note : Message → Json
  unfolding text_block str_or_empty
  image_note msg =
      text_block (
        codes "工具 " ++ str_or_empty std (get "tool_call_id" msg) ++ codes " 打开的相册照片（供观察，不是新的用户发言）：")

  unfoldable pub tool_images : Message → List Json
  unfolding image_note sanitize_openai_content_blocks has_role
  tool_images msg = elim (get "_shenyu_tool_images" msg) [
    | arr (cons image images) ↦
        if has_role "tool" msg
        then image_note msg ∷ sanitize_openai_content_blocks std dumps (image ∷ list_items images)
        else []
    | _ ↦ []
  ]

  unfoldable pub bump_messages : Message → List Message
  unfolding strip normalize_text
  bump_messages msg =
      let bump_text = strip (normalize_text std (get "_shenyu_island_bumps" msg)) in
      if is_empty bump_text
      then []
      else field "role" (str (codes "system")) (field "content" (str bump_text) end) ∷ []

  unfoldable pub sanitize_message : Message → Sanitizing → Sanitizing
  unfolding flush_tool_images clean_message is_kept tool_images bump_messages has_role
  sanitize_message msg s =
      let t = if has_role "tool" msg then s else flush_tool_images s in
      if is_kept (clean_message msg)
      then record t {
        sanitized = t.sanitized ++ clean_message msg ∷ bump_messages msg;
        pending_images = t.pending_images ++ tool_images msg;
      }
      else t

  unfoldable pub sanitize_all : List Message → Sanitizing → Sanitizing
  unfolding sanitize_message
  sanitize_all [] s = s
  sanitize_all (msg ∷ messages) s = sanitize_all messages (sanitize_message msg s)

  -- The messages, and where among them those with the tools' images stand.
  unfoldable pub sanitize_openai_compatible_messages : List Message → List Message × List ℕ
  unfolding sanitize_all flush_tool_images
  sanitize_openai_compatible_messages messages =
      let done = flush_tool_images (
        sanitize_all messages
          (record { sanitized = []; pending_images = []; tool_image_indices = [] })) in
      (done.sanitized, done.tool_image_indices)
