-- ===== src/Upstream/Caller.antt =====
-- `_assistant_tool_call_message` of upstream_adapter.py.
use shenyugateway.Common.{String, List, [], ◌∷◌, if◌then◌else◌}
use shenyugateway.Text.{Text, codes, strip, is_empty}
use shenyugateway.Json.{
  Json, null, str, arr, obj, cons, Fields, field, end, Message, get, put, truthy, list_items, items,
  Stdlib,
}
use shenyugateway.Upstream.Normal.{normalize_text}
use shenyugateway.Upstream.Contents.{sanitize_openai_content_blocks}

-- `dumps` is json.dumps with the keys in their order.
module _ (std : Stdlib) (dumps : Json → Text) where
  -- `_assistant_tool_call_message`
  unfoldable pub with_nonempty : String → Json → Message → Message
  with_nonempty key value message = if truthy value then put key value message else message

  unfoldable pub list_or_null : Json → Json
  list_or_null (arr vs) = arr vs
  list_or_null value = null

  unfoldable pub dict_or_null : Json → Json
  dict_or_null (obj d) = obj d
  dict_or_null value = null

  unfoldable pub with_call_content : Json → Message → Message
  unfolding sanitize_openai_content_blocks normalize_text strip
  with_call_content (arr content) message =
      elim (sanitize_openai_content_blocks std dumps (list_items content)) [
        | [] ↦ message
        | block ∷ blocks ↦ put "content" (arr (cons block (items blocks))) message
      ]
  with_call_content content message =
      let text = normalize_text std content in
      if is_empty (strip text) then message else put "content" (str text) message

  unfoldable pub assistant_tool_call_message : Fields → List Json → Message
  unfolding with_nonempty list_or_null dict_or_null with_call_content
  assistant_tool_call_message assistant_message tool_calls =
      with_call_content (get "content" assistant_message) (
        with_nonempty "_shenyu_anthropic_thinking_config"
          (dict_or_null (get "_shenyu_anthropic_thinking_config" assistant_message))
          (with_nonempty "_shenyu_anthropic_content_blocks"
            (list_or_null (get "_shenyu_anthropic_content_blocks" assistant_message))
            (field "role" (str (codes "assistant"))
              (field "tool_calls" (arr (items tool_calls)) end))))
