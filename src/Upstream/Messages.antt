-- ===== src/Upstream/Messages.antt =====
-- `_openai_to_anthropic` of upstream_adapter.py: one message after the other, and then the
-- breakpoint at the end.
use shenyugateway.Common.{
  ℕ, suc, true, false, not, ◌&&◌, Option, none, some, List, [], ◌∷◌, ◌++◌, if◌then◌else◌, length,
}
use shenyugateway.Text.{Text, codes, text_eq, strip, is_empty}
use shenyugateway.Json.{
  Json, str, arr, obj, Fields, field, end, Message, get, has_role, list_of, items, dict_or_empty,
  Stdlib,
}
use shenyugateway.Layers.Assemble.{LayerTexts}
use shenyugateway.Registry.Arguments.{has_key, or_else, coerce_json_object}
use shenyugateway.Window.Events.{text_block}
use shenyugateway.Upstream.Normal.{normalize_text}
use shenyugateway.Upstream.Blocks.{text_blocks, content_blocks}
use shenyugateway.Upstream.Cache.{
  memory_island, system_end, CacheLimits, marked_block, marked_paths,
}
use shenyugateway.Upstream.State.{
  ApiMessage, Conversion, is_tool_result_only_message, system_cache_text, is_island, mark_turn,
  with_content,
}

module _ (std : Stdlib) (loads : Text → Option Json) (new_id : ℕ → Json) where
  unfoldable pub island_fields : Message → Fields
  unfolding normalize_text
  island_fields msg = field "type" (str (codes "text")) (
      field "text"
        (str (
          codes "<memory_island source=\"gateway_background\">\n"
          ++ normalize_text std (get "content" msg)
          ++ codes "\n</memory_island>"))
        end)

  unfoldable pub bump_blocks : Message → List Json
  unfolding normalize_text text_block strip
  bump_blocks msg =
      let bumps = normalize_text std (get "_shenyu_island_bumps" msg) in
      if is_empty (strip bumps) then [] else text_block bumps ∷ []

  unfoldable pub convert_island : CacheLimits → Message → Conversion → Conversion
  unfolding mark_turn with_content island_fields bump_blocks marked_block marked_paths
  convert_island limits msg state =
      let before = mark_turn limits state.turns state.paths in
      let here = length state.turns in
      record state {
        turns =
            record {
              from_user = true;
              content =
                  obj (marked_block limits (island_fields msg) before.paths) ∷ bump_blocks msg;
            }
            ∷ with_content state.turns before.blocks;
        paths = marked_paths limits (island_fields msg) (memory_island here) before.paths;
        island = some here;
      }

  unfoldable pub convert_system_text : LayerTexts → CacheLimits → Text → Conversion → Conversion
  unfolding system_cache_text marked_block marked_paths
  convert_system_text layers limits text state =
      let block = field "type" (str (codes "text")) (field "text" (str text) end) in
      if is_empty text
      then state
      else if not (is_empty layers.volatile) && text_eq text layers.volatile
      then record state { volatile = text }
      else if not (is_empty (system_cache_text layers)) && text_eq text (system_cache_text layers)
      then record state {
        system = state.system ++ obj (marked_block limits block state.paths) ∷ [];
        paths = marked_paths limits block system_end state.paths;
      }
      else record state { system = state.system ++ obj block ∷ [] }

  unfoldable pub convert_user : ℕ → Message → Conversion → Conversion
  unfolding content_blocks text_blocks
  convert_user index msg state = record state {
    turns =
        record {
          from_user = true;
          content = text_blocks std state.volatile ++ content_blocks std (get "content" msg);
        }
        ∷ state.turns;
    user_turns = (index, length state.turns) ∷ state.user_turns;
    volatile = [];
  }

  unfoldable pub tool_input : Json → Fields
  unfolding coerce_json_object
  tool_input arguments = elim (coerce_json_object std loads arguments) [
    | some d ↦ d
    | none ↦ field "raw_arguments" arguments end
  ]

  unfoldable pub tool_use : ℕ → Fields → Json
  unfolding tool_input or_else has_key
  tool_use i call =
      let function = dict_or_empty (get "function" call) in
      let name =
        if has_key "name" function then get "name" function else str (codes "unknown_tool") in
      obj (
        field "type" (str (codes "tool_use")) (
          field "id" (or_else (get "id" call) (new_id i)) (
            field "name" name (
              field "input"
                (obj (tool_input (or_else (get "arguments" function) (str (codes "{}"))))) end))))

  unfoldable pub tool_uses : ℕ → List Json → List Json
  unfolding tool_use
  tool_uses i [] = []
  tool_uses i (call ∷ calls) = tool_use i (dict_or_empty call) ∷ tool_uses (suc i) calls

  -- The blocks that came from Anthropic are sent back as they are.
  unfoldable pub assistant_content : Message → List Json
  unfolding text_blocks normalize_text tool_uses
  assistant_content msg = elim (list_of (get "_shenyu_anthropic_content_blocks" msg)) [
    | b ∷ bs ↦ b ∷ bs
    | [] ↦
        text_blocks std (normalize_text std (get "content" msg))
        ++ tool_uses 0 (list_of (get "tool_calls" msg))
  ]

  unfoldable pub convert_assistant : Message → Conversion → Conversion
  unfolding assistant_content
  convert_assistant msg state = record state {
    turns = record { from_user = false; content = assistant_content msg } ∷ state.turns;
  }

  unfoldable pub result_content : Message → Json
  unfolding content_blocks text_block normalize_text
  result_content msg = elim (list_of (get "_shenyu_tool_images" msg)) [
    | [] ↦ str (normalize_text std (get "content" msg))
    | image ∷ images ↦
        let text = normalize_text std (get "content" msg) in
        arr (
          items (
            text_block (if is_empty text then codes "照片已打开。" else text)
            ∷ content_blocks std (arr (items (image ∷ images)))))
  ]

  unfoldable pub result_block : Message → Json
  unfolding result_content or_else
  result_block msg = obj (
      field "type" (str (codes "tool_result")) (
        field "tool_use_id" (or_else (get "tool_call_id" msg) (str (codes "unknown_tool_call")))
          (field "content" (result_content msg) end)))

  -- A result goes to the last turn if it has results only.
  unfoldable pub with_result : Json → List ApiMessage → List ApiMessage
  unfolding is_tool_result_only_message
  with_result block [] = record { from_user = true; content = block ∷ [] } ∷ []
  with_result block (turn ∷ turns) =
      if is_tool_result_only_message (turn ∷ turns)
      then record turn { content = turn.content ++ block ∷ [] } ∷ turns
      else record { from_user = true; content = block ∷ [] } ∷ turn ∷ turns

  unfoldable pub convert_tool : Message → Conversion → Conversion
  unfolding result_block with_result
  convert_tool msg state = record state { turns = with_result (result_block msg) state.turns }

  -- The body of the loop.
  unfoldable pub convert_message : LayerTexts → CacheLimits → ℕ → Message → Conversion → Conversion
  unfolding is_island convert_island convert_system_text convert_user convert_assistant convert_tool
      normalize_text
  convert_message layers limits index msg state =
      if is_island msg
      then convert_island limits msg state
      else if has_role "system" msg
      then convert_system_text layers limits (normalize_text std (get "content" msg)) state
      else if has_role "user" msg
      then convert_user index msg state
      else if has_role "assistant" msg
      then convert_assistant msg state
      else if has_role "tool" msg
      then convert_tool msg state
      else state

  unfoldable pub convert_messages :
      LayerTexts → CacheLimits → ℕ → List Message → Conversion → Conversion
  unfolding convert_message
  convert_messages layers limits index [] state = state
  convert_messages layers limits index (msg ∷ messages) state =
      convert_messages layers limits (suc index) messages
        (convert_message layers limits index msg state)
