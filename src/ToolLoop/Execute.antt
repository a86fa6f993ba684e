-- ===== src/ToolLoop/Execute.antt =====
-- One tool call in tool_loop.py: `_execute_internal_tool_call` with its cache, and the message that
-- answers the call.
use shenyugateway.Common.{Bool, true, false, not, Option, none, some, [], ◌∷◌, if◌then◌else◌}
use shenyugateway.Text.{Text, codes, mem_text, is_empty}
use shenyugateway.Json.{
  boolean, str, obj, Fields, field, end, Message, get, put, dict_or_empty, str_or_empty,
}
use shenyugateway.ToolLoop.Calls.{
  tool_call_name, tool_call_arguments, tool_call_cache_key, target_tool_name, logged_tool_name,
}
use shenyugateway.ToolLoop.Errors.{
  plain, failure_result, ToolResult, is_failed, decorate_tool_error_result, tool_error,
}
use shenyugateway.ToolLoop.Album.{finish_album_action}
use shenyugateway.ToolLoop.State.{
  Called, returned, raised, Context, Run, execute, log_tool_error, log_tool_result, value_at,
  assign, emit, event_target,
}

unfoldable pub exception_result : Text → ToolResult
exception_result text = failure_result text (codes "exception")

-- What a call gives that was made before: the failure again, or the result in an envelope.
unfoldable pub cached_result : ToolResult → ToolResult
unfolding is_failed
cached_result previous =
    if is_failed previous.value
    then plain (obj (put "cached_duplicate" (boolean true) (dict_or_empty previous.value)))
    else plain (
        obj (
          field "ok" (boolean true)
            (field "cached_duplicate" (boolean true) (field "result" previous.value end))))

-- Opening and sending an album photo are done again for each call.
unfoldable pub is_cacheable : Text → Bool
unfolding mem_text
is_cacheable target =
    not (mem_text target (codes "shenyu_album_open" ∷ codes "shenyu_album_send" ∷ []))

-- What a call gives, whether it came from the cache, and the state afterwards.
pub record Executed (W : Type 0) : Type 0 where
  pub result : ToolResult
  pub cached : Bool
  pub run : Run W

module _ {W : Type 0} (ctx : Context W) where
  unfoldable pub call_id : Fields → Text
  unfolding str_or_empty
  call_id call = str_or_empty ctx.std (get "id" call)

  unfoldable pub called_result : Called → ToolResult
  unfolding exception_result
  called_result (returned result) = result
  called_result (raised text) = exception_result text

  -- The call itself, its effect on an album, and the hint on a failure.
  unfoldable pub call_tool : Fields → Text → Fields → Run W → ToolResult × Run W
  unfolding called_result call_id decorate_tool_error_result finish_album_action emit
  call_tool call name args run =
      let (called, world) = ctx.execute_gateway_tool name args run.world in
      let made = emit (execute name args) (record run { world = world }) in
      let (finished, later) = finish_album_action ctx (called_result called) (call_id call) made in
      (decorate_tool_error_result ctx.std finished, later)

  -- `_record_tool_error`, of a failed result
  unfoldable pub note_error : Text → Fields → ToolResult → Run W → Run W
  unfolding is_failed tool_error target_tool_name emit
  note_error name args result run =
      if is_failed result.value
      then emit
          (log_tool_error (
            tool_error ctx.std name (target_tool_name ctx.std ctx.loads name args) args
              (dict_or_empty result.value)))
          run
      else run

  -- The receipt that every call has.
  unfoldable pub note_result : Fields → Text → Fields → ToolResult → Run W → Run W
  unfolding logged_tool_name call_id emit
  note_result call name args result run =
      emit
        (log_tool_result (logged_tool_name ctx.std ctx.loads name args) args result.value
          (call_id call))
        run

  unfoldable pub store_result : Bool → Text → ToolResult → Run W → Run W
  unfolding assign
  store_result cacheable key result run =
      if cacheable
      then record run { tool_result_cache = assign key result run.tool_result_cache }
      else run

  unfoldable pub found_in_cache : Bool → Text → Run W → Option ToolResult
  unfolding value_at
  found_in_cache cacheable key run = if cacheable then value_at key run.tool_result_cache else none

  unfoldable pub execute_internal_tool_call : Fields → Run W → Executed W
  unfolding tool_call_arguments tool_call_name tool_call_cache_key event_target is_cacheable
      found_in_cache cached_result call_tool store_result note_error note_result
  execute_internal_tool_call call run =
      let args = tool_call_arguments ctx.std ctx.loads call in
      let name = tool_call_name ctx.std ctx.loads call in
      let key = tool_call_cache_key ctx.std ctx.loads name args in
      let cacheable = is_cacheable (event_target ctx name args) in
      elim (found_in_cache cacheable key run) [
        | some previous ↦ record {
          result = cached_result previous;
          cached = true;
          run = note_result call name args (cached_result previous) run;
        }
        | none ↦
            let (result, made) = call_tool call name args run in
            record {
              result = result;
              cached = false;
              run =
                  note_result call name args result
                    (note_error name args result (store_result cacheable key result made));
            }
      ]

  -- `_tool_result_message`
  unfoldable pub tool_result_message : Fields → Text → ToolResult → Message
  tool_result_message call name result =
      let message = field "role" (str (codes "tool")) (
        field "tool_call_id" (get "id" call)
          (field "name" (str name) (field "content" (str (ctx.dumps result.value)) end))) in
      if is_empty result.view_photo_id
      then message
      else put "_shenyu_album_view" (str result.view_photo_id) message
