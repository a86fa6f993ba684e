-- ===== src/ToolLoop/Mixed.antt =====
-- The last reply of tool_loop.py: `_execute_mixed_gateway_tool_calls`, where some of the calls are
-- the gateway's and some are the client's, and `_finalize_non_gateway_tool_reply`.
use shenyugateway.Common.{
  ℕ, suc, Bool, false, not, List, [], ◌∷◌, ◌++◌, if◌then◌else◌, map, any, keep_if,
}
use shenyugateway.Text.{Text, codes, mem_text, join, is_empty}
use shenyugateway.Json.{
  Json, str, arr, obj, Fields, end, Message, get, put, truthy, list_of, items, to_str,
}
use shenyugateway.Echo.{strip_leading_echo}
use shenyugateway.Capture.{split_private_assistant_tags}
use shenyugateway.Registry.Arguments.{without_keys}
use shenyugateway.Upstream.Normal.{normalize_text}
use shenyugateway.Upstream.Caller.{assistant_tool_call_message}
use shenyugateway.ToolLoop.Calls.{
  first_message, with_message, tool_call_name, tool_call_arguments, is_native_call,
}
use shenyugateway.ToolLoop.Errors.{set_default}
use shenyugateway.ToolLoop.State.{
  Private, Context, Run, create_pending_turn, store_heartbeat, log_assistant_output, write_snapshot,
  emit, record_echo_segment, combined_echo_text,
}
use shenyugateway.ToolLoop.Execute.{call_tool, note_result, note_error, tool_result_message}

-- A list of calls as a JSON value.
unfoldable pub call_list : List Fields → Json
call_list calls = arr (items (map (λ call. obj call) calls))

-- Whether a dict's value is missing or no dict: then it becomes an empty one.
unfoldable pub with_function : Fields → Fields
with_function call = elim (get "function" call) [
  | obj function ↦ call
  | _ ↦ put "function" (obj end) call
]

-- Whether Anthropic's content blocks hold thinking.
unfoldable pub is_thinking_block : Json → Bool
is_thinking_block (obj block) = elim (get "type" block) [
  | str kind ↦ mem_text kind (codes "thinking" ∷ codes "redacted_thinking" ∷ [])
  | _ ↦ false
]
is_thinking_block value = false

unfoldable pub has_thinking : Fields → Bool
unfolding is_thinking_block any
has_thinking message =
    any is_thinking_block (list_of (get "_shenyu_anthropic_content_blocks" message))

unfoldable pub strip_anthropic_private_blocks : Fields → Fields
unfolding without_keys
strip_anthropic_private_blocks message =
    without_keys ("_shenyu_anthropic_content_blocks" ∷ "_shenyu_anthropic_thinking_config" ∷ [])
      message

module _ {W : Type 0} (ctx : Context W) where
  unfoldable pub ensure_tool_call_id : Fields → ℕ → Fields
  unfolding set_default with_function
  ensure_tool_call_id call index =
      let identified =
        if truthy (get "id" call) then call else put "id" (str (ctx.new_call_id index)) call in
      with_function (set_default "type" (str (codes "function")) identified)

  unfoldable pub ensure_ids : ℕ → List Fields → List Fields
  unfolding ensure_tool_call_id
  ensure_ids index [] = []
  ensure_ids index (call ∷ calls) = ensure_tool_call_id call index ∷ ensure_ids (suc index) calls

  -- `[str(call.get("id")) for call in calls if call.get("id")]`
  unfoldable pub ids_of : List Fields → List Text
  ids_of [] = []
  ids_of (call ∷ calls) =
      let rest = ids_of calls in
      if truthy (get "id" call) then to_str ctx.std (get "id" call) ∷ rest else rest

  unfoldable pub pending_assistant_tool_call_message : Fields → List Fields → Message
  unfolding call_list split_private_assistant_tags strip_leading_echo normalize_text
      assistant_tool_call_message
  pending_assistant_tool_call_message message calls =
      let text = strip_leading_echo (normalize_text ctx.std (get "content" message)) in
      let clean = (split_private_assistant_tags text).0 in
      assistant_tool_call_message ctx.std ctx.dumps (put "content" (str clean) message)
        (map (λ call. obj call) calls)

  -- The gateway's calls of the batch, one after the other, and the messages that answer them.
  unfoldable pub run_gateway_calls : List Fields → Run W → List Message × Run W
  unfolding call_tool note_result note_error tool_result_message tool_call_name tool_call_arguments
  run_gateway_calls [] run = ([], run)
  run_gateway_calls (call ∷ calls) run =
      let name = tool_call_name ctx.std ctx.loads call in
      let args = tool_call_arguments ctx.std ctx.loads call in
      let (result, made) = call_tool ctx call name args run in
      let noted = note_error ctx name args result (note_result ctx call name args result made) in
      let (messages, after) = run_gateway_calls calls noted in
      (tool_result_message ctx call name result ∷ messages, after)

  -- The completion, the gateway's and the client's calls, and the state afterwards.
  pub record Batch : Type 0 where
    pub completion : Fields
    pub gateway_calls : List Fields
    pub client_calls : List Fields
    pub run : Run W

  unfoldable pub with_calls : List Fields → Fields → Fields
  unfolding with_message call_list normalize_text
  with_calls calls completion =
      with_message
        (λ message.
          put "tool_calls" (call_list calls)
            (put "content" (str (normalize_text ctx.std (get "content" message))) message))
        completion

  -- The batch that has calls of both sides, in a completion with all of them.
  unfoldable pub run_mixed : Fields → List Fields → List Fields → List Fields → Run W → Batch
  unfolding run_gateway_calls with_calls first_message emit ids_of
      pending_assistant_tool_call_message
  run_mixed completion calls gateway_calls client_calls run =
      let (messages, made) = run_gateway_calls gateway_calls run in
      record {
        completion = with_calls client_calls completion;
        gateway_calls = gateway_calls;
        client_calls = client_calls;
        run =
            emit
              (create_pending_turn (ids_of client_calls)
                (pending_assistant_tool_call_message (first_message completion) calls) messages)
              made;
      }

  -- Nothing is called unless there are calls of both sides.
  unfoldable pub run_batch : Fields → List Fields → List Fields → List Fields → Run W → Batch
  unfolding run_mixed
  run_batch completion calls [] client_calls run = record {
    completion = completion;
    gateway_calls = [];
    client_calls = client_calls;
    run = run;
  }
  run_batch completion calls (g ∷ gateway_calls) [] run = record {
    completion = completion;
    gateway_calls = g ∷ gateway_calls;
    client_calls = [];
    run = run;
  }
  run_batch completion calls (g ∷ gateway_calls) (c ∷ client_calls) run =
      run_mixed completion calls (g ∷ gateway_calls) (c ∷ client_calls) run

  unfoldable pub execute_mixed_gateway_tool_calls : Fields → List Fields → Run W → Batch
  unfolding ensure_ids is_native_call keep_if run_batch with_calls
  execute_mixed_gateway_tool_calls completion tool_calls run =
      let calls = ensure_ids 0 tool_calls in
      run_batch (with_calls calls completion) calls
        (keep_if (is_native_call ctx.std ctx.loads) calls)
        (keep_if (λ call. not (is_native_call ctx.std ctx.loads call)) calls) run

  unfoldable pub batch_of : Fields → List Fields → Run W → Batch
  unfolding execute_mixed_gateway_tool_calls
  batch_of completion [] run = record {
    completion = completion;
    gateway_calls = [];
    client_calls = [];
    run = run;
  }
  batch_of completion (call ∷ calls) run =
      execute_mixed_gateway_tool_calls completion (call ∷ calls) run

  -- Calls of the client alone are kept with their thinking, so that it can be sent back.
  unfoldable pub keep_thinking : List Fields → List Fields → Fields → Run W → Run W
  unfolding has_thinking emit ids_of pending_assistant_tool_call_message
  keep_thinking [] gateway_calls message run = run
  keep_thinking (call ∷ calls) (g ∷ gateway_calls) message run = run
  keep_thinking (call ∷ calls) [] message run =
      if has_thinking message
      then emit
          (create_pending_turn (ids_of (call ∷ calls))
            (pending_assistant_tool_call_message message (call ∷ calls)) [])
          run
      else run

  unfoldable pub keep_heartbeat : Text → Run W → Run W
  unfolding emit
  keep_heartbeat content run = if is_empty content then run else emit (store_heartbeat content) run

  -- The end: the last message's private parts, and the text of all the rounds.
  unfoldable pub store_reply : Private → Run W → Run W
  unfolding emit record_echo_segment keep_heartbeat combined_echo_text join
      strip_anthropic_private_blocks
  store_reply private run =
      let kept =
        keep_heartbeat private.heartbeat_content (record_echo_segment private.echo_content run) in
      let echo = combined_echo_text kept in
      let content = join run.streamed_reply_parts ++ private.clean_content in
      emit (write_snapshot content echo) (
        emit
          (log_assistant_output
            (put "content" (str content) (strip_anthropic_private_blocks private.message)) echo)
          kept)

  unfoldable pub finalize_non_gateway_tool_reply :
      Fields → List Fields → Text → Run W → Fields × Run W
  unfolding batch_of keep_thinking store_reply first_message with_message
      strip_anthropic_private_blocks
  finalize_non_gateway_tool_reply completion tool_calls latest_user_text run =
      let batch = batch_of completion tool_calls run in
      let message = first_message batch.completion in
      let kept = keep_thinking tool_calls batch.gateway_calls message batch.run in
      let (private, world) =
        ctx.finalize_assistant_private_content message latest_user_text kept.world in
      (
        with_message (λ m. strip_anthropic_private_blocks private.message) batch.completion,
        store_reply private (record kept { world = world }),
      )
