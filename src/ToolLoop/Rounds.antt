-- ===== src/ToolLoop/Rounds.antt =====
-- `run_internal_tool_loop` of tool_loop.py, with `_append_streamed_reply_content`,
-- `_append_assistant_tool_call_message` and `_salvage_exhausted_tool_rounds`.
use shenyugateway.Common.{
  Bool, ℕ, zero, suc, max, true, false, ◌&&◌, none, some, List, [], ◌∷◌, ◌++◌, if◌then◌else◌, map,
}
use shenyugateway.Text.{Text, codes, join, is_empty}
use shenyugateway.Json.{str, obj, Fields, field, end, get}
use shenyugateway.Echo.{split_leading_echo, strip_leading_echo}
use shenyugateway.Capture.{split_private_assistant_tags}
use shenyugateway.Upstream.Caller.{assistant_tool_call_message}
use shenyugateway.ToolLoop.Calls.{
  is_readable, first_message, extract_tool_calls, all_tool_calls_are_gateway_native,
  content_text_only, latest_user_text, tool_call_name,
}
use shenyugateway.ToolLoop.State.{
  Context, Run, unbuilt, upstream_error, completed, request, log_assistant_output, emit,
  record_echo_segment, combined_echo_text, record_tool_event,
}
use shenyugateway.ToolLoop.Execute.{execute_internal_tool_call, tool_result_message}
use shenyugateway.ToolLoop.Mixed.{finalize_non_gateway_tool_reply}

-- How the loop ends: with a completion, with the exception of `build_upstream_request` or of the
-- upstream, with the exception that a completion without a first message raises, or with the HTTP
-- error 500 of too many rounds.
pub data Ending : Type 0 where
  replied : Fields → Ending
  unsent : Text → Ending
  failed : Text → Ending
  unreadable : Ending
  exceeded_rounds : Ending

unfoldable pub has_no_media : List Fields → Bool
has_no_media [] = true
has_no_media (media ∷ rest) = false

module _ {W : Type 0} (ctx : Context W) where
  abbrev pub initial_run : W → Run W
  initial_run world = record {
    world = world;
    working_messages = ctx.prepared_messages;
    tool_result_cache = [];
    process_order = 0;
    tool_process_orders = [];
    tool_events = [];
    echo_segments = [];
    streamed_reply_parts = [];
    album_shared_media = [];
    effects = [];
  }

  unfoldable pub visible_round_content : Fields → Text
  unfolding first_message content_text_only strip_leading_echo split_private_assistant_tags
  visible_round_content completion =
      (split_private_assistant_tags (
        strip_leading_echo
          (content_text_only ctx.std ctx.loads (get "content" (first_message completion))))).0

  unfoldable pub append_streamed_reply_content : Fields → Run W → Run W
  unfolding visible_round_content
  append_streamed_reply_content completion run =
      let content = visible_round_content completion in
      if is_empty content
      then run
      else record run { streamed_reply_parts = run.streamed_reply_parts ++ content ∷ [] }

  unfoldable pub append_assistant_tool_call_message : Fields → List Fields → Run W → Run W
  unfolding first_message assistant_tool_call_message
  append_assistant_tool_call_message completion tool_calls run = record run {
    working_messages =
        run.working_messages
        ++ assistant_tool_call_message ctx.std ctx.dumps (first_message completion)
            (map (λ call. obj call) tool_calls)
          ∷ [];
  }

  -- One call of a round, and its answer at the messages' end.
  unfoldable pub run_call : ℕ → Fields → Run W → Run W
  unfolding record_tool_event execute_internal_tool_call tool_result_message tool_call_name
  run_call round_index call run =
      let name = tool_call_name ctx.std ctx.loads call in
      let done =
        execute_internal_tool_call ctx call
          (record_tool_event ctx true call name round_index none none run) in
      let told =
        record_tool_event ctx false call name round_index (some done.cached) (some done.result)
          done.run in
      record told {
        working_messages =
            told.working_messages ++ tool_result_message ctx call name done.result ∷ [];
      }

  unfoldable pub run_calls : ℕ → List Fields → Run W → Run W
  unfolding run_call
  run_calls round_index [] run = run
  run_calls round_index (call ∷ calls) run =
      run_calls round_index calls (run_call round_index call run)

  -- A round whose calls are all the gateway's.
  unfoldable pub run_native_round : ℕ → Fields → List Fields → Run W → Run W
  unfolding run_calls append_assistant_tool_call_message append_streamed_reply_content
      record_echo_segment split_leading_echo content_text_only first_message
  run_native_round round_index completion tool_calls run =
      let content =
        content_text_only ctx.std ctx.loads (get "content" (first_message completion)) in
      run_calls round_index tool_calls (
        append_assistant_tool_call_message completion tool_calls (
          append_streamed_reply_content completion
            (record_echo_segment (split_leading_echo content).echo run)))

  unfoldable pub salvage_exhausted_tool_rounds : Run W → Run W
  unfolding combined_echo_text join has_no_media emit
  salvage_exhausted_tool_rounds run =
      let salvaged = join run.streamed_reply_parts in
      let echo = combined_echo_text run in
      if is_empty salvaged && is_empty echo && has_no_media run.album_shared_media
      then run
      else emit
          (log_assistant_output
            (field "role" (str (codes "assistant")) (field "content" (str salvaged) end)) echo)
          run

  -- The rounds that are left, from this one on.
  unfoldable pub run_rounds : ℕ → ℕ → Run W → Ending × Run W
  unfolding salvage_exhausted_tool_rounds emit extract_tool_calls run_native_round
      all_tool_calls_are_gateway_native finalize_non_gateway_tool_reply latest_user_text is_readable
  run_rounds zero round_index run = (exceeded_rounds, salvage_exhausted_tool_rounds run)
  run_rounds (suc rounds) round_index run =
      let (answer, world) = ctx.call_upstream run.working_messages run.world in
      let asked = emit (request run.working_messages) (record run { world = world }) in
      elim answer [
        | unbuilt text ↦ (unsent text, record run { world = world })
        | upstream_error text ↦ (failed text, asked)
        | completed raw ↦
            let (tool_calls, completion) = extract_tool_calls ctx.std ctx.loads raw in
            elim (is_readable raw) [
              | false ↦ (unreadable, asked)
              | true ↦ elim (all_tool_calls_are_gateway_native ctx.std ctx.loads tool_calls) [
                | true ↦
                    run_rounds rounds (suc round_index)
                      (run_native_round round_index completion tool_calls asked)
                | false ↦
                    let (reply, after) =
                      finalize_non_gateway_tool_reply ctx completion tool_calls
                        (latest_user_text ctx.std ctx.loads ctx.prepared_messages) asked in
                    (replied reply, after)
              ]
            ]
      ]

  unfoldable pub run_internal_tool_loop : W → Ending × Run W
  unfolding run_rounds
  run_internal_tool_loop world =
      run_rounds (max 1 ctx.max_internal_tool_rounds) 0 (initial_run world)
