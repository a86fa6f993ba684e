-- ===== src/ToolLoop/OnceRounds.antt =====
-- The parts of a round in tool_loop.py keep the cache of tool results and its executions.
use shenyugateway.Common.{ℕ, ◌&&◌, List, [], ◌∷◌, ◌≡◌, refl, ap, inl, inr, Bool-cases}
use shenyugateway.Text.{Text, strip, is_empty, join}
use shenyugateway.Json.{Fields, get}
use shenyugateway.Echo.{split_leading_echo}
use shenyugateway.ToolLoop.Calls.{first_message, content_text_only}
use shenyugateway.ToolLoop.State.{
  Private, Context, Run, Effect, emit, record_echo_segment, next_process_order, combined_echo_text,
}
use shenyugateway.ToolLoop.Mixed.{keep_heartbeat, store_reply}
use shenyugateway.ToolLoop.Effects.{gather, gather-silent}
use shenyugateway.ToolLoop.Once.{Once, Once-Same, execution, run_calls-Once}
use shenyugateway.ToolLoop.Silent.{echo-effects, content-effects}
use shenyugateway.ToolLoop.Rounds.{
  has_no_media, run_native_round, append_streamed_reply_content, visible_round_content,
  append_assistant_tool_call_message, salvage_exhausted_tool_rounds,
}

module _ {W : Type 0} (ctx : Context W) where
  echo-cache :
      (echo : Text) (run : Run W)
      → (record_echo_segment echo run).tool_result_cache ≡ run.tool_result_cache
  unfolding record_echo_segment next_process_order
  echo-cache echo run = elim (Bool-cases (is_empty (strip echo))) [
    | inl e ↦ rw (e, record_echo_segment) refl
    | inr e ↦ rw (e, record_echo_segment) refl
  ]

  content-cache :
      (completion : Fields) (run : Run W)
      → (append_streamed_reply_content ctx completion run).tool_result_cache ≡ run.tool_result_cache
  unfolding append_streamed_reply_content
  content-cache completion run =
      elim (Bool-cases (is_empty (visible_round_content ctx completion))) [
        | inl e ↦ rw (e, append_streamed_reply_content) refl
        | inr e ↦ rw (e, append_streamed_reply_content) refl
      ]

  echo-Once : (echo : Text) (run : Run W) → Once ctx run → Once ctx (record_echo_segment echo run)
  echo-Once echo run h =
      Once-Same ctx run (record_echo_segment echo run) h
        (ap (gather (execution ctx)) (echo-effects ctx echo run), echo-cache echo run)

  content-Once :
      (completion : Fields) (run : Run W)
      → Once ctx run
      → Once ctx (append_streamed_reply_content ctx completion run)
  content-Once completion run h =
      Once-Same ctx run (append_streamed_reply_content ctx completion run) h (
        ap (gather (execution ctx)) (content-effects ctx completion run),
        content-cache completion run,
      )

  pub run_native_round-Once :
      (i : ℕ) (completion : Fields) (calls : List Fields) (run : Run W)
      → Once ctx run
      → Once ctx (run_native_round ctx i completion calls run)
  unfolding run_native_round append_assistant_tool_call_message
  run_native_round-Once i completion calls run h =
      let content =
        content_text_only ctx.std ctx.loads (get "content" (first_message completion)) in
      let heard = record_echo_segment (split_leading_echo content).echo run in
      let shown = append_streamed_reply_content ctx completion heard in
      let called = append_assistant_tool_call_message ctx completion calls shown in
      run_calls-Once ctx i calls called (
        Once-Same ctx shown called
          (content-Once completion heard (echo-Once (split_leading_echo content).echo run h))
          (refl, refl))

  -- A run with one more effect that is no execution.
  pub emit-Once :
      (effect : Effect) (run : Run W)
      → execution ctx effect ≡ []
      → Once ctx run
      → Once ctx (emit effect run)
  unfolding emit
  emit-Once effect run e h =
      Once-Same ctx run (emit effect run) h
        (gather-silent (execution ctx) run.effects effect e, refl)

  pub salvage-Once : (run : Run W) → Once ctx run → Once ctx (salvage_exhausted_tool_rounds ctx run)
  unfolding salvage_exhausted_tool_rounds execution
  salvage-Once run h =
      elim (Bool-cases (
        is_empty (join run.streamed_reply_parts)
        && is_empty (combined_echo_text run)
        && has_no_media run.album_shared_media)) [
          | inl e ↦ rw (e, salvage_exhausted_tool_rounds) h
          | inr e ↦ rw (e, salvage_exhausted_tool_rounds) (emit-Once _ run refl h)
        ]

  keep_heartbeat-Once :
      (content : Text) (run : Run W) → Once ctx run → Once ctx (keep_heartbeat ctx content run)
  unfolding keep_heartbeat execution
  keep_heartbeat-Once [] run h = h
  keep_heartbeat-Once (c ∷ content) run h = emit-Once _ run refl h

  pub store_reply-Once :
      (private : Private) (run : Run W) → Once ctx run → Once ctx (store_reply ctx private run)
  unfolding store_reply execution
  store_reply-Once private run h =
      let told = record_echo_segment private.echo_content run in
      emit-Once _ _ refl (
        emit-Once _ _ refl (
          keep_heartbeat-Once private.heartbeat_content told
            (echo-Once private.echo_content run h)))
