-- ===== src/ToolLoop/Silent.antt =====
-- In tool_loop.py nothing but the loop itself asks the upstream.
use shenyugateway.Common.{
  ℕ, true, false, none, some, List, [], ◌∷◌, ◌≡◌, refl, ap, ◌∙◌, inl, inr, append-nil, ◌&&◌,
  Bool-cases,
}
use shenyugateway.Text.{Text, strip, is_empty, join}
use shenyugateway.Json.{Fields}
use shenyugateway.ToolLoop.Calls.{tool_call_name}
use shenyugateway.ToolLoop.State.{
  Context, Run, emit, record_echo_segment, combined_echo_text, record_tool_event,
  next_process_order,
}
use shenyugateway.ToolLoop.Execute.{execute_internal_tool_call}
use shenyugateway.ToolLoop.Effects.{gather, gather-silent, requested, event-Aside, execute-said}
use shenyugateway.ToolLoop.Rounds.{
  has_no_media, run_call, run_calls, run_native_round, append_streamed_reply_content,
  append_assistant_tool_call_message, visible_round_content, salvage_exhausted_tool_rounds,
}

module _ {W : Type 0} (ctx : Context W) where
  -- The same requests as before.
  abbrev pub NoRequest : Run W → Run W → Type 0
  NoRequest run after = gather requested after.effects ≡ gather requested run.effects

  execute-NoRequest :
      (call : Fields) (run : Run W) → NoRequest run (execute_internal_tool_call ctx call run).run
  unfolding requested
  execute-NoRequest call run =
      execute-said requested (λ n a. refl) (λ e. refl) (λ id. []) (λ n a v id. refl) ctx call run
      ∙ append-nil (gather requested run.effects)

  run_call-NoRequest :
      (i : ℕ) (call : Fields) (run : Run W) → NoRequest run (run_call ctx i call run)
  unfolding run_call
  run_call-NoRequest i call run =
      let name = tool_call_name ctx.std ctx.loads call in
      let begun = record_tool_event ctx true call name i none none run in
      let done = execute_internal_tool_call ctx call begun in
      ap (gather requested)
        (event-Aside ctx false call name i (some done.cached) (some done.result) done.run).0
      ∙ execute-NoRequest call begun
      ∙ ap (gather requested) (event-Aside ctx true call name i none none run).0

  run_calls-NoRequest :
      (i : ℕ) (calls : List Fields) (run : Run W) → NoRequest run (run_calls ctx i calls run)
  unfolding run_calls
  run_calls-NoRequest i [] run = refl
  run_calls-NoRequest i (call ∷ calls) run =
      run_calls-NoRequest i calls (run_call ctx i call run) ∙ run_call-NoRequest i call run

  pub echo-effects :
      (echo : Text) (run : Run W) → (record_echo_segment echo run).effects ≡ run.effects
  unfolding record_echo_segment next_process_order
  echo-effects echo run = elim (Bool-cases (is_empty (strip echo))) [
    | inl e ↦ rw (e, record_echo_segment) refl
    | inr e ↦ rw (e, record_echo_segment) refl
  ]

  pub content-effects :
      (completion : Fields) (run : Run W)
      → (append_streamed_reply_content ctx completion run).effects ≡ run.effects
  unfolding append_streamed_reply_content
  content-effects completion run =
      elim (Bool-cases (is_empty (visible_round_content ctx completion))) [
        | inl e ↦ rw (e, append_streamed_reply_content) refl
        | inr e ↦ rw (e, append_streamed_reply_content) refl
      ]

  pub run_native_round-NoRequest :
      (i : ℕ) (completion : Fields) (calls : List Fields) (run : Run W)
      → NoRequest run (run_native_round ctx i completion calls run)
  unfolding run_native_round append_assistant_tool_call_message
  run_native_round-NoRequest i completion calls run =
      run_calls-NoRequest i calls _
      ∙ ap (gather requested) (content-effects completion _ ∙ echo-effects _ run)

  pub salvage-NoRequest : (run : Run W) → NoRequest run (salvage_exhausted_tool_rounds ctx run)
  unfolding salvage_exhausted_tool_rounds emit requested
  salvage-NoRequest run =
      elim (Bool-cases (
        is_empty (join run.streamed_reply_parts)
        && is_empty (combined_echo_text run)
        && has_no_media run.album_shared_media)) [
          | inl e ↦ rw (e, salvage_exhausted_tool_rounds) refl
          | inr e ↦
              rw (e, salvage_exhausted_tool_rounds) (gather-silent requested run.effects _ refl)
        ]
