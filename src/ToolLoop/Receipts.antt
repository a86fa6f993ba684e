-- ===== src/ToolLoop/Receipts.antt =====
-- The receipts of tool calls that tool_loop.py logs.
use shenyugateway.Common.{
  ℕ, true, false, none, some, List, [], ◌∷◌, ◌++◌, ◌≡◌, refl, ap, sym, ◌∙◌, append-nil,
  append_assoc, map,
}
use shenyugateway.Text.{Text}
use shenyugateway.Json.{Fields, get}
use shenyugateway.Echo.{split_leading_echo}
use shenyugateway.ToolLoop.Calls.{tool_call_name, first_message, content_text_only}
use shenyugateway.ToolLoop.State.{Context, Run, record_tool_event, record_echo_segment}
use shenyugateway.ToolLoop.Execute.{execute_internal_tool_call, call_id}
use shenyugateway.ToolLoop.Effects.{gather, receipt, event-Aside, execute-said}
use shenyugateway.ToolLoop.Silent.{echo-effects, content-effects}
use shenyugateway.ToolLoop.Rounds.{
  run_call, run_calls, run_native_round, append_streamed_reply_content,
  append_assistant_tool_call_message,
}

module _ {W : Type 0} (ctx : Context W) where
  abbrev pub receipts : Run W → List Text
  receipts run = gather receipt run.effects

  receipts-run_call :
      (i : ℕ) (call : Fields) (run : Run W)
      → receipts (run_call ctx i call run) ≡ receipts run ++ call_id ctx call ∷ []
  unfolding run_call receipt
  receipts-run_call i call run =
      let name = tool_call_name ctx.std ctx.loads call in
      let begun = record_tool_event ctx true call name i none none run in
      let done = execute_internal_tool_call ctx call begun in
      ap (gather receipt)
        (event-Aside ctx false call name i (some done.cached) (some done.result) done.run).0
      ∙ execute-said receipt (λ n a. refl) (λ e. refl) (λ id. id ∷ []) (λ n a v id. refl) ctx call
          begun
      ∙ ap (λ es. gather receipt es ++ call_id ctx call ∷ [])
          (event-Aside ctx true call name i none none run).0

  receipts-run_calls :
      (i : ℕ) (calls : List Fields) (run : Run W)
      → receipts (run_calls ctx i calls run) ≡ receipts run ++ map (call_id ctx) calls
  unfolding run_calls
  receipts-run_calls i [] run = sym (append-nil (receipts run))
  receipts-run_calls i (call ∷ calls) run =
      receipts-run_calls i calls (run_call ctx i call run)
      ∙ ap (λ l. l ++ map (call_id ctx) calls) (receipts-run_call i call run)
      ∙ append_assoc (receipts run) (call_id ctx call ∷ []) (map (call_id ctx) calls)

  -- A round logs a result for every call, in the calls' order and under the call's id, whether the
  -- call was executed, failed, or was answered from the cache.
  pub receipts-run_native_round :
      (i : ℕ) (completion : Fields) (calls : List Fields) (run : Run W)
      → receipts (run_native_round ctx i completion calls run)
        ≡ receipts run ++ map (call_id ctx) calls
  unfolding run_native_round append_assistant_tool_call_message
  receipts-run_native_round i completion calls run =
      let content =
        content_text_only ctx.std ctx.loads (get "content" (first_message completion)) in
      let echo = (split_leading_echo content).echo in
      let heard = record_echo_segment echo run in
      let shown = append_streamed_reply_content ctx completion heard in
      receipts-run_calls i calls (append_assistant_tool_call_message ctx completion calls shown)
      ∙ ap (λ es. gather receipt es ++ map (call_id ctx) calls)
          (content-effects ctx completion heard ∙ echo-effects ctx echo run)
