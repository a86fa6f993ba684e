-- ===== src/ToolLoop/Final.antt =====
-- The last reply of tool_loop.py asks the upstream nothing more.
use shenyugateway.Common.{
  not, List, [], ◌∷◌, refl, ap, ◌∙◌, inl, inr, append-nil, keep_if, Bool-cases,
}
use shenyugateway.Text.{Text}
use shenyugateway.Json.{Fields}
use shenyugateway.ToolLoop.Calls.{
  tool_call_name, tool_call_arguments, is_native_call, first_message,
}
use shenyugateway.ToolLoop.State.{Private, Context, Run, emit, record_echo_segment}
use shenyugateway.ToolLoop.Execute.{call_tool, note_error, note_result}
use shenyugateway.ToolLoop.Mixed.{
  ensure_ids, run_gateway_calls, with_calls, run_mixed, run_batch, execute_mixed_gateway_tool_calls,
  batch_of, keep_thinking, keep_heartbeat, store_reply, finalize_non_gateway_tool_reply,
  has_thinking,
}
use shenyugateway.ToolLoop.Effects.{
  gather, gather-silent, requested, call_tool-silent, note_error-silent, note_result-said,
}
use shenyugateway.ToolLoop.Silent.{NoRequest, echo-effects}

module _ {W : Type 0} (ctx : Context W) where
  pub run_gateway_calls-NoRequest :
      (calls : List Fields) (run : Run W) → NoRequest ctx run (run_gateway_calls ctx calls run).1
  unfolding run_gateway_calls requested
  run_gateway_calls-NoRequest [] run = refl
  run_gateway_calls-NoRequest (call ∷ calls) run =
      let name = tool_call_name ctx.std ctx.loads call in
      let args = tool_call_arguments ctx.std ctx.loads call in
      let (result, made) = call_tool ctx call name args run in
      let noted = note_result ctx call name args result made in
      run_gateway_calls-NoRequest calls (note_error ctx name args result noted)
      ∙ note_error-silent requested (λ n a. refl) (λ e. refl) (λ id. []) (λ n a v id. refl) ctx name
          args result noted
      ∙ note_result-said requested (λ n a. refl) (λ e. refl) (λ id. []) (λ n a v id. refl) ctx call
          name args result made
      ∙ append-nil (gather requested made.effects)
      ∙ call_tool-silent requested (λ n a. refl) (λ e. refl) (λ id. []) (λ n a v id. refl) ctx call
          name args run

  run_mixed-NoRequest :
      (completion : Fields) (calls ours theirs : List Fields) (run : Run W)
      → NoRequest ctx run (run_mixed ctx completion calls ours theirs run).run
  unfolding run_mixed emit requested
  run_mixed-NoRequest completion calls ours theirs run =
      gather-silent requested (run_gateway_calls ctx ours run).1.effects _ refl
      ∙ run_gateway_calls-NoRequest ours run

  run_batch-NoRequest :
      (completion : Fields) (calls ours theirs : List Fields) (run : Run W)
      → NoRequest ctx run (run_batch ctx completion calls ours theirs run).run
  unfolding run_batch
  run_batch-NoRequest completion calls [] theirs run = refl
  run_batch-NoRequest completion calls (g ∷ gs) [] run = refl
  run_batch-NoRequest completion calls (g ∷ gs) (c ∷ cs) run =
      run_mixed-NoRequest completion calls (g ∷ gs) (c ∷ cs) run

  batch_of-NoRequest :
      (completion : Fields) (calls : List Fields) (run : Run W)
      → NoRequest ctx run (batch_of ctx completion calls run).run
  unfolding batch_of execute_mixed_gateway_tool_calls
  batch_of-NoRequest completion [] run = refl
  batch_of-NoRequest completion (call ∷ tool_calls) run =
      let calls = ensure_ids ctx 0 (call ∷ tool_calls) in
      run_batch-NoRequest (with_calls ctx calls completion) calls
        (keep_if (is_native_call ctx.std ctx.loads) calls)
        (keep_if (λ c. not (is_native_call ctx.std ctx.loads c)) calls) run

  keep_thinking-NoRequest :
      (calls ours : List Fields) (message : Fields) (run : Run W)
      → NoRequest ctx run (keep_thinking ctx calls ours message run)
  unfolding keep_thinking emit requested
  keep_thinking-NoRequest [] ours message run = refl
  keep_thinking-NoRequest (call ∷ calls) (g ∷ gs) message run = refl
  keep_thinking-NoRequest (call ∷ calls) [] message run = elim (Bool-cases (has_thinking message)) [
    | inl e ↦ rw (e, keep_thinking) (gather-silent requested run.effects _ refl)
    | inr e ↦ rw (e, keep_thinking) refl
  ]

  keep_heartbeat-NoRequest :
      (content : Text) (run : Run W) → NoRequest ctx run (keep_heartbeat ctx content run)
  unfolding keep_heartbeat emit requested
  keep_heartbeat-NoRequest [] run = refl
  keep_heartbeat-NoRequest (c ∷ content) run = gather-silent requested run.effects _ refl

  store_reply-NoRequest :
      (private : Private) (run : Run W) → NoRequest ctx run (store_reply ctx private run)
  unfolding store_reply emit requested
  store_reply-NoRequest private run =
      let told = record_echo_segment private.echo_content run in
      let kept = keep_heartbeat ctx private.heartbeat_content told in
      gather-silent requested _ _ refl
      ∙ gather-silent requested kept.effects _ refl
      ∙ keep_heartbeat-NoRequest private.heartbeat_content told
      ∙ ap (gather requested) (echo-effects ctx private.echo_content run)

  pub finalize-NoRequest :
      (completion : Fields) (calls : List Fields) (latest : Text) (run : Run W)
      → NoRequest ctx run (finalize_non_gateway_tool_reply ctx completion calls latest run).1
  unfolding finalize_non_gateway_tool_reply
  finalize-NoRequest completion calls latest run =
      let batch = batch_of ctx completion calls run in
      let message = first_message batch.completion in
      let kept = keep_thinking ctx calls batch.gateway_calls message batch.run in
      let (private, world) = ctx.finalize_assistant_private_content message latest kept.world in
      store_reply-NoRequest private (record kept { world = world })
      ∙ keep_thinking-NoRequest calls batch.gateway_calls message batch.run
      ∙ batch_of-NoRequest completion calls run
