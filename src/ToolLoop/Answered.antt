-- ===== src/ToolLoop/Answered.antt =====
-- The messages that tool_loop.py asks the upstream with: each call is answered.
use shenyugateway.Common.{
  ℕ, Bool, true, false, none, some, List, [], ◌∷◌, ◌++◌, ◌≡◌, refl, ap, sym, ◌∙◌, inl, inr,
  append-nil, append_assoc, map, all, Bool-cases, Option-cases,
}
use shenyugateway.Text.{Text, is_empty}
use shenyugateway.Json.{Fields, Message, get, put, has_role}
use shenyugateway.Upstream.State.{is_island}
use shenyugateway.Upstream.Results.{is_tool_message}
use shenyugateway.ToolLoop.Calls.{tool_call_name, tool_call_arguments, tool_call_cache_key}
use shenyugateway.ToolLoop.Errors.{ToolResult, is_failed}
use shenyugateway.ToolLoop.State.{Context, Run, event_target, record_tool_event, emit}
use shenyugateway.ToolLoop.Execute.{
  call_tool, note_error, note_result, store_result, found_in_cache, is_cacheable,
  execute_internal_tool_call, tool_result_message,
}
use shenyugateway.ToolLoop.Effects.{call_tool-Aside, made_call, event-Aside}
use shenyugateway.ToolLoop.Rounds.{run_call, run_calls}

module _ {W : Type 0} (ctx : Context W) where
  -- The message that answers a call names it, whatever the result.
  pub answer_lem :
      (call : Fields) (name : Text) (result : ToolResult)
      → (get "tool_call_id" (tool_result_message ctx call name result) ≡ get "id" call)
        × (is_tool_message (tool_result_message ctx call name result) ≡ true)
  unfolding tool_result_message is_tool_message is_island has_role get put
  answer_lem call name result = elim (Bool-cases (is_empty result.view_photo_id)) [
    | inl e ↦ rw (e, tool_result_message) (refl, refl)
    | inr e ↦ rw (e, tool_result_message) (refl, refl)
  ]

  note_error-messages :
      (name : Text) (args : Fields) (result : ToolResult) (run : Run W)
      → (note_error ctx name args result run).working_messages ≡ run.working_messages
  unfolding note_error emit
  note_error-messages name args result run = elim (Bool-cases (is_failed result.value)) [
    | inl e ↦ rw (e, note_error) refl
    | inr e ↦ rw (e, note_error) refl
  ]

  store_result-messages :
      (cacheable : Bool) (key : Text) (result : ToolResult) (run : Run W)
      → (store_result ctx cacheable key result run).working_messages ≡ run.working_messages
  unfolding store_result
  store_result-messages true key result run = refl
  store_result-messages false key result run = refl

  execute-messages :
      (call : Fields) (run : Run W)
      → (execute_internal_tool_call ctx call run).run.working_messages ≡ run.working_messages
  unfolding execute_internal_tool_call note_result emit made_call
  execute-messages call run =
      let args = tool_call_arguments ctx.std ctx.loads call in
      let name = tool_call_name ctx.std ctx.loads call in
      let key = tool_call_cache_key ctx.std ctx.loads name args in
      let cacheable = is_cacheable (event_target ctx name args) in
      let made = call_tool ctx call name args run in
      let stored = store_result ctx cacheable key made.0 made.1 in
      elim (Option-cases (found_in_cache ctx cacheable key run)) [
        | inr (previous, e) ↦ rw (e, execute_internal_tool_call) refl
        | inl e ↦
            rw (e, execute_internal_tool_call)
              (note_error-messages name args made.0 stored
                ∙ store_result-messages cacheable key made.0 made.1
                ∙ (call_tool-Aside ctx call name args run).1)
      ]

  -- One call adds the message that answers it.
  run_call-messages :
      (i : ℕ) (call : Fields) (run : Run W)
      → (answer : Message) × ((run_call ctx i call run).working_messages
          ≡ run.working_messages ++ answer ∷ [])
        × (get "tool_call_id" answer ≡ get "id" call)
        × (is_tool_message answer ≡ true)
  unfolding run_call
  run_call-messages i call run =
      let name = tool_call_name ctx.std ctx.loads call in
      let begun = record_tool_event ctx true call name i none none run in
      let done = execute_internal_tool_call ctx call begun in
      let told = event-Aside ctx false call name i (some done.cached) (some done.result) done.run in
      let same =
        told.1 ∙ execute-messages call begun ∙ (event-Aside ctx true call name i none none run).1 in
      let answer = tool_result_message ctx call name done.result in
      let (named, tool) = answer_lem call name done.result in
      (answer, ap (λ ms. ms ++ answer ∷ []) same, named, tool)

  -- The calls of a round add a message for each, in order.
  pub run_calls-messages :
      (i : ℕ) (calls : List Fields) (run : Run W)
      → (answers : List Message) × ((run_calls ctx i calls run).working_messages
          ≡ run.working_messages ++ answers)
        × (map (get "tool_call_id") answers ≡ map (get "id") calls)
        × (all is_tool_message answers ≡ true)
  unfolding run_calls all
  run_calls-messages i [] run = ([], sym (append-nil run.working_messages), refl, refl)
  run_calls-messages i (call ∷ calls) run =
      let (answer, added, named, tool) = run_call-messages i call run in
      let (answers, rest, names, tools) = run_calls-messages i calls (run_call ctx i call run) in
      (
        answer ∷ answers,
        rest
            ∙ ap (λ ms. ms ++ answers) added
            ∙ append_assoc run.working_messages (answer ∷ []) answers,
        ap (λ id. id ∷ map (get "tool_call_id") answers) named ∙ ap (◌∷◌ (get "id" call)) names,
        rw tool tools,
      )
