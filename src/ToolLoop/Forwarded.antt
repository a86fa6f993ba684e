-- ===== src/ToolLoop/Forwarded.antt =====
-- A batch with calls of the gateway and of the client, as tool_loop.py splits it.
use shenyugateway.Common.{
  ℕ, true, false, not, List, [], ◌∷◌, ◌++◌, ◌≡◌, refl, ap, sym, ◌∙◌, map, all, keep_if, all-keep_if,
}
use shenyugateway.Text.{is_empty}
use shenyugateway.Json.{Fields, Message, get}
use shenyugateway.Upstream.Results.{is_tool_message}
use shenyugateway.ToolLoop.Calls.{
  first_message, is_native_call, tool_call_name, tool_call_arguments,
}
use shenyugateway.ToolLoop.State.{Context, Run, Effect, create_pending_turn, emit}
use shenyugateway.ToolLoop.Execute.{call_tool, note_error, note_result}
use shenyugateway.ToolLoop.Answered.{answer_lem}
use shenyugateway.ToolLoop.Mixed.{
  Batch, call_list, ensure_ids, ids_of, with_calls, run_gateway_calls, run_mixed, run_batch,
  execute_mixed_gateway_tool_calls, pending_assistant_tool_call_message,
}
use shenyugateway.ToolLoop.Shaped.{Shaped, with_calls-Shaped, with_calls-calls}
use shenyugateway.ToolLoop.Ids.{has_id, id_text, ensure_ids-all, ids_of-all}

module _ {W : Type 0} (ctx : Context W) where
  -- Each of the gateway's calls is answered.
  run_gateway_calls-messages :
      (calls : List Fields) (run : Run W)
      → (map (get "tool_call_id") (run_gateway_calls ctx calls run).0 ≡ map (get "id") calls)
        × (all is_tool_message (run_gateway_calls ctx calls run).0 ≡ true)
  unfolding run_gateway_calls all
  run_gateway_calls-messages [] run = (refl, refl)
  run_gateway_calls-messages (call ∷ calls) run =
      let name = tool_call_name ctx.std ctx.loads call in
      let args = tool_call_arguments ctx.std ctx.loads call in
      let (result, made) = call_tool ctx call name args run in
      let noted = note_error ctx name args result (note_result ctx call name args result made) in
      let (names, tools) = run_gateway_calls-messages calls noted in
      let (named, tool) = answer_lem ctx call name result in
      let messages = (run_gateway_calls ctx calls noted).0 in
      (
        ap (λ id. id ∷ map (get "tool_call_id") messages) named ∙ ap (◌∷◌ (get "id" call)) names,
        rw tool tools,
      )

  -- What a batch with calls of both sides comes to.
  abbrev pub Forwards : Batch ctx → List Fields → List Fields → Type 0
  Forwards batch ours theirs =
      (get "tool_calls" (first_message batch.completion) ≡ call_list theirs)
      × ((before : List Effect) × (original : Message) × (messages : List Message)
          × (batch.run.effects
              ≡ before ++ create_pending_turn (map (id_text ctx) theirs) original messages ∷ [])
          × (map (get "tool_call_id") messages ≡ map (get "id") ours)
          × (all is_tool_message messages ≡ true))

  run_batch-Forwards :
      (completion message : Fields) (calls ours theirs : List Fields) (run : Run W) (g c : Fields)
      (gs cs : List Fields)
      → Shaped completion message
      → ours ≡ g ∷ gs
      → theirs ≡ c ∷ cs
      → ids_of ctx theirs ≡ map (id_text ctx) theirs
      → Forwards (run_batch ctx completion calls ours theirs run) (g ∷ gs) (c ∷ cs)
  unfolding run_batch run_mixed emit
  run_batch-Forwards completion message calls ours theirs run g c gs cs h e f ids =
      rw (e, f)
        (
          with_calls-calls ctx (c ∷ cs) completion message h,
          (
            (run_gateway_calls ctx (g ∷ gs) run).1.effects,
            pending_assistant_tool_call_message ctx (first_message completion) calls,
            (run_gateway_calls ctx (g ∷ gs) run).0,
            ap
                (λ l.
                  (run_gateway_calls ctx (g ∷ gs) run).1.effects
                  ++ create_pending_turn l
                      (pending_assistant_tool_call_message ctx (first_message completion) calls)
                      (run_gateway_calls ctx (g ∷ gs) run).0
                    ∷ [])
                (ap (ids_of ctx) (sym f) ∙ ids ∙ ap (map (id_text ctx)) f),
            (run_gateway_calls-messages (g ∷ gs) run).0,
            (run_gateway_calls-messages (g ∷ gs) run).1,
          ),
        )

  -- If some calls of a batch are the gateway's and some are the client's, and drawn ids are not
  -- empty, the reply calls the client's tools only, and the last effect leaves a turn that waits for
  -- all the client's calls and has a tool's message for each of the gateway's, which names it, in
  -- the calls' order.
  pub mixed-Forwards :
      (completion message : Fields) (calls : List Fields) (run : Run W) (g c : Fields)
      (gs cs : List Fields)
      → Shaped completion message
      → ((i : ℕ) → is_empty (ctx.new_call_id i) ≡ false)
      → keep_if (is_native_call ctx.std ctx.loads) (ensure_ids ctx 0 calls) ≡ g ∷ gs
      → keep_if (λ call. not (is_native_call ctx.std ctx.loads call)) (ensure_ids ctx 0 calls)
        ≡ c ∷ cs
      → Forwards (execute_mixed_gateway_tool_calls ctx completion calls run) (g ∷ gs) (c ∷ cs)
  unfolding execute_mixed_gateway_tool_calls
  mixed-Forwards completion message calls run g c gs cs h drawn e f =
      let all_calls = ensure_ids ctx 0 calls in
      let theirs = keep_if (λ call. not (is_native_call ctx.std ctx.loads call)) all_calls in
      run_batch-Forwards (with_calls ctx all_calls completion) _ all_calls
        (keep_if (is_native_call ctx.std ctx.loads) all_calls) theirs run g c gs cs
        (with_calls-Shaped ctx all_calls completion message h) e f
        (ids_of-all ctx theirs (
          all-keep_if has_id (λ call. not (is_native_call ctx.std ctx.loads call)) all_calls
            (ensure_ids-all ctx drawn 0 calls)))
