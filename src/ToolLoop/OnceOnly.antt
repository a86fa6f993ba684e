-- ===== src/ToolLoop/OnceOnly.antt =====
-- The whole loop of tool_loop.py executes the same call once.
use shenyugateway.Common.{
  ℕ, zero, suc, max, Bool, true, false, not, List, [], ◌∷◌, ◌++◌, ◌≡◌, ◌≢◌, refl, ap, sym, subst,
  ◌∙◌, inl, inr, keep_if, Bool-cases, if◌then◌else◌,
}
use shenyugateway.Text.{Text}
use shenyugateway.Json.{Fields, Message}
use shenyugateway.ToolLoop.Calls.{
  first_message, extract_tool_calls, all_tool_calls_are_gateway_native, latest_user_text,
  is_native_call,
}
use shenyugateway.ToolLoop.State.{
  Private, Context, Answer, Run, Effect, create_pending_turn, request, emit, record_echo_segment,
}
use shenyugateway.ToolLoop.Mixed.{
  ensure_ids, with_calls, run_gateway_calls, run_mixed, run_batch, batch_of,
  execute_mixed_gateway_tool_calls, keep_thinking, keep_heartbeat, store_reply, has_thinking,
  ids_of, pending_assistant_tool_call_message, finalize_non_gateway_tool_reply,
}
use shenyugateway.ToolLoop.Effects.{gather, gather-silent, gather-snoc}
use shenyugateway.ToolLoop.Keys.{Distinct}
use shenyugateway.ToolLoop.Once.{start-Once, Once-Distinct, Once, Once-Same, execution, executions}
use shenyugateway.ToolLoop.Silent.{echo-effects}
use shenyugateway.ToolLoop.OnceRounds.{
  run_native_round-Once, emit-Once, salvage-Once, store_reply-Once,
}
use shenyugateway.ToolLoop.Asked.{
  Ends, ends_unsent, ends_failed, ends_unreadable, Answer-cases, asked_once, round_ended,
  round_native, round_replied, last_reply,
}
use shenyugateway.ToolLoop.Rounds.{
  Ending, initial_run, run_native_round, run_rounds, run_internal_tool_loop,
}

-- Whether an effect leaves a turn that waits for the client's results.
unfoldable pub pending : Effect → List (List Text)
pending (create_pending_turn ids original messages) = ids ∷ []
pending _ = []

module _ {W : Type 0} (ctx : Context W) where
  abbrev pub pendings : Run W → List (List Text)
  pendings run = gather pending run.effects

  not_nothing : (ts : List (List Text)) (t : List Text) → ts ++ t ∷ [] ≢ []
  not_nothing [] t e = absurd (cc e)
  not_nothing (u ∷ ts) t e = absurd (cc e)

  -- A batch with calls of both sides leaves a turn that waits.
  mixed-pending :
      (completion : Fields) (calls ours theirs : List Fields) (run : Run W)
      → pendings (run_mixed ctx completion calls ours theirs run).run ≢ []
  unfolding run_mixed emit pending
  mixed-pending completion calls ours theirs run e =
      not_nothing _ _ (sym (gather-snoc pending (run_gateway_calls ctx ours run).1.effects _) ∙ e)

  run_batch-Once :
      (completion : Fields) (calls ours theirs : List Fields) (run : Run W)
      → pendings (run_batch ctx completion calls ours theirs run).run ≡ []
      → Once ctx run
      → Once ctx (run_batch ctx completion calls ours theirs run).run
  unfolding run_batch
  run_batch-Once completion calls [] theirs run e h = h
  run_batch-Once completion calls (g ∷ gs) [] run e h = h
  run_batch-Once completion calls (g ∷ gs) (c ∷ cs) run e h =
      absurd (mixed-pending completion calls (g ∷ gs) (c ∷ cs) run e)

  batch_of-Once :
      (completion : Fields) (calls : List Fields) (run : Run W)
      → pendings (batch_of ctx completion calls run).run ≡ []
      → Once ctx run
      → Once ctx (batch_of ctx completion calls run).run
  unfolding batch_of execute_mixed_gateway_tool_calls
  batch_of-Once completion [] run e h = h
  batch_of-Once completion (call ∷ tool_calls) run e h =
      let calls = ensure_ids ctx 0 (call ∷ tool_calls) in
      run_batch-Once (with_calls ctx calls completion) calls
        (keep_if (is_native_call ctx.std ctx.loads) calls)
        (keep_if (λ c. not (is_native_call ctx.std ctx.loads c)) calls) run e h

  choice-pending :
      (b : Bool) (ids : List Text) (original : Message) (messages : List Message) (run : Run W)
      → pendings (if b then emit (create_pending_turn ids original messages) run else run) ≡ []
      → (if b then emit (create_pending_turn ids original messages) run else run) ≡ run
  unfolding emit pending
  choice-pending false ids original messages run e = refl
  choice-pending true ids original messages run e =
      absurd (not_nothing _ ids (sym (gather-snoc pending run.effects _) ∙ e))

  -- Kept thinking leaves such a turn too; without it the state is the same.
  keep_thinking-pending :
      (calls ours : List Fields) (message : Fields) (run : Run W)
      → pendings (keep_thinking ctx calls ours message run) ≡ []
      → keep_thinking ctx calls ours message run ≡ run
  unfolding keep_thinking
  keep_thinking-pending [] ours message run e = refl
  keep_thinking-pending (call ∷ calls) (g ∷ gs) message run e = refl
  keep_thinking-pending (call ∷ calls) [] message run e =
      choice-pending (has_thinking message) (ids_of ctx (call ∷ calls))
        (pending_assistant_tool_call_message ctx message (call ∷ calls)) [] run e

  keep_heartbeat-pending :
      (content : Text) (run : Run W) → pendings (keep_heartbeat ctx content run) ≡ pendings run
  unfolding keep_heartbeat emit pending
  keep_heartbeat-pending [] run = refl
  keep_heartbeat-pending (c ∷ content) run = gather-silent pending run.effects _ refl

  store_reply-pending :
      (private : Private) (run : Run W) → pendings (store_reply ctx private run) ≡ pendings run
  unfolding store_reply emit pending
  store_reply-pending private run =
      let told = record_echo_segment private.echo_content run in
      let kept = keep_heartbeat ctx private.heartbeat_content told in
      gather-silent pending _ _ refl
      ∙ gather-silent pending kept.effects _ refl
      ∙ keep_heartbeat-pending private.heartbeat_content told
      ∙ ap (gather pending) (echo-effects ctx private.echo_content run)

  finalize-Once :
      (completion : Fields) (calls : List Fields) (latest : Text) (run : Run W)
      → pendings (finalize_non_gateway_tool_reply ctx completion calls latest run).1 ≡ []
      → Once ctx run
      → Once ctx (finalize_non_gateway_tool_reply ctx completion calls latest run).1
  unfolding finalize_non_gateway_tool_reply
  finalize-Once completion calls latest run e h =
      let batch = batch_of ctx completion calls run in
      let message = first_message batch.completion in
      let kept = keep_thinking ctx calls batch.gateway_calls message batch.run in
      let (private, world) = ctx.finalize_assistant_private_content message latest kept.world in
      let later : Run W = record kept { world = world } in
      let none_kept = sym (store_reply-pending private later) ∙ e in
      let same = keep_thinking-pending calls batch.gateway_calls message batch.run none_kept in
      let none_mixed = ap pendings (sym same) ∙ none_kept in
      let once = batch_of-Once completion calls run none_mixed h in
      store_reply-Once ctx private later
        (Once-Same ctx kept later (subst (Once ctx) (sym same) once) (refl, refl))

  asked-Once : (run : Run W) (world : W) → Once ctx run → Once ctx (asked_once ctx run world)
  unfolding asked_once execution
  asked-Once run world h =
      let later : Run W = record run { world = world } in
      emit-Once ctx (request run.working_messages) later refl
        (Once-Same ctx run later h (refl, refl))

  ended-Once :
      (run : Run W) (world : W) {answer : Answer} {ending : Ending} {after : Run W}
      → Once ctx run
      → Ends ctx run world answer ending after
      → Once ctx after
  ended-Once run world h (ends_unsent t) =
      Once-Same ctx run (record run { world = world }) h (refl, refl)
  ended-Once run world h (ends_failed t) = asked-Once run world h
  ended-Once run world h (ends_unreadable raw e) = asked-Once run world h

  rounds-Once :
      (n i : ℕ) (run : Run W)
      → pendings (run_rounds ctx n i run).1 ≡ []
      → Once ctx run
      → Once ctx (run_rounds ctx n i run).1
  unfolding run_rounds last_reply
  rounds-Once zero i run e h = salvage-Once ctx run h
  rounds-Once (suc n) i run e h =
      let (answer, world) = ctx.call_upstream run.working_messages run.world in
      let once = asked_once ctx run world in
      let kept : Once ctx once = asked-Once run world h in
      elim (Answer-cases ctx run world answer) [
        | inl (ending, after, f) ↦
            subst (λ r. Once ctx r.1) (sym (round_ended ctx n i run f)) (ended-Once run world h f)
        | inr (raw, f, r) ↦
            let (calls, completion) = extract_tool_calls ctx.std ctx.loads raw in
            elim (Bool-cases (all_tool_calls_are_gateway_native ctx.std ctx.loads calls)) [
              | inr g ↦
                  let ended = round_replied ctx n i run raw f r g in
                  subst (λ r. Once ctx r.1) (sym ended)
                    (finalize-Once completion calls
                      (latest_user_text ctx.std ctx.loads ctx.prepared_messages) once
                      (ap (λ r. pendings r.1) (sym ended) ∙ e) kept)
              | inl g ↦
                  let ended = round_native ctx n i run raw f r g in
                  subst (λ r. Once ctx r.1) (sym ended)
                    (rounds-Once n (suc i) (run_native_round ctx i completion calls once)
                      (ap (λ r. pendings r.1) (sym ended) ∙ e)
                      (run_native_round-Once ctx i completion calls once kept))
            ]
      ]

  -- Unless the loop leaves a turn that waits for the client's results, it executes no call twice
  -- with the same name and arguments, except those that open or send an album's photo.
  pub executed_once :
      (world : W)
      → pendings (run_internal_tool_loop ctx world).1 ≡ []
      → Distinct (executions ctx (run_internal_tool_loop ctx world).1)
  unfolding run_internal_tool_loop
  executed_once world e = Once-Distinct ctx (run_internal_tool_loop ctx world).1 (
      rounds-Once (max 1 ctx.max_internal_tool_rounds) 0 (initial_run ctx world) e
        (start-Once ctx world))
