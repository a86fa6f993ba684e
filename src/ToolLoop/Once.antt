-- ===== src/ToolLoop/Once.antt =====
-- The cache of tool results in tool_loop.py: the same call is executed once.
use shenyugateway.Common.{
  ℕ, Bool, true, false, Option, none, some, List, [], ◌∷◌, ◌++◌, ◌≡◌, refl, ap, sym, subst, ◌∙◌,
  inl, inr, append-nil, Bool-cases, Option-cases, if◌then◌else◌,
}
use shenyugateway.Text.{Text}
use shenyugateway.Json.{Fields}
use shenyugateway.ToolLoop.Calls.{tool_call_name, tool_call_arguments, tool_call_cache_key}
use shenyugateway.ToolLoop.Errors.{ToolResult, is_failed}
use shenyugateway.ToolLoop.State.{
  Context, Run, Effect, execute, event_target, emit, value_at, record_tool_event,
}
use shenyugateway.ToolLoop.Execute.{
  call_tool, note_error, note_result, store_result, found_in_cache, is_cacheable, cached_result,
  execute_internal_tool_call,
}
use shenyugateway.ToolLoop.Effects.{
  call_tool-Aside, made_call, gather, gather-silent, gather-snoc, event-Aside,
}
use shenyugateway.ToolLoop.Rounds.{initial_run, run_call, run_calls}
use shenyugateway.ToolLoop.Keys.{Distinct, keys_of, assign-keys, Distinct-snoc}

-- The key of an execution whose result is kept.
unfoldable pub execution : {W : Type 0} → Context W → Effect → List Text
execution ctx (execute name args) =
    if is_cacheable (event_target ctx name args)
    then tool_call_cache_key ctx.std ctx.loads name args ∷ []
    else []
execution ctx _ = []

module _ {W : Type 0} (ctx : Context W) where
  abbrev pub executions : Run W → List Text
  executions run = gather (execution ctx) run.effects

  -- The executions whose results are kept are those in the cache, and no two are the same call.
  pub Once : Run W → Type 0
  Once run =
      (executions run ≡ keys_of run.tool_result_cache) × Distinct (keys_of run.tool_result_cache)

  -- No execution, and the same cache.
  abbrev pub Same : Run W → Run W → Type 0
  Same run after =
      (executions after ≡ executions run) × (after.tool_result_cache ≡ run.tool_result_cache)

  pub Once-Same : (run after : Run W) → Once run → Same run after → Once after
  unfolding Once
  Once-Same run after (list, distinct) (executed, cache) = (
    executed ∙ list ∙ ap keys_of (sym cache),
    subst (λ d. Distinct (keys_of d)) (sym cache) distinct,
  )

  note_error-Same :
      (name : Text) (args : Fields) (result : ToolResult) (run : Run W)
      → Same run (note_error ctx name args result run)
  unfolding note_error emit execution
  note_error-Same name args result run = elim (Bool-cases (is_failed result.value)) [
    | inl e ↦ rw (e, note_error) (gather-silent (execution ctx) run.effects _ refl, refl)
    | inr e ↦ rw (e, note_error) (refl, refl)
  ]

  note_result-Same :
      (call : Fields) (name : Text) (args : Fields) (result : ToolResult) (run : Run W)
      → Same run (note_result ctx call name args result run)
  unfolding note_result emit execution
  note_result-Same call name args result run =
      (gather-silent (execution ctx) run.effects _ refl, refl)

  -- The call of a tool, before its result is stored.
  call_tool-executions :
      (call : Fields) (name : Text) (args : Fields) (run : Run W)
      → executions (call_tool ctx call name args run).1
        ≡ executions run ++ execution ctx (execute name args)
  unfolding made_call emit
  call_tool-executions call name args run =
      ap (gather (execution ctx)) (call_tool-Aside ctx call name args run).0
      ∙ gather-snoc (execution ctx) run.effects (execute name args)

  stored-Once :
      (cacheable : Bool) (key : Text) (result : ToolResult) (run made : Run W)
      → executions made ≡ executions run ++ (if cacheable then key ∷ [] else [])
      → made.tool_result_cache ≡ run.tool_result_cache
      → found_in_cache ctx cacheable key run ≡ none
      → Once run
      → Once (store_result ctx cacheable key result made)
  unfolding Once store_result found_in_cache
  stored-Once true key result run made said same e (list, distinct) =
      let fresh : value_at key made.tool_result_cache ≡ none = ap (value_at key) same ∙ e in
      let keys = assign-keys key result made.tool_result_cache fresh in
      let before : keys_of made.tool_result_cache ≡ keys_of run.tool_result_cache =
        ap keys_of same in
      (
        said ∙ ap (λ l. l ++ key ∷ []) (list ∙ sym before) ∙ sym keys,
        subst Distinct (sym keys)
            (Distinct-snoc key made.tool_result_cache fresh (subst Distinct (sym before) distinct)),
      )
  stored-Once false key result run made said same e (list, distinct) = (
    said ∙ append-nil (executions run) ∙ list ∙ ap keys_of (sym same),
    subst (λ d. Distinct (keys_of d)) (sym same) distinct,
  )

  execute-Once :
      (call : Fields) (run : Run W) → Once run → Once (execute_internal_tool_call ctx call run).run
  unfolding execute_internal_tool_call made_call emit execution
  execute-Once call run h =
      let args = tool_call_arguments ctx.std ctx.loads call in
      let name = tool_call_name ctx.std ctx.loads call in
      let key = tool_call_cache_key ctx.std ctx.loads name args in
      let cacheable = is_cacheable (event_target ctx name args) in
      let made = call_tool ctx call name args run in
      let stored = store_result ctx cacheable key made.0 made.1 in
      let noted = note_error ctx name args made.0 stored in
      elim (Option-cases (found_in_cache ctx cacheable key run)) [
        | inr (previous, e) ↦
            rw (e, execute_internal_tool_call)
              (Once-Same run (note_result ctx call name args (cached_result previous) run) h
                (note_result-Same call name args (cached_result previous) run))
        | inl e ↦
            let kept =
              stored-Once cacheable key made.0 run made.1 (call_tool-executions call name args run)
                (call_tool-Aside ctx call name args run).2 e h in
            let told = Once-Same stored noted kept (note_error-Same name args made.0 stored) in
            rw (e, execute_internal_tool_call)
              (Once-Same noted (note_result ctx call name args made.0 noted) told
                (note_result-Same call name args made.0 noted))
      ]

  event-Once :
      (starts : Bool) (call : Fields) (name : Text) (i : ℕ) (cached : Option Bool)
      (result : Option ToolResult) (run : Run W)
      → Once run
      → Once (record_tool_event ctx starts call name i cached result run)
  event-Once starts call name i cached result run h =
      let (effects, messages, cache) = event-Aside ctx starts call name i cached result run in
      Once-Same run (record_tool_event ctx starts call name i cached result run) h
        (ap (gather (execution ctx)) effects, cache)

  run_call-Once : (i : ℕ) (call : Fields) (run : Run W) → Once run → Once (run_call ctx i call run)
  unfolding run_call
  run_call-Once i call run h =
      let name = tool_call_name ctx.std ctx.loads call in
      let begun = record_tool_event ctx true call name i none none run in
      let done = execute_internal_tool_call ctx call begun in
      let told =
        record_tool_event ctx false call name i (some done.cached) (some done.result) done.run in
      let kept =
        event-Once false call name i (some done.cached) (some done.result) done.run
          (execute-Once call begun (event-Once true call name i none none run h)) in
      Once-Same told (run_call ctx i call run) kept (refl, refl)

  pub run_calls-Once :
      (i : ℕ) (calls : List Fields) (run : Run W) → Once run → Once (run_calls ctx i calls run)
  unfolding run_calls
  run_calls-Once i [] run h = h
  run_calls-Once i (call ∷ calls) run h =
      run_calls-Once i calls (run_call ctx i call run) (run_call-Once i call run h)

  pub start-Once : (world : W) → Once (initial_run ctx world)
  unfolding Once gather
  start-Once world = (refl, tt)

  pub Once-Distinct : (run : Run W) → Once run → Distinct (executions run)
  unfolding Once
  Once-Distinct run (list, distinct) = subst Distinct (sym list) distinct
