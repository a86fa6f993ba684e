-- ===== src/ToolLoop/Asked.antt =====
-- The requests of `run_internal_tool_loop` of tool_loop.py: how many there are, and what they hold.
use shenyugateway.Common.{
  ℕ, zero, suc, ◌≤◌, ◌<◌, max, true, false, List, [], ◌∷◌, ◌++◌, ◌≡◌, refl, ap, sym, subst, ◌∙◌,
  ◌⊎◌, arith, inl, inr, append-nil, append_assoc, length, Bool-cases,
}
use shenyugateway.Text.{Text}
use shenyugateway.Json.{Fields, Message}
use shenyugateway.ToolLoop.Calls.{
  is_readable, extract_tool_calls, all_tool_calls_are_gateway_native, latest_user_text,
}
use shenyugateway.ToolLoop.State.{
  Context, Run, Answer, unbuilt, upstream_error, completed, request, emit,
}
use shenyugateway.ToolLoop.Mixed.{finalize_non_gateway_tool_reply}
use shenyugateway.ToolLoop.Rounds.{
  Ending, replied, unsent, failed, unreadable, exceeded_rounds, initial_run, run_native_round,
  run_rounds, run_internal_tool_loop,
}
use shenyugateway.ToolLoop.Effects.{gather, gather-snoc, requested}
use shenyugateway.ToolLoop.Silent.{run_native_round-NoRequest, salvage-NoRequest}
use shenyugateway.ToolLoop.Final.{finalize-NoRequest}
use shenyugateway.ToolLoop.Conversation.{Answered, nothing_called, Each, native_round-Answered}

-- How many requests a loop with this many rounds made, by how it ended. The request that was not
-- built is not one of them.
abbrev pub Within : ℕ → Ending → ℕ → Type 0
Within rounds exceeded_rounds count = count ≡ rounds
Within rounds (replied completion) count = (1 ≤ count) × (count ≤ rounds)
Within rounds (failed text) count = (1 ≤ count) × (count ≤ rounds)
Within rounds unreadable count = (1 ≤ count) × (count ≤ rounds)
Within rounds (unsent text) count = count < rounds

module _ {W : Type 0} (ctx : Context W) where
  abbrev pub requests_of : Run W → List (List Message)
  requests_of run = gather requested run.effects

  -- What the rounds from a state on ask.
  abbrev pub Asks : ℕ → Run W → Ending → Run W → Type 0
  Asks rounds run ending after =
      (asked : List (List Message)) × (requests_of after ≡ requests_of run ++ asked)
      × Each (Answered ctx.prepared_messages) asked
      × Within rounds ending (length asked)

  -- A state with one more request.
  unfoldable pub asked_once : Run W → W → Run W
  asked_once run world = emit (request run.working_messages) (record run { world = world })

  asked_once-requests :
      (run : Run W) (world : W)
      → requests_of (asked_once run world) ≡ requests_of run ++ run.working_messages ∷ []
  unfolding asked_once emit requested
  asked_once-requests run world = gather-snoc requested run.effects (request run.working_messages)

  Within-suc : (n k : ℕ) (ending : Ending) → Within n ending k → Within (suc n) ending (suc k)
  Within-suc n k exceeded_rounds h = ap suc h
  Within-suc n k (replied completion) h = (omega arith, omega (arith, h.1))
  Within-suc n k (failed text) h = (omega arith, omega (arith, h.1))
  Within-suc n k unreadable h = (omega arith, omega (arith, h.1))
  Within-suc n k (unsent text) h = omega (arith, h)

  -- An answer that ends the loop: nothing was sent, the upstream raised, or its completion cannot
  -- be read.
  pub data Ends (run : Run W) (world : W) : Answer → Ending → Run W → Type 0 where
    ends_unsent : (t : Text) → Ends run world (unbuilt t) (unsent t) (record run { world = world })
    ends_failed : (t : Text) → Ends run world (upstream_error t) (failed t) (asked_once run world)
    ends_unreadable :
        (raw : Fields)
        → is_readable raw ≡ false
        → Ends run world (completed raw) unreadable (asked_once run world)

  pub Answer-cases :
      (run : Run W) (world : W) (a : Answer)
      → ((ending : Ending) × (after : Run W) × Ends run world a ending after)
        ⊎ ((raw : Fields) × (a ≡ completed raw) × (is_readable raw ≡ true))
  Answer-cases run world (unbuilt t) = inl (unsent t, record run { world = world }, ends_unsent t)
  Answer-cases run world (upstream_error t) = inl (failed t, asked_once run world, ends_failed t)
  Answer-cases run world (completed raw) = elim (Bool-cases (is_readable raw)) [
    | inl e ↦ inr (raw, refl, e)
    | inr e ↦ inl (unreadable, asked_once run world, ends_unreadable raw e)
  ]

  -- What a round comes to, for each answer of the upstream.
  round_over :
      (n i : ℕ) (run : Run W) {answer : Answer} {ending : Ending} {after : Run W}
      → Ends run (ctx.call_upstream run.working_messages run.world).1 answer ending after
      → (ctx.call_upstream run.working_messages run.world).0 ≡ answer
      → run_rounds ctx (suc n) i run ≡ (ending, after)
  unfolding run_rounds asked_once
  round_over n i run (ends_unsent t) e = rw (e, run_rounds) refl
  round_over n i run (ends_failed t) e = rw (e, run_rounds) refl
  round_over n i run (ends_unreadable raw f) e = rw (e, f, run_rounds) refl

  pub round_ended :
      (n i : ℕ) (run : Run W) {ending : Ending} {after : Run W}
      → let (answer, world) = ctx.call_upstream run.working_messages run.world in
        Ends run world answer ending after → run_rounds ctx (suc n) i run ≡ (ending, after)
  round_ended n i run e = round_over n i run e refl

  pub round_native :
      (n i : ℕ) (run : Run W) (raw : Fields)
      → let (answer, world) = ctx.call_upstream run.working_messages run.world in
        let (calls, completion) = extract_tool_calls ctx.std ctx.loads raw in
        answer ≡ completed raw
        → is_readable raw ≡ true
        → all_tool_calls_are_gateway_native ctx.std ctx.loads calls ≡ true
        → run_rounds ctx (suc n) i run
          ≡ run_rounds ctx n
              (suc i)
              (run_native_round ctx i completion calls (asked_once run world))
  unfolding run_rounds asked_once
  round_native n i run raw e r f = rw (e, r, f, run_rounds) refl

  -- The last reply, after its calls.
  unfoldable pub last_reply : Fields → Run W → Fields × Run W
  last_reply raw run =
      let (calls, completion) = extract_tool_calls ctx.std ctx.loads raw in
      finalize_non_gateway_tool_reply ctx completion calls
        (latest_user_text ctx.std ctx.loads ctx.prepared_messages) run

  pub round_replied :
      (n i : ℕ) (run : Run W) (raw : Fields)
      → let (answer, world) = ctx.call_upstream run.working_messages run.world in
        answer ≡ completed raw
        → is_readable raw ≡ true
        → all_tool_calls_are_gateway_native ctx.std ctx.loads
            (extract_tool_calls ctx.std ctx.loads raw).0
          ≡ false
        → run_rounds ctx (suc n) i run ≡ (
          replied (last_reply raw (asked_once run world)).0,
          (last_reply raw (asked_once run world)).1,
        )
  unfolding run_rounds asked_once last_reply
  round_replied n i run raw e r f = rw (e, r, f, run_rounds) refl

  Asks-by :
      (n : ℕ) (run : Run W) (ended other : Ending × Run W)
      → other ≡ ended
      → Asks n run ended.0 ended.1
      → Asks n run other.0 other.1
  Asks-by n run ended other e h = subst (λ r. Asks n run r.0 r.1) (sym e) h

  -- One request, and an end.
  asked_last :
      (n : ℕ) (run after : Run W) (world : W) (ending : Ending)
      → Answered ctx.prepared_messages run.working_messages
      → requests_of after ≡ requests_of (asked_once run world)
      → Within (suc n) ending 1
      → Asks (suc n) run ending after
  asked_last n run after world ending h e within =
      (run.working_messages ∷ [], e ∙ asked_once-requests run world, (h, tt), within)

  ended-Asks :
      (n : ℕ) (run : Run W) (world : W) {answer : Answer} {ending : Ending} {after : Run W}
      → Answered ctx.prepared_messages run.working_messages
      → Ends run world answer ending after
      → Asks (suc n) run ending after
  ended-Asks n run world h (ends_unsent t) =
      ([], sym (append-nil (requests_of run)), tt, omega arith)
  ended-Asks n run world h (ends_failed t) =
      asked_last n run (asked_once run world) world (failed t) h refl (omega arith, omega arith)
  ended-Asks n run world h (ends_unreadable raw e) =
      asked_last n run (asked_once run world) world unreadable h refl (omega arith, omega arith)

  run_rounds-Asks :
      (n i : ℕ) (run : Run W)
      → Answered ctx.prepared_messages run.working_messages
      → Asks n run (run_rounds ctx n i run).0 (run_rounds ctx n i run).1
  unfolding run_rounds last_reply asked_once emit
  run_rounds-Asks zero i run h =
      ([], salvage-NoRequest ctx run ∙ sym (append-nil (requests_of run)), tt, refl)
  run_rounds-Asks (suc n) i run h =
      let world = (ctx.call_upstream run.working_messages run.world).1 in
      let once = asked_once run world in
      elim (Answer-cases run world (ctx.call_upstream run.working_messages run.world).0) [
        | inl (ending, after, e) ↦
            Asks-by (suc n) run (ending, after) _ (round_ended n i run e)
              (ended-Asks n run world h e)
        | inr (raw, e, r) ↦
            let (calls, completion) = extract_tool_calls ctx.std ctx.loads raw in
            elim (Bool-cases (all_tool_calls_are_gateway_native ctx.std ctx.loads calls)) [
              | inr f ↦
                  let (reply, after) = last_reply raw once in
                  Asks-by (suc n) run _ _ (round_replied n i run raw e r f) (
                    asked_last n run after world (replied reply) h
                      (finalize-NoRequest ctx completion calls
                        (latest_user_text ctx.std ctx.loads ctx.prepared_messages) once)
                      (omega arith, omega arith))
              | inl f ↦
                  let next = run_native_round ctx i completion calls once in
                  let (asked, list, each, within) =
                    run_rounds-Asks n (suc i) next
                      (native_round-Answered ctx i completion calls once h) in
                  let all_asked =
                    list
                    ∙ ap (λ l. l ++ asked)
                        (run_native_round-NoRequest ctx i completion calls once
                          ∙ asked_once-requests run world)
                    ∙ append_assoc (requests_of run) (run.working_messages ∷ []) asked in
                  Asks-by (suc n) run _ _ (round_native n i run raw e r f) (
                    run.working_messages ∷ asked,
                    all_asked,
                    (h, each),
                    Within-suc n (length asked) (run_rounds ctx n (suc i) next).0 within,
                  )
            ]
      ]

  -- Whenever the loop asks the upstream, its messages are the prepared ones and then whole rounds:
  -- an assistant's message with its calls, and a tool's message for each call, which names it, in
  -- the calls' order.
  pub run_internal_tool_loop-Answered :
      (world : W)
      → Each (Answered ctx.prepared_messages) (requests_of (run_internal_tool_loop ctx world).1)
  unfolding run_internal_tool_loop gather
  run_internal_tool_loop-Answered world =
      let (asked, list, each, within) =
        run_rounds-Asks (max 1 ctx.max_internal_tool_rounds) 0 (initial_run ctx world)
          nothing_called in
      subst (Each (Answered ctx.prepared_messages)) (sym list) each

  -- The loop ends. It gives up after as many requests as it has rounds, which is one at least and
  -- the setting's number above that; it replies, or fails with the upstream or with a completion
  -- that has no first message to read, after one request or more and no more than that; and where a
  -- request cannot be built, fewer were sent.
  pub run_internal_tool_loop-Within :
      (world : W)
      → Within
          (max 1 ctx.max_internal_tool_rounds)
          (run_internal_tool_loop ctx world).0
          (length (requests_of (run_internal_tool_loop ctx world).1))
  unfolding run_internal_tool_loop gather
  run_internal_tool_loop-Within world =
      let (asked, list, each, within) =
        run_rounds-Asks (max 1 ctx.max_internal_tool_rounds) 0 (initial_run ctx world)
          nothing_called in
      subst
        (λ l.
          Within (max 1 ctx.max_internal_tool_rounds) (run_internal_tool_loop ctx world).0
            (length l))
        (sym list) within
