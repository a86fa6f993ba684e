-- ===== src/ToolLoop/Effects.antt =====
-- What a tool call in tool_loop.py leaves among the effects, and among the messages.
use shenyugateway.Common.{
  none, some, ℕ, Bool, true, false, not, ◌||◌, Option, List, [], ◌∷◌, ◌++◌, ◌≡◌, refl, ap, sym, ◌∙◌,
  inl, inr, append-nil, append_assoc, Bool-cases, Option-cases,
}
use shenyugateway.Text.{Text, is_empty}
use shenyugateway.Json.{Json, Fields, Message}
use shenyugateway.ToolLoop.Calls.{tool_call_name, tool_call_arguments, tool_call_cache_key}
use shenyugateway.ToolLoop.Errors.{ToolResult, ToolError, is_failed}
use shenyugateway.ToolLoop.Album.{after_share, share, share_in, finish_album_action}
use shenyugateway.ToolLoop.State.{
  Shared, shared, refused, not_saved, Context, Run, Effect, request, execute, log_tool_error,
  log_tool_result, emit, event_target, record_tool_event, with_order, order_key, value_at,
  next_process_order,
}
use shenyugateway.ToolLoop.Execute.{
  called_result, call_tool, note_error, note_result, store_result, found_in_cache, is_cacheable,
  cached_result, call_id, execute_internal_tool_call,
}

-- What the effects say, each of them some or none of it.
unfoldable pub gather {ℓ} : {A : Type ℓ} → (Effect → List A) → List Effect → List A
gather says [] = []
gather says (effect ∷ effects) = says effect ++ gather says effects

pub gather-append {ℓ} :
    {A : Type ℓ} (says : Effect → List A) (es fs : List Effect)
    → gather says (es ++ fs) ≡ gather says es ++ gather says fs
unfolding gather
gather-append says [] fs = refl
gather-append says (e ∷ es) fs =
    ap (λ l. says e ++ l) (gather-append says es fs)
    ∙ sym (append_assoc (says e) (gather says es) (gather says fs))

-- The messages of each request, and the ids of the calls that have a receipt.
unfoldable pub requested : Effect → List (List Message)
requested (request messages) = messages ∷ []
requested _ = []

unfoldable pub receipt : Effect → List Text
receipt (log_tool_result name args result id) = id ∷ []
receipt _ = []

module _ {ℓ} {A : Type ℓ} (says : Effect → List A) where
  pub gather-snoc :
      (effects : List Effect) (effect : Effect)
      → gather says (effects ++ effect ∷ []) ≡ gather says effects ++ says effect
  unfolding gather
  gather-snoc effects effect =
      gather-append says effects (effect ∷ [])
      ∙ ap (λ l. gather says effects ++ l) (append-nil (says effect))

  pub gather-silent :
      (effects : List Effect) (effect : Effect)
      → says effect ≡ []
      → gather says (effects ++ effect ∷ []) ≡ gather says effects
  gather-silent effects effect e =
      gather-snoc effects effect
      ∙ ap (λ l. gather says effects ++ l) e
      ∙ append-nil (gather says effects)

-- What the client's process events leave alone.
abbrev pub Aside : {W : Type 0} → Run W → Run W → Type 0
Aside run after =
    (after.effects ≡ run.effects)
    × (after.working_messages ≡ run.working_messages)
    × (after.tool_result_cache ≡ run.tool_result_cache)

module _ {W : Type 0} (ctx : Context W) where
  after_share-Aside :
      (result : ToolResult) (outcome : Shared) (run : Run W)
      → Aside run (after_share ctx result outcome run).1
  unfolding after_share
  after_share-Aside result (shared media) run = (refl, refl, refl)
  after_share-Aside result (refused text) run = (refl, refl, refl)
  after_share-Aside result not_saved run = (refl, refl, refl)

  share_in-Aside :
      (event : Option Text) (result : ToolResult) (id : Text) (run : Run W)
      → Aside run (share_in ctx event result id run).1
  unfolding share_in share
  share_in-Aside none result id run = (refl, refl, refl)
  share_in-Aside (some event) result id run =
      let (outcome, world) = ctx.record_album_share event id result.send_photo_id run.world in
      elim (Bool-cases (not ctx.emit_album_photos || is_empty id)) [
        | inl e ↦ rw (e, share_in) (refl, refl, refl)
        | inr e ↦ rw (e, share_in) (after_share-Aside result outcome (record run { world = world }))
      ]

  pub finish-Aside :
      (result : ToolResult) (id : Text) (run : Run W)
      → Aside run (finish_album_action ctx result id run).1
  unfolding finish_album_action
  finish-Aside result id run = elim (Bool-cases (is_empty result.send_photo_id)) [
    | inl e ↦ rw (e, finish_album_action) (refl, refl, refl)
    | inr e ↦ rw (e, finish_album_action) (share_in-Aside ctx.reply_event_id result id run)
  ]

  with_order-Aside :
      (starts : Bool) (key : Text) (run : Run W) → Aside run (with_order ctx starts key run)
  unfolding with_order next_process_order
  with_order-Aside starts key run = elim (Option-cases (value_at key run.tool_process_orders)) [
    | inl e ↦ rw (e, with_order) (refl, refl, refl)
    | inr (order, e) ↦ elim (Bool-cases starts) [
      | inl f ↦ rw (e, f, with_order) (refl, refl, refl)
      | inr f ↦ rw (e, f, with_order) (refl, refl, refl)
    ]
  ]

  pub event-Aside :
      (starts : Bool) (call : Fields) (name : Text) (i : ℕ) (cached : Option Bool)
      (result : Option ToolResult) (run : Run W)
      → Aside run (record_tool_event ctx starts call name i cached result run)
  unfolding record_tool_event
  event-Aside starts call name i cached result run =
      let ordered = with_order-Aside starts (order_key ctx call name i) run in
      elim (Bool-cases ctx.emit_tool_events) [
        | inl e ↦ rw (e, record_tool_event) ordered
        | inr e ↦ rw (e, record_tool_event) (refl, refl, refl)
      ]

-- A call of a tool, once it is made.
unfoldable pub made_call : {W : Type 0} → Context W → Text → Fields → Run W → Run W
unfolding emit
made_call ctx name args run =
    emit (execute name args)
      (record run { world = (ctx.execute_gateway_tool name args run.world).1 })

pub call_tool-Aside :
    {W : Type 0} (ctx : Context W) (call : Fields) (name : Text) (args : Fields) (run : Run W)
    → Aside (made_call ctx name args run) (call_tool ctx call name args run).1
unfolding call_tool made_call
call_tool-Aside ctx call name args run =
    finish-Aside ctx (called_result ctx (ctx.execute_gateway_tool name args run.world).0)
      (call_id ctx call) (made_call ctx name args run)

-- Of effects that say nothing about executions and errors.
module _ {ℓ} {A : Type ℓ} (says : Effect → List A)
    (no_executions : (name : Text) (args : Fields) → says (execute name args) ≡ [])
    (no_errors : (error : ToolError) → says (log_tool_error error) ≡ []) (of_id : Text → List A)
    (of_receipt : (name : Text) (args : Fields) (v : Json) (id : Text)
      → says (log_tool_result name args v id) ≡ of_id id)
    {W : Type 0} (ctx : Context W) where
  pub call_tool-silent :
      (call : Fields) (name : Text) (args : Fields) (run : Run W)
      → gather says (call_tool ctx call name args run).1.effects ≡ gather says run.effects
  unfolding emit made_call
  call_tool-silent call name args run =
      ap (gather says) (call_tool-Aside ctx call name args run).0
      ∙ gather-silent says run.effects (execute name args) (no_executions name args)

  pub note_error-silent :
      (name : Text) (args : Fields) (result : ToolResult) (run : Run W)
      → gather says (note_error ctx name args result run).effects ≡ gather says run.effects
  unfolding note_error emit
  note_error-silent name args result run = elim (Bool-cases (is_failed result.value)) [
    | inl e ↦ rw (e, note_error) (gather-silent says run.effects _ (no_errors _))
    | inr e ↦ rw (e, note_error) refl
  ]

  store_result-silent :
      (cacheable : Bool) (key : Text) (result : ToolResult) (run : Run W)
      → gather says (store_result ctx cacheable key result run).effects ≡ gather says run.effects
  unfolding store_result
  store_result-silent true key result run = refl
  store_result-silent false key result run = refl

  pub note_result-said :
      (call : Fields) (name : Text) (args : Fields) (result : ToolResult) (run : Run W)
      → gather says (note_result ctx call name args result run).effects
        ≡ gather says run.effects ++ of_id (call_id ctx call)
  unfolding note_result emit
  note_result-said call name args result run =
      gather-snoc says run.effects _
      ∙ ap (λ l. gather says run.effects ++ l) (of_receipt _ args result.value (call_id ctx call))

  -- A call leaves its receipt, whether it came from the cache or not.
  pub execute-said :
      (call : Fields) (run : Run W)
      → gather says (execute_internal_tool_call ctx call run).run.effects
        ≡ gather says run.effects ++ of_id (call_id ctx call)
  unfolding execute_internal_tool_call
  execute-said call run =
      let args = tool_call_arguments ctx.std ctx.loads call in
      let name = tool_call_name ctx.std ctx.loads call in
      let key = tool_call_cache_key ctx.std ctx.loads name args in
      let cacheable = is_cacheable (event_target ctx name args) in
      let made = call_tool ctx call name args run in
      let stored = store_result ctx cacheable key made.0 made.1 in
      let noted = note_error ctx name args made.0 stored in
      let id = of_id (call_id ctx call) in
      elim (Option-cases (found_in_cache ctx cacheable key run)) [
        | inr (previous, e) ↦
            rw (e, execute_internal_tool_call)
              (note_result-said call name args (cached_result previous) run)
        | inl e ↦
            rw (e, execute_internal_tool_call)
              (note_result-said call name args made.0 noted
                ∙ ap (λ l. l ++ id)
                    (note_error-silent name args made.0 stored
                      ∙ store_result-silent cacheable key made.0 made.1
                      ∙ call_tool-silent call name args run))
      ]
