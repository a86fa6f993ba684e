-- ===== src/ToolLoop/State.antt =====
-- What tool_loop.py keeps over the rounds of one request, and what it writes on the way: the
-- client's process events, the echo segments, and the calls of the store and the sessions.
use shenyugateway.Common.{
  ℕ, suc, Bool, false, Option, none, some, List, [], ◌∷◌, ◌++◌, if◌then◌else◌,
}
use shenyugateway.Text.{Text, codes, text_eq, strip, join, is_empty}
use shenyugateway.Json.{
  Json, null, boolean, number, Fields, Message, get, truthy, dict_or_empty, Stdlib, to_str,
  str_or_empty,
}
use shenyugateway.Registry.Arguments.{broker_target_name}
use shenyugateway.ToolLoop.Calls.{tool_call_arguments}
use shenyugateway.ToolLoop.Errors.{ToolResult, ToolError}

-- What comes of a round's messages: `build_upstream_request` raises before anything is sent, the
-- upstream raises, or a completion in OpenAI's form comes back.
pub data Answer : Type 0 where
  unbuilt : Text → Answer
  upstream_error : Text → Answer
  completed : Fields → Answer

-- What `execute_gateway_tool` makes of a call: a result, or an exception with this text.
pub data Called : Type 0 where
  returned : ToolResult → Called
  raised : Text → Called

-- What `record_album_share` makes of a photo: its media, a `ValueError` with this text, or another
-- exception.
pub data Shared : Type 0 where
  shared : Fields → Shared
  refused : Text → Shared
  not_saved : Shared

-- What `finalize_assistant_private_content` makes of the last message.
pub record Private : Type 0 where
  pub message : Fields
  pub clean_content : Text
  pub heartbeat_content : Text
  pub echo_content : Text

-- `InternalToolLoopContext`: the request's messages, its settings, and the callables. `W` is what
-- the callables work on. `call_upstream` is the way from a round's messages to the completion:
-- `hydrate_album_views`, which puts the photos into a copy of them, `build_upstream_request`, and
-- `call_upstream_json`.
pub record Context (W : Type 0) : Type 0 where
  pub std : Stdlib
  pub loads : Text → Option Json
  pub dumps : Json → Text
  pub prepared_messages : List Message
  pub max_internal_tool_rounds : ℕ
  pub gateway_tool_names : List Text
  pub emit_tool_events : Bool
  pub new_call_id : ℕ → Text
  pub call_upstream : List Message → W → Answer × W
  pub execute_gateway_tool : Text → Fields → W → Called × W
  pub record_album_share : Text → Text → Text → W → Shared × W
  pub emit_album_photos : Bool
  pub reply_event_id : Option Text
  pub finalize_assistant_private_content : Fields → Text → W → Private × W

-- A process event, without what only the details add to it and without its time. A photo goes with
-- the id of the reply's version, which is the context's.
pub record ToolEvent : Type 0 where
  pub phase : Text
  pub tool_call_id : Text
  pub name : Text
  pub target_tool : Text
  pub round : ℕ
  pub stream_order : ℕ
  pub cached : Option Bool
  pub ok : Json
  pub error_kind : Text
  pub photo : Option Fields

pub record EchoSegment : Type 0 where
  pub content : Text
  pub stream_order : ℕ

-- What goes out, in order: a request upstream, by the messages that it is built from, a call of a
-- tool, and what the sessions and the
-- store are told.
pub data Effect : Type 0 where
  request : List Message → Effect
  execute : Text → Fields → Effect
  log_tool_error : ToolError → Effect
  log_tool_result : Text → Fields → Json → Text → Effect
  create_pending_turn : List Text → Message → List Message → Effect
  store_heartbeat : Text → Effect
  log_assistant_output : Fields → Text → Effect
  write_snapshot : Text → Text → Effect

pub record Run (W : Type 0) : Type 0 where
  pub world : W
  pub working_messages : List Message
  pub tool_result_cache : List (Text × ToolResult)
  pub process_order : ℕ
  pub tool_process_orders : List (Text × ℕ)
  pub tool_events : List ToolEvent
  pub echo_segments : List EchoSegment
  pub streamed_reply_parts : List Text
  pub album_shared_media : List Fields
  pub effects : List Effect

-- `key in d` and `d[key]` of a dict with texts as keys.
unfoldable pub value_at {ℓ} : {A : Type ℓ} → Text → List (Text × A) → Option A
value_at key [] = none
value_at key ((k, v) ∷ d) = if text_eq k key then some v else value_at key d

-- `d[key] = value`
unfoldable pub assign {ℓ} : {A : Type ℓ} → Text → A → List (Text × A) → List (Text × A)
assign key value [] = (key, value) ∷ []
assign key value ((k, v) ∷ d) =
    let rest = assign key value d in if text_eq k key then (k, value) ∷ d else (k, v) ∷ rest

unfoldable pub segment_texts : List EchoSegment → List Text
segment_texts [] = []
segment_texts (segment ∷ segments) = segment.content ∷ segment_texts segments

module _ {W : Type 0} where
  unfoldable pub emit : Effect → Run W → Run W
  emit effect run = record run { effects = run.effects ++ effect ∷ [] }

  unfoldable pub next_process_order : Run W → Run W
  next_process_order run = record run { process_order = suc run.process_order }

  unfoldable pub record_echo_segment : Text → Run W → Run W
  unfolding next_process_order strip
  record_echo_segment echo run =
      if is_empty (strip echo) then run else record (next_process_order run) {
        echo_segments =
            run.echo_segments ++ (record { content = echo; stream_order = run.process_order }) ∷ [];
      }

  unfoldable pub combined_echo_text : Run W → Text
  unfolding segment_texts join
  combined_echo_text run = join (segment_texts run.echo_segments)

module _ {W : Type 0} (ctx : Context W) where
  unfoldable pub order_key : Fields → Text → ℕ → Text
  order_key call name round_index =
      if truthy (get "id" call)
      then to_str ctx.std (get "id" call)
      else name ++ (codes ":" ++ ctx.std.repr (number false round_index 0))

  -- The number of a call in the client's process, drawn once unless the call starts again.
  unfoldable pub with_order : Bool → Text → Run W → Run W
  unfolding next_process_order value_at assign
  with_order starts key run =
      let drawn = record (next_process_order run) {
        tool_process_orders = assign key run.process_order run.tool_process_orders;
      } in
      elim (value_at key run.tool_process_orders) [
        | none ↦ drawn
        | some order ↦ if starts then drawn else run
      ]

  unfoldable pub order_of : Text → Run W → ℕ
  unfolding value_at
  order_of key run = elim (value_at key run.tool_process_orders) [ none ↦ 0 | some order ↦ order ]

  unfoldable pub event_target : Text → Fields → Text
  event_target name args =
      if text_eq name (codes "shenyu_gateway_tool")
      then broker_target_name ctx.std ctx.loads ctx.gateway_tool_names args
      else name

  unfoldable pub event_ok : Option ToolResult → Json
  event_ok none = null
  event_ok (some result) = elim (get "ok" (dict_or_empty result.value)) [
    | boolean b ↦ boolean b
    | _ ↦ null
  ]

  unfoldable pub event_error_kind : Option ToolResult → Text
  unfolding str_or_empty
  event_error_kind none = []
  event_error_kind (some result) =
      str_or_empty ctx.std (get "error_kind" (dict_or_empty result.value))

  unfoldable pub event_photo : Option ToolResult → Option Fields
  event_photo none = none
  event_photo (some result) = result.shared_media

  -- `_record_tool_event`, of the start of a call, or of its end with whether the result came from
  -- the cache and the result.
  unfoldable pub record_tool_event :
      Bool → Fields → Text → ℕ → Option Bool → Option ToolResult → Run W → Run W
  unfolding with_order order_of order_key event_target event_ok event_error_kind event_photo
      str_or_empty tool_call_arguments
  record_tool_event starts call name round_index cached result run =
      let key = order_key call name round_index in
      let numbered = with_order starts key run in
      let event : ToolEvent = record {
        phase = if starts then codes "tool_start" else codes "tool_end";
        tool_call_id = str_or_empty ctx.std (get "id" call);
        name = name;
        target_tool = event_target name (tool_call_arguments ctx.std ctx.loads call);
        round = suc round_index;
        stream_order = order_of key numbered;
        cached = cached;
        ok = event_ok result;
        error_kind = event_error_kind result;
        photo = event_photo result;
      } in
      if ctx.emit_tool_events
      then record numbered { tool_events = run.tool_events ++ event ∷ [] }
      else run
