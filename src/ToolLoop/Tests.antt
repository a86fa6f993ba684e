-- ===== src/ToolLoop/Tests.antt =====
-- Runs of the tool loop with an upstream that calls a gateway tool twice, and then replies.
use shenyugateway.Common.{
  ℕ, zero, suc, max, true, false, not, none, String, List, [], ◌∷◌, ◌++◌, ◌≡◌, refl, map, keep_if,
  length,
}
use shenyugateway.Text.{Text, codes, mem_text, is_space}
use shenyugateway.Json.{
  Json, boolean, str, arr, obj, nil, cons, Fields, field, end, get, put, Stdlib, dict_or_empty,
}
use shenyugateway.Echo.{feed, finish}
use shenyugateway.Layers.Assemble.{LayerTexts}
use shenyugateway.Upstream.Cache.{CacheLimits}
use shenyugateway.Upstream.State.{Conversion}
use shenyugateway.ToolLoop.Calls.{is_readable, is_native_call}
use shenyugateway.ToolLoop.Errors.{
  ToolResult, plain, error_kinds, is_failed, decorate_tool_error_result,
}
use shenyugateway.ToolLoop.State.{Context, not_saved, Answer, completed, returned}
use shenyugateway.ToolLoop.Execute.{call_id}
use shenyugateway.ToolLoop.Mixed.{ensure_ids, ensure_tool_call_id, execute_mixed_gateway_tool_calls}
use shenyugateway.ToolLoop.Rounds.{
  unreadable, initial_run, run_native_round, run_internal_tool_loop,
}
use shenyugateway.ToolLoop.Keys.{Distinct}
use shenyugateway.ToolLoop.Effects.{gather}
use shenyugateway.ToolLoop.Once.{executions, execution}
use shenyugateway.ToolLoop.OnceOnly.{pending, pendings, executed_once}
use shenyugateway.ToolLoop.Conversation.{Answered, Each}
use shenyugateway.ToolLoop.Asked.{
  Within, requests_of, run_internal_tool_loop-Answered, run_internal_tool_loop-Within,
}
use shenyugateway.ToolLoop.Receipts.{receipts, receipts-run_native_round}
use shenyugateway.ToolLoop.Decorated.{decorate-Known}
use shenyugateway.ToolLoop.Shaped.{Shaped}
use shenyugateway.ToolLoop.Forwarded.{Forwards, mixed-Forwards}

abbrev std : Stdlib
std = record {
  repr = λ v. [];
  dumps = λ v. codes "{}";
  sha256_hex = λ t. t;
  lower = λ t. t;
  regex_sub = λ pattern new t. t;
}

abbrev call : String → String → Fields
call id name =
    field "id" (str (codes id)) (field "function" (obj (field "name" (str (codes name)) end)) end)

abbrev completion : Fields → Fields
completion message = field "choices" (arr (cons (obj (field "message" (obj message) end)) nil)) end

abbrev calling : Fields
calling = completion (
    field "content" (str []) (
      field "tool_calls"
        (arr (cons (obj (call "a" "room_look")) (cons (obj (call "b" "room_look")) nil))) end))

abbrev answer : ℕ → Answer
answer zero = completed calling
answer (suc n) = completed (completion (field "content" (str (codes "done")) end))

abbrev ctx : Context ℕ
ctx = record {
  std = std;
  loads = λ t. none;
  dumps = λ v. codes "{}";
  prepared_messages =
      field "role" (str (codes "user")) (field "content" (str (codes "hi")) end) ∷ [];
  max_internal_tool_rounds = 3;
  gateway_tool_names = [];
  emit_tool_events = true;
  new_call_id = λ i. codes "new";
  call_upstream = λ messages n. (answer n, suc n);
  execute_gateway_tool = λ name args n. (returned (plain (obj (field "ok" (boolean true) end))), n);
  record_album_share = λ event id photo n. (not_saved, n);
  emit_album_photos = false;
  reply_event_id = none;
  finalize_assistant_private_content = λ message latest n. (
    record {
      message = message;
      clean_content = codes "done";
      heartbeat_content = [];
      echo_content = [];
    },
    n,
  );
}

run_internal_tool_loop-Answered_example :
    Each (Answered ctx.prepared_messages) (requests_of ctx (run_internal_tool_loop ctx 0).1)
run_internal_tool_loop-Answered_example = run_internal_tool_loop-Answered ctx 0

run_internal_tool_loop-Within_example :
    Within
      (max 1 3)
      (run_internal_tool_loop ctx 0).0
      (length (requests_of ctx (run_internal_tool_loop ctx 0).1))
run_internal_tool_loop-Within_example = run_internal_tool_loop-Within ctx 0

-- A completion with an empty list of choices: the loop raises after one request.
abbrev without_choices : Context ℕ
without_choices = record ctx {
  call_upstream = λ messages n. (completed (field "choices" (arr nil) end), suc n);
}

unreadable_run : (run_internal_tool_loop without_choices 0).0 ≡ unreadable
unfolding run_internal_tool_loop get is_readable
unreadable_run = refl

receipts-run_native_round_example :
    receipts ctx (
      run_native_round ctx 0 calling
        (call "a" "room_look" ∷ call "b" "room_look" ∷ [])
        (initial_run ctx 0))
    ≡ receipts ctx (initial_run ctx 0)
      ++ map (call_id ctx) (call "a" "room_look" ∷ call "b" "room_look" ∷ [])
receipts-run_native_round_example =
    receipts-run_native_round ctx 0 calling (call "a" "room_look" ∷ call "b" "room_look" ∷ [])
      (initial_run ctx 0)

abbrev failure : ToolResult
failure = plain (obj (field "ok" (boolean false) (field "error" (str (codes "not found")) end)))

failed : is_failed failure.value ≡ true
unfolding is_failed get
failed = refl

decorate-Known_example :
    (is_failed (decorate_tool_error_result std failure).value ≡ true)
    × ((kind : Text) × (get "error_kind"
            (dict_or_empty (decorate_tool_error_result std failure).value)
          ≡ str kind)
        × (mem_text kind error_kinds ≡ true))
    × (decorate_tool_error_result std (decorate_tool_error_result std failure)
        ≡ decorate_tool_error_result std failure)
decorate-Known_example = decorate-Known std failure failed

no_pending : pendings ctx (run_internal_tool_loop ctx 0).1 ≡ []
unfolding run_internal_tool_loop gather pending get is_space feed finish
no_pending = refl

executed_once_example : Distinct (executions ctx (run_internal_tool_loop ctx 0).1)
executed_once_example = executed_once ctx 0 no_pending

-- Of two equal calls one is executed, and the other one is answered from the cache.
executed_once_run : executions ctx (run_internal_tool_loop ctx 0).1 ≡ codes "room_look:{}" ∷ []
unfolding run_internal_tool_loop gather execution get is_space feed finish
executed_once_run = refl

abbrev mixed_message : Fields
mixed_message = field "content" (str []) (
    field "tool_calls" (arr (cons (obj (call "a" "room_look")) (cons (obj (call "b" "draw")) nil)))
      end)

abbrev mixed_calls : List Fields
mixed_calls = call "a" "room_look" ∷ call "b" "draw" ∷ []

abbrev ours : Fields
ours = ensure_tool_call_id ctx (call "a" "room_look") 0

abbrev theirs : Fields
theirs = ensure_tool_call_id ctx (call "b" "draw") 1

native_part : keep_if (is_native_call std ctx.loads) (ensure_ids ctx 0 mixed_calls) ≡ ours ∷ []
unfolding keep_if is_native_call ensure_ids get put
native_part = refl

client_part :
    keep_if (λ c. not (is_native_call std ctx.loads c)) (ensure_ids ctx 0 mixed_calls) ≡ theirs ∷ []
unfolding keep_if is_native_call ensure_ids get put
client_part = refl

shape : Shaped (completion mixed_message) mixed_message
unfolding get
shape = (field "message" (obj mixed_message) end, nil, refl, refl)

mixed-Forwards_example :
    Forwards ctx
      (execute_mixed_gateway_tool_calls ctx
        (completion mixed_message)
        mixed_calls
        (initial_run ctx 0))
      (ours ∷ [])
      (theirs ∷ [])
mixed-Forwards_example =
    mixed-Forwards ctx (completion mixed_message) mixed_message mixed_calls (initial_run ctx 0) ours
      theirs [] [] shape (λ i. refl) native_part client_part

abbrev layers : LayerTexts
layers = record {
  stable = codes "s";
  slow = [];
  heartbeat = [];
  tool_policy = [];
  format = [];
  mem = [];
  island_bumps = [];
  volatile = [];
}

abbrev limits : CacheLimits
limits = record { max_breakpoints = 2; cache_ttl = codes "1h" }

abbrev empty : Conversion
empty = record {
  system = [];
  turns = [];
  paths = [];
  user_turns = [];
  island = none;
  volatile = [];
}
