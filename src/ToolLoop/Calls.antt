-- ===== src/ToolLoop/Calls.antt =====
-- How tool_loop.py reads the tool calls of a completion: `_extract_tool_calls`, the readers of a
-- call, and `is_gateway_native_tool` of tool_registry.py.
use mathlib.Core.List.{reverse}
use shenyugateway.Common.{
  Bool, false, not, ◌||◌, Option, none, some, List, [], ◌∷◌, ◌++◌, if◌then◌else◌, map, all, keep_if,
}
use shenyugateway.Text.{Text, codes, text_eq, strip, starts_with, is_empty}
use shenyugateway.Json.{
  Json, null, str, arr, obj, cons, Fields, field, end, get, put, truthy, is_text, is_dict,
  dict_or_empty, list_items, items, Stdlib, str_or_empty,
}
use shenyugateway.Window.Events.{join_lines}
use shenyugateway.Registry.Arguments.{or_else, has_key, without_keys, coerce_json_object}
use shenyugateway.Upstream.Normal.{normalize_text}

unfoldable pub is_gateway_native_tool : Text → Bool
is_gateway_native_tool name =
    starts_with name (codes "shenyu_")
    || starts_with name (codes "supabase_")
    || starts_with name (codes "room_")
    || starts_with name (codes "mcp_")

-- `completion.get("choices", [{}])[0]`, of a completion that `is_readable`; the loop ends with an
-- exception at every other one.
unfoldable pub reply_choice : Fields → Fields
reply_choice completion = elim (get "choices" completion) [
  | arr (cons choice choices) ↦ dict_or_empty choice
  | _ ↦ end
]

-- Whether `completion.get("choices", [{}])[0].get("message", {})` is a dict; anything else raises.
unfoldable pub is_readable : Fields → Bool
unfolding has_key
is_readable completion = not (has_key "choices" completion) || elim (get "choices" completion) [
  | arr (cons (obj choice) choices) ↦
      not (has_key "message" choice) || is_dict (get "message" choice)
  | _ ↦ false
]

unfoldable pub first_message : Fields → Fields
unfolding reply_choice
first_message completion = dict_or_empty (get "message" (reply_choice completion))

-- What is written into the first choice, or into its message, in place.
unfoldable pub with_first_choice : (Fields → Fields) → Fields → Fields
with_first_choice change completion = elim (get "choices" completion) [
  | arr (cons choice choices) ↦
      put "choices" (arr (cons (obj (change (dict_or_empty choice))) choices)) completion
  | _ ↦ completion
]

unfoldable pub with_message : (Fields → Fields) → Fields → Fields
unfolding with_first_choice has_key
with_message change completion =
    with_first_choice
      (λ choice.
        if has_key "message" choice
        then put "message" (obj (change (dict_or_empty (get "message" choice)))) choice
        else choice)
      completion

-- `message.pop("tool_calls", None)`, and the reason for the end that went with the calls.
unfoldable pub stop_calling : Fields → Fields
unfolding with_message with_first_choice without_keys
stop_calling completion = with_message (without_keys ("tool_calls" ∷ [])) (
    with_first_choice
      (λ choice.
        if is_text (codes "tool_calls") (get "finish_reason" choice)
        then put "finish_reason" (str (codes "stop")) choice
        else choice)
      completion)

module _ (std : Stdlib) (loads : Text → Option Json) where
  unfoldable pub tool_call_name : Fields → Text
  unfolding str_or_empty
  tool_call_name call = elim (get "function" call) [
    | obj function ↦ str_or_empty std (get "name" function)
    | _ ↦ []
  ]

  unfoldable pub tool_call_arguments : Fields → Fields
  unfolding coerce_json_object
  tool_call_arguments call =
      let raw = get "arguments" (dict_or_empty (get "function" call)) in
      elim raw [
        | null ↦ end
        | raw_args ↦ elim (coerce_json_object std loads raw_args) [
          | some args ↦ args
          | none ↦ if truthy raw_args then field "raw_arguments" raw_args end else end
        ]
      ]

  -- A dict with a name that is not blank.
  unfoldable pub is_valid_call : Json → Bool
  unfolding tool_call_name strip
  is_valid_call (obj call) = not (is_empty (strip (tool_call_name call)))
  is_valid_call value = false

  -- The valid calls, and the completion as it is left: with these calls only.
  unfoldable pub valid_calls : List Json → Fields → List Fields × Fields
  unfolding is_valid_call all keep_if with_message stop_calling
  valid_calls tool_calls completion =
      let valid = keep_if is_valid_call tool_calls in
      (
        map dict_or_empty valid,
        if all is_valid_call tool_calls then completion else elim valid [
          | [] ↦ stop_calling completion
          | call ∷ calls ↦ with_message (put "tool_calls" (arr (items (call ∷ calls)))) completion
        ],
      )

  unfoldable pub extract_tool_calls : Fields → List Fields × Fields
  unfolding valid_calls stop_calling first_message
  extract_tool_calls completion = elim (get "choices" completion) [
    | arr (cons choice choices) ↦ elim (get "tool_calls" (first_message completion)) [
      | arr tool_calls ↦ valid_calls (list_items tool_calls) completion
      | _ ↦ ([], stop_calling completion)
    ]
    | _ ↦ ([], completion)
  ]

  unfoldable pub is_native_call : Fields → Bool
  unfolding is_gateway_native_tool tool_call_name
  is_native_call call = is_gateway_native_tool (tool_call_name call)

  unfoldable pub all_tool_calls_are_gateway_native : List Fields → Bool
  unfolding is_native_call all
  all_tool_calls_are_gateway_native [] = false
  all_tool_calls_are_gateway_native (call ∷ calls) = all is_native_call (call ∷ calls)

  unfoldable pub tool_call_cache_key : Text → Fields → Text
  tool_call_cache_key name args = name ++ (codes ":" ++ std.dumps (obj args))

  unfoldable pub target_tool_name : Text → Fields → Text
  unfolding or_else str_or_empty
  target_tool_name name args =
      if text_eq name (codes "shenyu_gateway_tool")
      then str_or_empty std
          (or_else (get "tool" args) (or_else (get "name" args) (get "action" args)))
      else name

  unfoldable pub logged_tool_name : Text → Fields → Text
  unfolding target_tool_name
  logged_tool_name name args =
      let target = target_tool_name name args in if is_empty target then name else target

  -- `_content_text_only`
  unfoldable pub nonblank_parts : List Json → List Text
  unfolding strip
  nonblank_parts [] = []
  nonblank_parts (str t ∷ content) =
      let rest = nonblank_parts content in if is_empty (strip t) then rest else t ∷ rest
  nonblank_parts (obj d ∷ content) =
      let rest = nonblank_parts content in
      elim (get "text" d) [ str t ↦ if is_empty (strip t) then rest else t ∷ rest | _ ↦ rest ]
  nonblank_parts (_ ∷ content) = nonblank_parts content

  unfoldable pub content_text_only : Json → Text
  unfolding nonblank_parts join_lines normalize_text
  content_text_only (arr content) = join_lines (nonblank_parts (list_items content))
  content_text_only content = normalize_text std content

  unfoldable pub first_user_text : List Fields → Text
  unfolding content_text_only
  first_user_text [] = []
  first_user_text (msg ∷ messages) =
      let rest = first_user_text messages in
      if is_text (codes "user") (get "role" msg)
      then content_text_only (get "content" msg)
      else rest

  unfoldable pub latest_user_text : List Fields → Text
  unfolding first_user_text
  latest_user_text messages = first_user_text (reverse messages)
