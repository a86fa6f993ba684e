-- ===== src/Registry/Dispatch.antt =====
-- `execute_gateway_tool` of tool_registry.py: where a call goes.
use shenyugateway.Common.{
  ℕ, zero, suc, Bool, not, ◌||◌, Option, none, some, List, [], ◌∷◌, if◌then◌else◌,
}
use shenyugateway.Text.{Text, codes, text_eq, mem_text, starts_with}
use shenyugateway.Json.{Json, null, obj, Fields, get, Stdlib}
use shenyugateway.Registry.Names.{
  hidden_compat_tool_names, deprecated_compat_tool_names, room_tool_names, handler_names,
}
use shenyugateway.Registry.Arguments.{without_keys, coerce_broker_arguments, broker_target_name}

-- What becomes of a call: an answer that it is refused for, the service that it goes to, or the
-- `ValueError` of a name that nothing answers to.
pub data Outcome : Type 0 where
  deprecated : Text → Outcome
  unsupported_target : Text → Outcome
  malformed_arguments : Text → Outcome
  to_mcp : Text → Fields → Outcome
  to_room : Text → Fields → Outcome
  to_handler : Text → Fields → Outcome
  unsupported_tool : Text → Outcome

unfoldable pub is_broker : Text → Bool
is_broker name = text_eq name (codes "shenyu_gateway_tool")

-- `arguments.get("params")`, or `"arguments"`, or the arguments that are none of the broker's.
unfoldable pub raw_target_args : Fields → Json
unfolding without_keys
raw_target_args arguments = elim (get "params" arguments) [
  | null ↦ elim (get "arguments" arguments) [
    | null ↦ obj (without_keys ("tool" ∷ "name" ∷ "action" ∷ "params" ∷ "arguments" ∷ []) arguments)
    | value ↦ value
  ]
  | value ↦ value
]

unfoldable pub is_allowed : List Text → Text → Bool
is_allowed exposed name =
    mem_text name exposed || mem_text name hidden_compat_tool_names || mem_text name room_tool_names

-- A call of a tool other than the broker.
unfoldable pub execute_direct : Text → Fields → Outcome
execute_direct name arguments =
    if starts_with name (codes "mcp_")
    then to_mcp name arguments
    else if starts_with name (codes "room_")
    then to_room name arguments
    else if mem_text name deprecated_compat_tool_names
    then deprecated name
    else if mem_text name handler_names
    then to_handler name arguments
    else unsupported_tool name

module _ (std : Stdlib) (loads : Text → Option Json) where
  -- What the broker calls: itself would do, if its own name were allowed.
  pub data Brokered : Type 0 where
    refused : Outcome → Brokered
    passed : Text → Fields → Brokered

  unfoldable pub broker : List Text → Fields → Brokered
  unfolding raw_target_args is_allowed
  broker exposed arguments =
      let name = broker_target_name std loads exposed arguments in
      if mem_text name deprecated_compat_tool_names
      then refused (deprecated name)
      else if not (is_allowed exposed name)
      then refused (unsupported_target name)
      else elim (coerce_broker_arguments std loads (raw_target_args arguments)) [
        | none ↦ refused (malformed_arguments name)
        | some target_args ↦ passed name target_args
      ]

  -- `none` if the calls of itself, `fuel` in number, were not enough. Arguments that are no dict
  -- are `end`, an empty one. The names are those of the
  -- tools that the settings expose.
  unfoldable pub execute_gateway_tool : ℕ → List Text → Text → Fields → Option Outcome
  unfolding is_broker broker execute_direct
  execute_gateway_tool zero exposed name arguments = none
  execute_gateway_tool (suc fuel) exposed name arguments =
      if not (is_broker name)
      then some (execute_direct name arguments)
      else elim (broker exposed arguments) [
        | refused outcome ↦ some outcome
        | passed target target_args ↦ execute_gateway_tool fuel exposed target target_args
      ]
