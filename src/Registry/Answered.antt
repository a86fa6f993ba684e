-- ===== src/Registry/Answered.antt =====
-- Calls of tools through `execute_gateway_tool` of tool_registry.py end, and find an answer.
use shenyugateway.Common.{
  ℕ, suc, Bool, true, false, not, ◌&&◌, ◌||◌, Option, some, List, [], ◌∷◌, ◌≡◌, ◌⊎◌, inl, inr, refl,
  arith, all, Bool-cases, Option-cases,
}
use shenyugateway.Text.{Text, codes, mem_text, starts_with}
use shenyugateway.Json.{Json, Fields, Stdlib}
use shenyugateway.Registry.Names.{
  hidden_compat_tool_names, deprecated_compat_tool_names, room_tool_names, handler_names,
}
use shenyugateway.Registry.Tools.{ToolSettings, gateway_tool_names}
use shenyugateway.Registry.Arguments.{coerce_broker_arguments, broker_target_name}
use shenyugateway.Registry.Dispatch.{
  Outcome, deprecated, unsupported_target, malformed_arguments, unsupported_tool, to_handler,
  is_broker, raw_target_args, is_allowed, execute_direct, broker, execute_gateway_tool, refused,
  passed,
}
use shenyugateway.Registry.Offered.{mem_all, is_handled, is_served, exposed_handled}

unfoldable pub is_unanswered : Outcome → Bool
is_unanswered (unsupported_tool name) = true
is_unanswered _ = false

pub handled_flags :
    (broker mcp room old handled : Bool)
    → (not broker && not mcp && not room && not old && handled) ≡ true
    → (broker ≡ false) × (mcp ≡ false) × (room ≡ false) × (old ≡ false) × (handled ≡ true)
handled_flags broker mcp room old handled h = ground arith

served_flags :
    (broker room handled : Bool)
    → (not broker && (room || handled)) ≡ true
    → (broker ≡ false) × ((room ≡ true) ⊎ ((room ≡ false) × (handled ≡ true)))
served_flags broker room handled h = ground arith

pub handled_served : (n : Text) → is_handled n ≡ true → is_served n ≡ true
unfolding is_handled is_served
handled_served n h =
    let (broker, mcp, room, old, handled) =
      handled_flags (is_broker n) (starts_with n (codes "mcp_")) (starts_with n (codes "room_"))
        (mem_text n deprecated_compat_tool_names) (mem_text n handler_names) h in
    rw (broker, room, handled, is_served) refl

all_served : (ns : List Text) → all is_handled ns ≡ true → all is_served ns ≡ true
unfolding all
all_served [] h = refl
all_served (n ∷ ns) h =
    let here = handled_served n (ground arith) in
    let rest = all_served ns (ground arith) in ground arith

allowed_served :
    (exposed : List Text) (n : Text)
    → all is_handled exposed ≡ true
    → is_allowed exposed n ≡ true
    → is_served n ≡ true
unfolding is_allowed is_served is_broker mem_text all
allowed_served exposed n h a = elim (Bool-cases (mem_text n exposed)) [
  | inl e ↦ handled_served n (mem_all is_handled n exposed h e)
  | inr e ↦ elim (Bool-cases (mem_text n hidden_compat_tool_names)) [
    | inl f ↦ mem_all is_served n hidden_compat_tool_names refl f
    | inr f ↦ mem_all is_served n room_tool_names refl (ground arith)
  ]
]

pub served_answered :
    (n : Text) (arguments : Fields)
    → is_served n ≡ true
    → is_unanswered (execute_direct n arguments) ≡ false
unfolding is_served execute_direct is_unanswered
served_answered n arguments h = elim (Bool-cases (starts_with n (codes "mcp_"))) [
  | inl mcp ↦ rw (mcp, execute_direct, is_unanswered) refl
  | inr mcp ↦
      elim (served_flags (is_broker n) (starts_with n (codes "room_")) (mem_text n handler_names)
        h).1 [
          | inl room ↦ rw (mcp, room, execute_direct, is_unanswered) refl
          | inr (room, handled) ↦ elim (Bool-cases (mem_text n deprecated_compat_tool_names)) [
            | inl old ↦ rw (mcp, room, old, execute_direct, is_unanswered) refl
            | inr old ↦ rw (mcp, room, old, handled, execute_direct, is_unanswered) refl
          ]
        ]
]

pub direct_handled :
    (n : Text) (arguments : Fields)
    → is_handled n ≡ true
    → execute_direct n arguments ≡ to_handler n arguments
unfolding is_handled execute_direct
direct_handled n arguments h =
    let (broker, mcp, room, old, handled) =
      handled_flags (is_broker n) (starts_with n (codes "mcp_")) (starts_with n (codes "room_"))
        (mem_text n deprecated_compat_tool_names) (mem_text n handler_names) h in
    rw (mcp, room, old, handled, execute_direct) refl

module _ (std : Stdlib) (loads : Text → Option Json) where
  -- The broker refuses a call with an answer, or passes it to a name that is allowed.
  broker-cases :
      (exposed : List Text) (arguments : Fields)
      → ((o : Outcome) × (broker std loads exposed arguments ≡ refused o)
          × (is_unanswered o ≡ false))
        ⊎ ((n : Text) × (d : Fields) × (broker std loads exposed arguments ≡ passed n d)
            × (is_allowed exposed n ≡ true))
  unfolding broker is_unanswered
  broker-cases exposed arguments =
      let name = broker_target_name std loads exposed arguments in
      elim (Bool-cases (mem_text name deprecated_compat_tool_names)) [
        | inl old ↦ rw (old, broker) (inl (deprecated name, refl, refl))
        | inr old ↦ elim (Bool-cases (is_allowed exposed name)) [
          | inr other ↦ rw (old, other, broker) (inl (unsupported_target name, refl, refl))
          | inl allowed ↦
              elim (Option-cases (coerce_broker_arguments std loads (raw_target_args arguments))) [
                | inl e ↦ rw (old, allowed, e, broker) (inl (malformed_arguments name, refl, refl))
                | inr (d, e) ↦ rw (old, allowed, e, broker) (inr (name, d, refl, allowed))
              ]
        ]
      ]

  pub served_broker : (n : Text) → is_served n ≡ true → is_broker n ≡ false
  unfolding is_served
  served_broker n h =
      (served_flags (is_broker n) (starts_with n (codes "room_")) (mem_text n handler_names) h).0

  pub executed_direct :
      (fuel : ℕ) (exposed : List Text) (n : Text) (arguments : Fields)
      → is_broker n ≡ false
      → execute_gateway_tool std loads (suc fuel) exposed n arguments
        ≡ some (execute_direct n arguments)
  unfolding execute_gateway_tool
  executed_direct fuel exposed n arguments e = rw (e, execute_gateway_tool) refl

  executed_broker :
      (fuel : ℕ) (exposed : List Text) (n : Text) (arguments : Fields)
      → all is_handled exposed ≡ true
      → is_broker n ≡ true
      → (o : Outcome) × (execute_gateway_tool std loads (suc (suc fuel)) exposed n arguments
          ≡ some o)
        × (is_unanswered o ≡ false)
  unfolding execute_gateway_tool
  executed_broker fuel exposed n arguments h e = elim (broker-cases exposed arguments) [
    | inl (o, refusal, answered) ↦ rw (e, refusal, execute_gateway_tool) (o, refl, answered)
    | inr (m, d, pass, allowed) ↦
        let served = allowed_served exposed m h allowed in
        rw (e, pass, execute_gateway_tool)
          (
            execute_direct m d,
            executed_direct fuel exposed m d (served_broker m served),
            served_answered m d served,
          )
  ]

  -- `execute_gateway_tool` ends: it calls itself at most once, whatever the name, the arguments
  -- and the settings.
  pub executed :
      (details : Text → Json) (description : Bool → Json) (cfg : ToolSettings) (fuel : ℕ)
      (name : Text) (arguments : Fields)
      → (o : Outcome) × (execute_gateway_tool std loads
            (suc (suc fuel))
            (gateway_tool_names std details description cfg)
            name
            arguments
          ≡ some o)
  executed details description cfg fuel name arguments = elim (Bool-cases (is_broker name)) [
    | inl e ↦
        let (o, result, answered) =
          executed_broker fuel (gateway_tool_names std details description cfg) name arguments
            (exposed_handled std details description cfg) e in
        (o, result)
    | inr e ↦ (
      execute_direct name arguments,
      executed_direct (suc fuel) (gateway_tool_names std details description cfg) name arguments e,
    )
  ]

  -- A call of the broker, whatever its arguments, and a call of any tool that the settings expose,
  -- or of a hidden or a room's one, never raises that the tool is unsupported.
  pub answered :
      (details : Text → Json) (description : Bool → Json) (cfg : ToolSettings) (fuel : ℕ)
      (name : Text) (arguments : Fields)
      → (is_broker name || is_allowed (gateway_tool_names std details description cfg) name) ≡ true
      → (o : Outcome) × (execute_gateway_tool std loads
            (suc (suc fuel))
            (gateway_tool_names std details description cfg)
            name
            arguments
          ≡ some o)
        × (is_unanswered o ≡ false)
  answered details description cfg fuel name arguments h =
      let exposed = gateway_tool_names std details description cfg in
      elim (Bool-cases (is_broker name)) [
        | inl e ↦
            executed_broker fuel exposed name arguments
              (exposed_handled std details description cfg) e
        | inr e ↦
            let served =
              allowed_served exposed name (exposed_handled std details description cfg)
                (rw e at h) in
            (
              execute_direct name arguments,
              executed_direct (suc fuel) exposed name arguments e,
              served_answered name arguments served,
            )
      ]
