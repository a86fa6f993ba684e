-- ===== src/Registry/Brokered.antt =====
-- The broker tool of tool_registry.py passes a call on as it is.
use shenyugateway.Common.{
  ℕ, suc, Bool, true, false, not, ◌&&◌, ◌||◌, Option, some, List, [], ◌≡◌, refl, ap, ◌∙◌, arith,
  if◌then◌else◌,
}
use shenyugateway.Text.{Text, codes, text_eq, mem_text, strip, starts_with, is_empty}
use shenyugateway.Text.Affixes.{eq_of_text_eq}
use shenyugateway.Json.{Json, null, str, obj, Fields, end, field, get, Stdlib, str_or_empty}
use shenyugateway.Registry.Names.{deprecated_compat_tool_names, handler_names}
use shenyugateway.Registry.Tools.{ToolSettings, gateway_tool_names}
use shenyugateway.Registry.Arguments.{
  or_else, as_dict, coerce_from, coerce_json_object, unwrapped, is_wrapped, named_target,
  prefixed_target, coerce_broker_arguments, broker_target_name,
}
use shenyugateway.Registry.Dispatch.{
  to_handler, is_broker, raw_target_args, is_allowed, broker, execute_gateway_tool, passed,
}
use shenyugateway.Registry.Offered.{mem_all, is_handled, is_plain, exposed_handled, exposed_plain}
use shenyugateway.Registry.Answered.{
  handled_flags, handled_served, direct_handled, served_broker, executed_direct,
}

module _ (std : Stdlib) (loads : Text → Option Json) where
  -- The broker's arguments for a tool and its arguments.
  abbrev pub broker_call : Text → Fields → Fields
  broker_call name d = field "tool" (str name) (field "params" (obj d) end)

  first_text : (n : Text) (v : Json) → is_empty n ≡ false → str_or_empty std (or_else (str n) v) ≡ n
  unfolding or_else str_or_empty
  first_text n v h = rw (h, or_else, str_or_empty) (rw h refl)

  named_plain :
      (n : Text) (d : Fields)
      → strip n ≡ n
      → is_empty n ≡ false
      → named_target std loads (broker_call n d) ≡ n
  unfolding named_target or_else str_or_empty get
  named_plain n d same some_text =
      ap (λ name. if is_empty name && false then [] else name)
        (ap strip (first_text n null some_text) ∙ same)
      ∙ rw some_text refl

  prefixed_plain :
      (exposed : List Text) (n : Text)
      → is_empty n ≡ false
      → (starts_with n (codes "shenyu_") || starts_with n (codes "supabase_")) ≡ true
      → prefixed_target std loads exposed n ≡ n
  unfolding prefixed_target
  prefixed_plain exposed n some_text known = rw (some_text, known, prefixed_target) refl

  plain_flags : (a b c : Bool) → (a && not b && c) ≡ true → (a ≡ true) × (b ≡ false) × (c ≡ true)
  plain_flags a b c h = ground arith

  plain_target :
      (exposed : List Text) (n : Text) (d : Fields)
      → is_plain n ≡ true
      → broker_target_name std loads exposed (broker_call n d) ≡ n
  unfolding is_plain broker_target_name
  plain_target exposed n d h =
      let (same, some_text, known) =
        plain_flags (text_eq (strip n) n) (is_empty n)
          (starts_with n (codes "shenyu_") || starts_with n (codes "supabase_")) h in
      ap (prefixed_target std loads exposed)
        (named_plain n d (eq_of_text_eq (strip n) n same) some_text)
      ∙ prefixed_plain exposed n some_text known

  coerced :
      (n : Text) (d : Fields)
      → is_wrapped std loads d ≡ false
      → coerce_broker_arguments std loads (raw_target_args (broker_call n d)) ≡ some d
  unfolding coerce_broker_arguments raw_target_args coerce_json_object coerce_from as_dict unwrapped
      get
  coerced n d h = rw (h, unwrapped) refl

  allowed_known :
      (exposed : List Text) (n : Text) → mem_text n exposed ≡ true → is_allowed exposed n ≡ true
  unfolding is_allowed
  allowed_known exposed n h = rw (h, is_allowed) refl

  broker_passes :
      (exposed : List Text) (n : Text) (d : Fields)
      → is_plain n ≡ true
      → is_handled n ≡ true
      → mem_text n exposed ≡ true
      → is_wrapped std loads d ≡ false
      → broker std loads exposed (broker_call n d) ≡ passed n d
  unfolding broker is_handled
  broker_passes exposed n d p h known plain =
      let (_, mcp, room, old, handled) =
        handled_flags (is_broker n) (starts_with n (codes "mcp_")) (starts_with n (codes "room_"))
          (mem_text n deprecated_compat_tool_names) (mem_text n handler_names) h in
      rw (plain_target exposed n d p, old, allowed_known exposed n known, coerced n d plain, broker)
        (ap (λ m. passed m d) (plain_target exposed n d p))

  -- A call of an exposed tool through the broker comes to the same as the call itself, if the
  -- tool's arguments are not wrapped up as `arguments` or `params` once more: both go to the
  -- tool's handler.
  pub brokered :
      (details : Text → Json) (description : Bool → Json) (cfg : ToolSettings) (fuel : ℕ) (n : Text)
      (d : Fields)
      → mem_text n (gateway_tool_names std details description cfg) ≡ true
      → is_wrapped std loads d ≡ false
      → (execute_gateway_tool std loads
            (suc (suc fuel))
            (gateway_tool_names std details description cfg)
            (codes "shenyu_gateway_tool")
            (broker_call n d)
          ≡ some (to_handler n d))
        × (execute_gateway_tool std loads
              (suc (suc fuel))
              (gateway_tool_names std details description cfg)
              n
              d
            ≡ some (to_handler n d))
  unfolding execute_gateway_tool is_broker
  brokered details description cfg fuel n d known plain =
      let exposed = gateway_tool_names std details description cfg in
      let handled =
        mem_all is_handled n exposed (exposed_handled std details description cfg) known in
      let text = mem_all is_plain n exposed (exposed_plain std details description cfg) known in
      let other = served_broker std loads n (handled_served n handled) in
      let direct =
        executed_direct std loads (suc fuel) exposed n d other
        ∙ ap some (direct_handled n d handled) in
      let inner =
        executed_direct std loads fuel exposed n d other ∙ ap some (direct_handled n d handled) in
      (rw (broker_passes exposed n d text handled known plain, execute_gateway_tool) inner, direct)
