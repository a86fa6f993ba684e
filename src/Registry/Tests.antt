-- ===== src/Registry/Tests.antt =====
-- Runs of the tool registry at concrete settings.
use shenyugateway.Common.{true, false, Option, none, some, Bool, String, List, [], ◌∷◌, ◌≡◌, refl}
use shenyugateway.Text.{Text, codes, mem_text, strip, lstrip, rstrip, is_space}
use shenyugateway.Json.{Json, null, str, obj, field, end, get, Stdlib}
use shenyugateway.Registry.Tools.{
  ToolSettings, gateway_tool_names, expanded_gateway_native_tools, enabled_tools,
  filter_gateway_tools_for_surface, gateway_tool_surface, lowered_or, native_tool, tool_name,
  name_of, filter_client_tools_for_surface,
}
use shenyugateway.Registry.Merge.{ToolMeta, merge_tools}
use shenyugateway.Registry.Merged.{Merged, merged}
use shenyugateway.Registry.Arguments.{is_wrapped, only_key}
use shenyugateway.Registry.Dispatch.{Outcome, to_handler, is_broker, execute_gateway_tool}
use shenyugateway.Registry.Answered.{is_unanswered, executed, answered}
use shenyugateway.Registry.Brokered.{broker_call, brokered}

abbrev std : Stdlib
std = record {
  repr = λ v. [];
  dumps = λ v. [];
  sha256_hex = λ t. t;
  lower = λ t. t;
  regex_sub = λ pattern new t. t;
}

abbrev loads : Text → Option Json
loads t = none

abbrev details : Text → Json
details t = null

abbrev description : Bool → Json
description b = null

abbrev settings : ToolSettings
settings = record {
  enable_upstream_tools = true;
  enable_gateway_tools = true;
  enable_mem0_management_tools = false;
  expose_supabase_tools = false;
  gateway_tool_surface = null;
  client_tool_surface = null;
  gateway_tool_mode = null;
}

abbrev meta : ToolMeta
meta = record { surface_override = null; is_room = false; room_tools = [] }

abbrev tool : String → Json
tool name = obj (field "function" (obj (field "name" (str (codes name)) end)) end)

merged_example :
    Merged false
      (filter_client_tools_for_surface std details description
        (tool "shenyu_recall" ∷ [])
        settings
        null)
      (merge_tools std details description
        (tool "shenyu_recall" ∷ [])
        settings
        meta
        (tool "mcp_a" ∷ []))
merged_example =
    merged std details description (tool "shenyu_recall" ∷ []) settings meta (tool "mcp_a" ∷ [])
      refl

abbrev exposed : List Text
exposed = gateway_tool_names std details description settings

executed_example :
    (o : Outcome) × (execute_gateway_tool std loads 2 exposed (codes "unheard_of") end ≡ some o)
executed_example = executed std loads details description settings 0 (codes "unheard_of") end

answered_example :
    (o : Outcome) × (execute_gateway_tool std loads 2 exposed (codes "shenyu_gateway_tool") end
      ≡ some o)
    × (is_unanswered o ≡ false)
unfolding is_broker
answered_example =
    answered std loads details description settings 0 (codes "shenyu_gateway_tool") end refl

is_exposed : mem_text (codes "shenyu_recall") exposed ≡ true
unfolding mem_text gateway_tool_names expanded_gateway_native_tools enabled_tools
    filter_gateway_tools_for_surface gateway_tool_surface lowered_or native_tool tool_name name_of
    get strip lstrip rstrip is_space
is_exposed = refl

unwrapped_call : is_wrapped std loads (field "query" null end) ≡ false
unfolding is_wrapped only_key
unwrapped_call = refl

brokered_example :
    (execute_gateway_tool std loads 2 exposed
        (codes "shenyu_gateway_tool")
        (broker_call std loads (codes "shenyu_recall") (field "query" null end))
      ≡ some (to_handler (codes "shenyu_recall") (field "query" null end)))
    × (execute_gateway_tool std loads 2 exposed (codes "shenyu_recall") (field "query" null end)
        ≡ some (to_handler (codes "shenyu_recall") (field "query" null end)))
brokered_example =
    brokered std loads details description settings 0 (codes "shenyu_recall")
      (field "query" null end) is_exposed unwrapped_call
