-- ===== src/Registry/Tools.antt =====
-- The tools of tool_registry.py: which of the client's are kept, which of its own the gateway adds,
-- and how the lists are merged.
use shenyugateway.Common.{
  Bool, true, false, not, ◌||◌, List, [], ◌∷◌, ◌++◌, if◌then◌else◌, map, any, keep_if,
}
use shenyugateway.Text.{Text, codes, text_eq, mem_text, strip, starts_with}
use shenyugateway.Json.{
  Json, null, boolean, str, arr, obj, end, field, get, truthy, is_text, dict_or_empty, items,
  Stdlib, to_str, str_or_empty,
}
use shenyugateway.Registry.Names.{
  core_names, mem0_management_names, supabase_names, notebook_and_recall_names,
  daily_gateway_tool_names, daily_client_tool_exact,
}

-- The settings that tool_registry.py reads; a missing one is `null`.
pub record ToolSettings : Type 0 where
  pub enable_upstream_tools : Bool
  pub enable_gateway_tools : Bool
  pub enable_mem0_management_tools : Bool
  pub expose_supabase_tools : Bool
  pub gateway_tool_surface : Json
  pub client_tool_surface : Json
  pub gateway_tool_mode : Json

-- `tool.get("function", {}).get("name")`
unfoldable pub name_of : Json → Json
name_of tool = get "name" (dict_or_empty (get "function" (dict_or_empty tool)))

-- The name of a tool of the gateway's, which is a text.
unfoldable pub tool_name : Json → Text
unfolding name_of
tool_name tool = elim (name_of tool) [ str t ↦ t | _ ↦ [] ]

-- Names as they are compared: texts, or `None`.
unfoldable pub same_name : Json → Json → Bool
same_name (str s) (str t) = text_eq s t
same_name null null = true
same_name _ _ = false

unfoldable pub known : Json → List Json → Bool
unfolding same_name
known name names = any (same_name name) names

unfoldable pub tools_enabled : ToolSettings → Bool
tools_enabled cfg =
    cfg.enable_gateway_tools || cfg.enable_mem0_management_tools || cfg.expose_supabase_tools

module _ (std : Stdlib) (details : Text → Json) (description : Bool → Json) where
  -- A tool of the gateway's by its name, with the rest of its schema.
  unfoldable pub native_tool : Text → Json
  native_tool name = obj (
      field "type" (str (codes "function"))
        (field "function" (obj (field "name" (str name) (field "details" (details name) end))) end))

  unfoldable pub lowered_or : Text → Json → Text
  lowered_or default value = std.lower (strip (if truthy value then to_str std value else default))

  unfoldable pub normalize_client_tool_surface : Json → Text
  unfolding lowered_or strip
  normalize_client_tool_surface value =
      let t = lowered_or (codes "all") value in
      if mem_text t (codes "all" ∷ codes "daily" ∷ codes "none" ∷ []) then t else codes "all"

  unfoldable pub gateway_tool_surface : ToolSettings → Text
  unfolding lowered_or strip
  gateway_tool_surface cfg =
      let t = lowered_or (codes "full") cfg.gateway_tool_surface in
      if mem_text t (codes "full" ∷ codes "daily" ∷ []) then t else codes "full"

  unfoldable pub client_tool_surface : ToolSettings → Json → Text
  unfolding normalize_client_tool_surface
  client_tool_surface cfg null = normalize_client_tool_surface cfg.client_tool_surface
  client_tool_surface cfg override = normalize_client_tool_surface override

  unfoldable pub filter_gateway_tools_for_surface : List Json → ToolSettings → List Json
  unfolding gateway_tool_surface tool_name keep_if
  filter_gateway_tools_for_surface tools cfg =
      if not (text_eq (gateway_tool_surface cfg) (codes "daily"))
      then tools
      else keep_if (λ tool. mem_text (tool_name tool) daily_gateway_tool_names) tools

  unfoldable pub client_tool_name : Json → Text
  unfolding name_of
  client_tool_name tool = str_or_empty std (name_of tool)

  unfoldable pub is_daily_client_tool : Text → Bool
  is_daily_client_tool name =
      let lowered = std.lower (strip name) in
      mem_text lowered (map std.lower daily_client_tool_exact)
      || starts_with lowered (codes "coread_")

  unfoldable pub filter_client_tools_for_surface : List Json → ToolSettings → Json → List Json
  unfolding client_tool_surface client_tool_name is_daily_client_tool keep_if
  filter_client_tools_for_surface tools cfg override =
      let surface = client_tool_surface cfg override in
      if text_eq surface (codes "all")
      then tools
      else if text_eq surface (codes "none")
      then []
      else keep_if (λ tool. is_daily_client_tool (client_tool_name tool)) tools

  -- The groups of tools that the settings ask for.
  unfoldable pub enabled_tools : ToolSettings → List Json
  unfolding native_tool
  enabled_tools cfg =
      (if cfg.enable_gateway_tools then map native_tool core_names else [])
      ++ (if cfg.enable_mem0_management_tools
          then (if cfg.enable_gateway_tools
              then []
              else native_tool (codes "shenyu_list_mem_notes") ∷ [])
            ++ map native_tool mem0_management_names
          else [])
      ++ (if cfg.expose_supabase_tools then map native_tool supabase_names else [])
      ++ map native_tool notebook_and_recall_names

  unfoldable pub expanded_gateway_native_tools : ToolSettings → List Json
  unfolding enabled_tools filter_gateway_tools_for_surface
  expanded_gateway_native_tools cfg = filter_gateway_tools_for_surface (enabled_tools cfg) cfg

  unfoldable pub gateway_tool_names : ToolSettings → List Text
  unfolding expanded_gateway_native_tools tool_name
  gateway_tool_names cfg = map tool_name (expanded_gateway_native_tools cfg)

  -- The broker's arguments: the name of a tool, and its own arguments.
  unfoldable pub broker_properties : ToolSettings → Json
  unfolding gateway_tool_names
  broker_properties cfg =
      let tool = obj (
        field "type" (str (codes "string"))
          (field "enum" (arr (items (map str (gateway_tool_names cfg)))) end)) in
      let params = obj (
        field "type" (str (codes "object")) (
          field "additionalProperties" (boolean true)
            (field "description" (str (codes "选中工具的参数对象；无参数时传 {}。")) end))) in
      obj (field "tool" tool (field "params" params end))

  unfoldable pub gateway_broker_tool : ToolSettings → Json
  unfolding broker_properties gateway_tool_surface
  gateway_broker_tool cfg =
      let parameters = obj (
        field "type" (str (codes "object")) (
          field "properties" (broker_properties cfg)
            (field "required" (arr (items (str (codes "tool") ∷ []))) end))) in
      let about = description (text_eq (gateway_tool_surface cfg) (codes "daily")) in
      let function = obj (
        field "name" (str (codes "shenyu_gateway_tool"))
          (field "description" about (field "parameters" parameters end))) in
      obj (field "type" (str (codes "function")) (field "function" function end))

  unfoldable pub gateway_native_tools : ToolSettings → List Json
  unfolding expanded_gateway_native_tools gateway_broker_tool tools_enabled
  gateway_native_tools cfg =
      if not cfg.enable_upstream_tools
      then []
      else if not (tools_enabled cfg)
      then []
      else if is_text (codes "broker") cfg.gateway_tool_mode
      then gateway_broker_tool cfg ∷ []
      else expanded_gateway_native_tools cfg
