-- ===== src/Registry/Merge.antt =====
-- `merge_tools` of tool_registry.py: the client's tools, and then those of the gateway or the room.
use shenyugateway.Common.{Bool, true, not, ◌&&◌, List, [], ◌∷◌, ◌++◌, if◌then◌else◌, map, keep_if}
use shenyugateway.Text.{Text}
use shenyugateway.Json.{Json, truthy, is_dict, Stdlib}
use shenyugateway.Registry.Tools.{
  ToolSettings, name_of, known, filter_client_tools_for_surface, tools_enabled,
  gateway_native_tools,
}

-- What `merge_tools` reads of `meta`: the profile's surface, and the room's tools in room mode.
pub record ToolMeta : Type 0 where
  pub surface_override : Json
  pub is_room : Bool
  pub room_tools : List Json

-- The tools of a list that a loop appends, with their names known from then on.
unfoldable pub new_tools : (Json → Bool) → List Json → List Json → List Json
unfolding known name_of
new_tools test names [] = []
new_tools test names (tool ∷ tools) =
    let new = test tool && not (known (name_of tool) names) in
    let rest = new_tools test (if new then name_of tool ∷ names else names) tools in
    if new then tool ∷ rest else rest

unfoldable pub add_names : List Json → List Json → List Json
unfolding name_of
add_names names [] = names
add_names names (tool ∷ tools) = add_names (name_of tool ∷ names) tools

-- In room mode the names of the room's tools, which all have one, are compared with the client's
-- alone.
unfoldable pub room_additions : List Json → List Json → List Json
unfolding known name_of
room_additions names tools = keep_if (λ tool. not (known (name_of tool) names)) tools

unfoldable pub client_names : List Json → List Json
unfolding name_of
client_names tools = map name_of (keep_if is_dict tools)

unfoldable pub native_additions : Bool → List Json → List Json → List Json
unfolding new_tools
native_additions enabled names native =
    if enabled then new_tools (λ tool. true) names native else []

-- The lists merged: the client's tools, the room's in room mode, and else the gateway's own, if
-- any are enabled, and those of the MCP servers that have a name.
unfoldable pub merged_tools :
    Bool → Bool → List Json → List Json → List Json → List Json → List Json
unfolding room_additions client_names native_additions new_tools add_names
merged_tools is_room enabled kept room_tools native mcp_tools =
    let names = client_names kept in
    if is_room
    then kept ++ room_additions names room_tools
    else (let added = native_additions enabled names native in
        kept
        ++ added
        ++ new_tools (λ tool. truthy (name_of tool)) (add_names names added) mcp_tools)

module _ (std : Stdlib) (details : Text → Json) (description : Bool → Json) where
  unfoldable pub merge_tools : List Json → ToolSettings → ToolMeta → List Json → List Json
  unfolding filter_client_tools_for_surface merged_tools gateway_native_tools tools_enabled
  merge_tools client_tools cfg meta mcp_tools =
      if not cfg.enable_upstream_tools
      then []
      else merged_tools meta.is_room (tools_enabled cfg)
          (filter_client_tools_for_surface std details description client_tools cfg
            meta.surface_override)
          meta.room_tools (gateway_native_tools std details description cfg) mcp_tools
