-- ===== src/Registry/Merged.antt =====
-- `merge_tools` of tool_registry.py adds no tool under a name that is taken.
use shenyugateway.Common.{
  Bool, true, false, not, ◌&&◌, List, [], ◌∷◌, ◌++◌, ◌≡◌, ◌⊎◌, inl, inr, refl, ap, ◌∙◌,
  if◌then◌else◌, any, all, keep_if, Bool-cases, arith, append_assoc,
}
use shenyugateway.Text.{Text}
use shenyugateway.Json.{Json, truthy, Stdlib}
use shenyugateway.Registry.Tools.{
  ToolSettings, name_of, known, tools_enabled, gateway_native_tools,
  filter_client_tools_for_surface,
}
use shenyugateway.Registry.Merge.{
  ToolMeta, new_tools, add_names, room_additions, client_names, native_additions, merged_tools,
  merge_tools,
}

-- Every tool's name is new: neither among the names, nor an earlier tool's.
unfoldable pub all_new : List Json → List Json → Bool
unfolding known name_of
all_new names [] = true
all_new names (tool ∷ tools) =
    not (known (name_of tool) names) && all_new (name_of tool ∷ names) tools

-- No tool's name is among the names.
unfoldable pub all_free : List Json → List Json → Bool
unfolding known name_of all
all_free names tools = all (λ tool. not (known (name_of tool) names)) tools

all_new-append :
    (names xs ys : List Json)
    → all_new names xs ≡ true
    → all_new (add_names names xs) ys ≡ true
    → all_new names (xs ++ ys) ≡ true
unfolding all_new add_names
all_new-append names [] ys h k = k
all_new-append names (x ∷ xs) ys h k =
    let rest = all_new-append (name_of x ∷ names) xs ys (ground arith) k in ground arith

all_free-less :
    (name : Json) (names tools : List Json)
    → all_free (name ∷ names) tools ≡ true
    → all_free names tools ≡ true
unfolding all_free all known any
all_free-less name names [] h = refl
all_free-less name names (t ∷ ts) h =
    let rest = all_free-less name names ts (ground arith) in ground arith

all_new-free : (names tools : List Json) → all_new names tools ≡ true → all_free names tools ≡ true
unfolding all_new all_free all
all_new-free names [] h = refl
all_new-free names (t ∷ ts) h =
    let rest =
      all_free-less (name_of t) names ts (all_new-free (name_of t ∷ names) ts (ground arith)) in
    ground arith

room_additions-free : (names tools : List Json) → all_free names (room_additions names tools) ≡ true
unfolding all_free room_additions keep_if all
room_additions-free names [] = refl
room_additions-free names (t ∷ ts) = let rest = room_additions-free names ts in ground arith

new_tools-all_new :
    (test : Json → Bool) (names tools : List Json)
    → all_new names (new_tools test names tools) ≡ true
unfolding all_new new_tools
new_tools-all_new test names [] = refl
new_tools-all_new test names (t ∷ ts) =
    elim (Bool-cases (test t && not (known (name_of t) names))) [
      | inl e ↦
          let rest = new_tools-all_new test (name_of t ∷ names) ts in
          rw (e, new_tools) (ground arith)
      | inr e ↦ rw (e, new_tools) (new_tools-all_new test names ts)
    ]

native_additions-all_new :
    (enabled : Bool) (names native : List Json)
    → all_new names (native_additions enabled names native) ≡ true
unfolding all_new native_additions
native_additions-all_new true names native = new_tools-all_new (λ tool. true) names native
native_additions-all_new false names native = refl

-- A merged list is the kept tools and additions under other names.
abbrev pub Merged : Bool → List Json → List Json → Type 0
Merged is_room kept tools =
    (added : List Json) × (tools ≡ kept ++ added)
    × (all_free (client_names kept) added ≡ true)
    × ((is_room ≡ true) ⊎ (all_new (client_names kept) added ≡ true))

merged_tools-Merged :
    (is_room enabled : Bool) (kept room_tools native mcp_tools : List Json)
    → Merged is_room kept (merged_tools is_room enabled kept room_tools native mcp_tools)
unfolding merged_tools
merged_tools-Merged true enabled kept room_tools native mcp =
    let names = client_names kept in
    (room_additions names room_tools, refl, room_additions-free names room_tools, inl refl)
merged_tools-Merged false enabled kept room_tools native mcp =
    let names = client_names kept in
    let own = native_additions enabled names native in
    let others = new_tools (λ tool. truthy (name_of tool)) (add_names names own) mcp in
    let new =
      all_new-append names own others (native_additions-all_new enabled names native)
        (new_tools-all_new (λ tool. truthy (name_of tool)) (add_names names own) mcp) in
    (own ++ others, append_assoc kept own others, all_new-free names (own ++ others) new, inr new)

-- If upstream tools are enabled, `merge_tools` keeps the client's tools that the surface shows, in
-- front, and adds tools whose names none of them has. Outside room mode no two of the added tools
-- have the same name.
pub merged :
    (std : Stdlib) (details : Text → Json) (description : Bool → Json) (client_tools : List Json)
    (cfg : ToolSettings) (meta : ToolMeta) (mcp_tools : List Json)
    → cfg.enable_upstream_tools ≡ true
    → Merged meta.is_room
        (filter_client_tools_for_surface std details description client_tools cfg
          meta.surface_override)
        (merge_tools std details description client_tools cfg meta mcp_tools)
unfolding merge_tools
merged std details description client cfg meta mcp on =
    let tools =
      merged_tools meta.is_room (tools_enabled cfg)
        (filter_client_tools_for_surface std details description client cfg meta.surface_override)
        meta.room_tools (gateway_native_tools std details description cfg) mcp in
    let whole : merge_tools std details description client cfg meta mcp ≡ tools =
      ap (λ b. if not b then [] else tools) on in
    let (added, parts, free, new) =
      merged_tools-Merged meta.is_room (tools_enabled cfg) _ meta.room_tools
        (gateway_native_tools std details description cfg) mcp in
    (added, whole ∙ parts, free, new)
