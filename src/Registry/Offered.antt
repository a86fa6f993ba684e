-- ===== src/Registry/Offered.antt =====
-- The tools that the gateway offers in tool_registry.py are the ones that it answers to.
use shenyugateway.Common.{
  all-keep_if, all-append, Bool, true, false, not, ◌&&◌, ◌||◌, List, [], ◌∷◌, ◌≡◌, inl, inr, refl,
  arith, if◌then◌else◌, map, all, keep_if, Bool-cases,
}
use shenyugateway.Text.{
  Text, codes, text_eq, mem_text, strip, lstrip, rstrip, is_space, starts_with, is_empty,
}
use shenyugateway.Text.Affixes.{eq_of_text_eq}
use shenyugateway.Json.{Json, get, Stdlib}
use shenyugateway.Registry.Names.{
  core_names, mem0_management_names, supabase_names, notebook_and_recall_names,
  deprecated_compat_tool_names, handler_names,
}
use shenyugateway.Registry.Tools.{
  ToolSettings, gateway_tool_surface, name_of, tool_name, native_tool,
  filter_gateway_tools_for_surface, enabled_tools, expanded_gateway_native_tools,
  gateway_tool_names,
}
use shenyugateway.Registry.Dispatch.{is_broker}

pub mem_all :
    (test : Text → Bool) (t : Text) (ts : List Text)
    → all test ts ≡ true
    → mem_text t ts ≡ true
    → test t ≡ true
unfolding all mem_text
mem_all test t [] h m = absurd (cc m)
mem_all test t (u ∷ us) h m = elim (Bool-cases (text_eq t u)) [
  | inl e ↦ rw (eq_of_text_eq t u e) (ground arith)
  | inr e ↦ mem_all test t us (ground arith) (ground arith)
]

all-map :
    (test : Text → Bool) (xs : List Json)
    → all (λ x. test (tool_name x)) xs ≡ true
    → all test (map tool_name xs) ≡ true
unfolding all
all-map test [] h = refl
all-map test (x ∷ xs) h = let rest = all-map test xs (ground arith) in ground arith

-- A name that a handler answers to, and nothing before the handlers.
unfoldable pub is_handled : Text → Bool
unfolding is_broker mem_text
is_handled n =
    not (is_broker n)
    && not (starts_with n (codes "mcp_"))
    && not (starts_with n (codes "room_"))
    && not (mem_text n deprecated_compat_tool_names)
    && mem_text n handler_names

-- A name that the broker leaves as it is.
unfoldable pub is_plain : Text → Bool
unfolding strip
is_plain n =
    text_eq (strip n) n
    && not (is_empty n)
    && (starts_with n (codes "shenyu_") || starts_with n (codes "supabase_"))

-- A name that a service answers to.
unfoldable pub is_served : Text → Bool
unfolding is_broker mem_text
is_served n = not (is_broker n) && (starts_with n (codes "room_") || mem_text n handler_names)

kept_all :
    (b : Bool) (test : Json → Bool) (xs : List Json) (keep : Json → Bool)
    → all test xs ≡ true
    → all test (if b then xs else keep_if keep xs) ≡ true
kept_all true test xs keep h = h
kept_all false test xs keep h = all-keep_if test keep xs h

module _ (std : Stdlib) (details : Text → Json) (description : Bool → Json) where
  native_all :
      (test : Text → Bool) (ns : List Text)
      → all test ns ≡ true
      → all (λ x. test (tool_name x)) (map (native_tool std details description) ns) ≡ true
  unfolding all native_tool tool_name name_of get
  native_all test [] h = refl
  native_all test (n ∷ ns) h = let rest = native_all test ns (ground arith) in ground arith

  if_all :
      (test : Text → Bool) (b : Bool) (xs ys : List Json)
      → all (λ x. test (tool_name x)) xs ≡ true
      → all (λ x. test (tool_name x)) ys ≡ true
      → all (λ x. test (tool_name x)) (if b then xs else ys) ≡ true
  unfolding all
  if_all test true xs ys h k = h
  if_all test false xs ys h k = k

  filter_all :
      (test : Json → Bool) (xs : List Json) (cfg : ToolSettings)
      → all test xs ≡ true
      → all test (filter_gateway_tools_for_surface std details description xs cfg) ≡ true
  unfolding filter_gateway_tools_for_surface
  filter_all test xs cfg h =
      kept_all (not (text_eq (gateway_tool_surface std details description cfg) (codes "daily")))
        test xs _ h

  -- A test of all the names that tool_schemas.py gives holds of all the exposed names.
  exposed_all :
      (test : Text → Bool) (cfg : ToolSettings)
      → all test core_names ≡ true
      → all test mem0_management_names ≡ true
      → all test supabase_names ≡ true
      → all test notebook_and_recall_names ≡ true
      → test (codes "shenyu_list_mem_notes") ≡ true
      → all test (gateway_tool_names std details description cfg) ≡ true
  unfolding all gateway_tool_names expanded_gateway_native_tools enabled_tools
  exposed_all test cfg core mem0 supabase notebook list =
      let named = native_all test in
      all-map test (expanded_gateway_native_tools std details description cfg) (
        filter_all (λ x. test (tool_name x)) (enabled_tools std details description cfg) cfg
          (all-append (λ x. test (tool_name x)) _ _
            (all-append (λ x. test (tool_name x)) _ _
              (all-append (λ x. test (tool_name x)) _ _
                (if_all test cfg.enable_gateway_tools _ [] (named core_names core) refl)
                (if_all test cfg.enable_mem0_management_tools _ []
                  (all-append (λ x. test (tool_name x)) _ _
                    (if_all test cfg.enable_gateway_tools [] _ refl
                      (named (codes "shenyu_list_mem_notes" ∷ []) (ground arith)))
                    (named mem0_management_names mem0))
                  refl))
              (if_all test cfg.expose_supabase_tools _ [] (named supabase_names supabase) refl))
            (named notebook_and_recall_names notebook)))

  pub exposed_handled :
      (cfg : ToolSettings) → all is_handled (gateway_tool_names std details description cfg) ≡ true
  unfolding is_handled is_broker mem_text all
  exposed_handled cfg = exposed_all is_handled cfg refl refl refl refl refl

  pub exposed_plain :
      (cfg : ToolSettings) → all is_plain (gateway_tool_names std details description cfg) ≡ true
  unfolding is_plain strip lstrip rstrip is_space all
  exposed_plain cfg = exposed_all is_plain cfg refl refl refl refl refl
