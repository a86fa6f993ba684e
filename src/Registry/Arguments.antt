-- ===== src/Registry/Arguments.antt =====
-- How tool_registry.py reads the arguments of a call, and `coerce_json_object` of utils.py.
use text.Mathlib.Text.{◌==◌ as str_eq}
use shenyugateway.Common.{
  ℕ, zero, suc, String, Bool, true, false, not, ◌&&◌, ◌||◌, Option, none, some, List, [], ◌∷◌, ◌++◌,
  if◌then◌else◌, any,
}
use shenyugateway.Text.{Text, codes, mem_text, strip, starts_with, is_empty}
use shenyugateway.Json.{
  Json, null, boolean, str, obj, Fields, end, field, get, truthy, Stdlib, to_str, str_or_empty,
}
use shenyugateway.Registry.Names.{hidden_compat_tool_names}

-- `key in d`
unfoldable pub has_key : String → Fields → Bool
has_key key end = false
has_key key (field k v d) = str_eq k key || has_key key d

-- The items of `d` under other keys than these.
unfoldable pub without_keys : List String → Fields → Fields
without_keys keys end = end
without_keys keys (field k v d) =
    let rest = without_keys keys d in if any (str_eq k) keys then rest else field k v rest

-- `a or b`
unfoldable pub or_else : Json → Json → Json
or_else a b = if truthy a then a else b

unfoldable pub as_dict : Json → Option Fields
as_dict (obj d) = some d
as_dict _ = none

-- `set(d) == {key}`
unfoldable pub only_key : String → Fields → Bool
unfolding has_key
only_key key end = false
only_key key (field k v end) = str_eq k key
only_key key (field k v (field _ _ _)) = false

module _ (std : Stdlib) (loads : Text → Option Json) where
  -- `coerce_json_object`, with the number of readings that are left.
  unfoldable pub coerce_from : ℕ → Json → Option Fields
  unfolding as_dict strip
  coerce_from zero value = as_dict value
  coerce_from (suc depth) (str t) =
      if is_empty (strip t)
      then some end
      else elim (loads (strip t)) [ none ↦ none | some value ↦ coerce_from depth value ]
  coerce_from (suc depth) value = as_dict value

  unfoldable pub coerce_json_object : Json → Option Fields
  unfolding coerce_from
  coerce_json_object value = coerce_from 3 value

  -- Whether the arguments hold nothing but nested arguments.
  unfoldable pub is_wrapped : Fields → Bool
  unfolding only_key
  is_wrapped d = only_key "arguments" d || only_key "params" d

  unfoldable pub unwrapped : Fields → Fields
  unfolding is_wrapped coerce_json_object has_key
  unwrapped d =
      let nested =
        coerce_json_object (if has_key "arguments" d then get "arguments" d else get "params" d) in
      if is_wrapped d then elim nested [ some e ↦ e | none ↦ d ] else d

  unfoldable pub coerce_broker_arguments : Json → Option Fields
  unfolding coerce_json_object unwrapped
  coerce_broker_arguments value = elim (coerce_json_object value) [
    | none ↦ none
    | some d ↦ some (unwrapped d)
  ]

  unfoldable pub bool_arg : Fields → String → Bool → Bool
  unfolding has_key strip
  bool_arg arguments key default = elim (get key arguments) [
    | boolean b ↦ b
    | null ↦ default
    | str t ↦
        let lowered = std.lower (strip t) in
        if mem_text lowered (codes "1" ∷ codes "true" ∷ codes "yes" ∷ codes "on" ∷ [])
        then true
        else if mem_text lowered (codes "0" ∷ codes "false" ∷ codes "no" ∷ codes "off" ∷ [])
        then false
        else truthy (str t)
    | value ↦ truthy value
  ]

  unfoldable pub query_arg : Fields → Json
  unfolding or_else
  query_arg arguments = or_else (get "query" arguments) (or_else (get "q" arguments) (str []))

  -- A value that stands for an argument: neither `None` nor a blank text.
  unfoldable pub is_given : Json → Bool
  unfolding strip
  is_given null = false
  is_given (str t) = not (is_empty (strip t))
  is_given _ = true

  unfoldable pub first_nonempty_arg : Fields → List String → Json
  unfolding is_given
  first_nonempty_arg arguments [] = null
  first_nonempty_arg arguments (key ∷ keys) =
      let rest = first_nonempty_arg arguments keys in
      if is_given (get key arguments) then get key arguments else rest

  -- The first value that is true, as a text.
  unfoldable pub first_id : Fields → List String → Text
  first_id arguments [] = []
  first_id arguments (key ∷ keys) =
      let rest = first_id arguments keys in
      if truthy (get key arguments) then to_str std (get key arguments) else rest

  unfoldable pub mem_note_id_arg : Fields → Text
  unfolding first_id
  mem_note_id_arg arguments = first_id arguments ("note_id" ∷ "id" ∷ "noteId" ∷ [])

  unfoldable pub star_id_arg : Fields → Text
  unfolding first_id
  star_id_arg arguments = first_id arguments ("star_id" ∷ "id" ∷ "starId" ∷ [])

  unfoldable pub mem_note_patch_args : Fields → Fields
  unfolding without_keys
  mem_note_patch_args arguments = without_keys ("note_id" ∷ "id" ∷ "noteId" ∷ []) arguments

  -- The name that the broker's arguments give, before a prefix is tried.
  unfoldable pub named_target : Fields → Text
  unfolding or_else strip str_or_empty
  named_target arguments =
      let name = strip (str_or_empty std (or_else (get "tool" arguments) (get "name" arguments))) in
      if is_empty name && truthy (get "action" arguments)
      then strip (str_or_empty std (get "action" arguments))
      else name

  unfoldable pub prefixed_target : List Text → Text → Text
  prefixed_target names name =
      let prefixed = codes "shenyu_" ++ name in
      if not (is_empty name)
        && not (starts_with name (codes "shenyu_") || starts_with name (codes "supabase_"))
        && (mem_text prefixed names || mem_text prefixed hidden_compat_tool_names)
      then prefixed
      else name

  unfoldable pub broker_target_name : List Text → Fields → Text
  unfolding named_target prefixed_target
  broker_target_name names arguments = prefixed_target names (named_target arguments)
