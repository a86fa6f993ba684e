-- ===== src/ToolLoop/Errors.antt =====
-- The failed results of tool_loop.py: `_classify_tool_error`, `_decorate_tool_error_result` and what
-- `_record_tool_error` logs, with TOOL_ERROR_CONFIG_PHRASES of store/_admin.py.
use shenyugateway.Common.{
  String, Bool, true, false, Option, none, some, List, [], ◌∷◌, if◌then◌else◌, any,
}
use shenyugateway.Text.{Text, codes, text_eq, find, mem_text}
use shenyugateway.Json.{
  Json, boolean, str, obj, Fields, field, end, get, put, dict_or_empty, Stdlib, to_str,
  str_or_empty,
}
use shenyugateway.Registry.Arguments.{or_else, has_key}

-- A tool's result. A plain dict has neither of the photos of an `AlbumToolResult`, to be seen or to
-- be sent, nor shared media.
pub record ToolResult : Type 0 where
  pub value : Json
  pub view_photo_id : Text
  pub send_photo_id : Text
  pub shared_media : Option Fields

abbrev pub plain : Json → ToolResult
plain value = record { value = value; view_photo_id = []; send_photo_id = []; shared_media = none }

-- A dict of a failure with its text and its kind.
abbrev pub failure_result : Text → Text → ToolResult
failure_result error kind = plain (
    obj
      (field "ok" (boolean false) (field "error" (str error) (field "error_kind" (str kind) end))))

-- `part in text`
unfoldable pub has_phrase : Text → Text → Bool
unfolding find
has_phrase text part = elim (find text part) [ none ↦ false | some i ↦ true ]

abbrev pub error_kinds : List Text
error_kinds =
    codes "validation"
    ∷ codes "config"
    ∷ codes "exception"
    ∷ codes "malformed_arguments"
    ∷ codes "conflict"
    ∷ codes "not_found"
    ∷ codes "ambiguous"
    ∷ codes "read_only"
    ∷ codes "timeout"
    ∷ codes "upstream"
    ∷ codes "mcp_connection"
    ∷ codes "mcp_tool_error"
    ∷ []

abbrev pub tool_error_config_phrases : List Text
tool_error_config_phrases =
    codes "not configured"
    ∷ codes "未配置"
    ∷ codes "is not configured"
    ∷ codes "store is not configured"
    ∷ codes "embedding api is not configured"
    ∷ codes "not available"
    ∷ []

abbrev pub exception_markers : List Text
exception_markers =
    codes "traceback"
    ∷ codes "exception"
    ∷ codes "attributeerror"
    ∷ codes "typeerror"
    ∷ codes "object has no attribute"
    ∷ []

-- `result.get("ok") is False`, of a dict.
unfoldable pub is_failed : Json → Bool
is_failed (obj result) = elim (get "ok" result) [ boolean false ↦ true | _ ↦ false ]
is_failed value = false

-- The kind that a result declares, if it is one of the known ones.
unfoldable pub declared_kind : Fields → Option Text
unfolding mem_text
declared_kind result = elim (get "error_kind" result) [
  | str kind ↦ if mem_text kind error_kinds then some kind else none
  | _ ↦ none
]

unfoldable pub kind_of_text : Text → Text
unfolding has_phrase any
kind_of_text lowered =
    if any (has_phrase lowered) tool_error_config_phrases
    then codes "config"
    else if any (has_phrase lowered) exception_markers
    then codes "exception"
    else codes "validation"

unfoldable pub hint : Text → Text
unfolding mem_text
hint kind =
    if mem_text kind (codes "exception" ∷ codes "config" ∷ [])
    then codes "圆儿ps:予予你又抓到一个家里的bug^ ^"
    else codes "圆儿ps:予予仔细看有没有暴露给你正确的方法呀，没有的话一会告诉我！又抓到家里的bug了！"

-- `d.setdefault(key, value)`
unfoldable pub set_default : String → Json → Fields → Fields
unfolding has_key
set_default key value d = if has_key key d then d else put key value d

-- A row of the log of tool errors.
pub record ToolError : Type 0 where
  pub tool_name : Text
  pub target_tool : Text
  pub args : Fields
  pub error_text : Text
  pub error_source : Text
  pub error_kind : Text

module _ (std : Stdlib) where
  unfoldable pub classify_tool_error : Fields → Text
  unfolding declared_kind kind_of_text or_else str_or_empty
  classify_tool_error result = elim (declared_kind result) [
    | some kind ↦ kind
    | none ↦
        kind_of_text
          (std.lower (str_or_empty std (or_else (get "error" result) (get "message" result))))
  ]

  unfoldable pub decorated : Fields → Fields
  unfolding classify_tool_error set_default hint
  decorated result =
      let error_kind = classify_tool_error result in
      set_default "ps" (str (hint error_kind)) (put "error_kind" (str error_kind) result)

  -- A failed result becomes a plain dict; any other stays as it is.
  unfoldable pub decorate_tool_error_result : ToolResult → ToolResult
  unfolding is_failed decorated
  decorate_tool_error_result result =
      if is_failed result.value
      then plain (obj (decorated (dict_or_empty result.value)))
      else result

  unfoldable pub safe_args : Text → Fields → Fields
  safe_args error_kind args =
      if text_eq error_kind (codes "malformed_arguments")
      then field "tool" (get "tool" args) (field "params" (str (codes "<malformed-json>")) end)
      else args

  unfoldable pub tool_error : Text → Text → Fields → Fields → ToolError
  unfolding classify_tool_error safe_args or_else
  tool_error name target args result =
      let error_kind = classify_tool_error result in
      record {
        tool_name = name;
        target_tool = target;
        args = safe_args error_kind args;
        error_text = to_str std (
            or_else (get "error" result)
              (or_else (get "message" result) (str (std.repr (obj result)))));
        error_source =
            if text_eq error_kind (codes "exception") then codes "execute" else codes "result";
        error_kind = error_kind;
      }
