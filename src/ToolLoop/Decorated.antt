-- ===== src/ToolLoop/Decorated.antt =====
-- The failed results that `_decorate_tool_error_result` of tool_loop.py lets through.
use text.Mathlib.Text.{◌==◌ as str_eq}
use shenyugateway.Common.{
  String, true, false, none, some, ◌≡◌, refl, ap, sym, ◌∙◌, inl, inr, any, Bool-cases, Option-cases,
}
use shenyugateway.Text.{Text, mem_text}
use shenyugateway.Json.{
  Json, null, boolean, number, str, arr, obj, Fields, field, end, is_str, get, put, Stdlib,
  str_or_empty, dict_or_empty,
}
use shenyugateway.Json.Dicts.{get-put, get-put_other, has_key-put, has_key-put_other, put-same}
use shenyugateway.Registry.Arguments.{has_key, or_else}
use shenyugateway.ToolLoop.Errors.{
  ToolResult, plain, error_kinds, tool_error_config_phrases, exception_markers, has_phrase,
  is_failed, declared_kind, kind_of_text, hint, set_default, classify_tool_error, decorated,
  decorate_tool_error_result,
}

kind_of_text-known : (t : Text) → mem_text (kind_of_text t) error_kinds ≡ true
unfolding kind_of_text mem_text
kind_of_text-known t = elim (Bool-cases (any (has_phrase t) tool_error_config_phrases)) [
  | inl e ↦ rw (e, kind_of_text) refl
  | inr e ↦ elim (Bool-cases (any (has_phrase t) exception_markers)) [
    | inl f ↦ rw (e, f, kind_of_text) refl
    | inr f ↦ rw (e, f, kind_of_text) refl
  ]
]

-- A kind that is declared and known is the one that is read.
declared-read :
    (d : Fields) (kind : Text)
    → get "error_kind" d ≡ str kind
    → mem_text kind error_kinds ≡ true
    → declared_kind d ≡ some kind
unfolding declared_kind
declared-read d kind e known = rw (e, known, declared_kind) refl

undeclared :
    {v : Json} (d : Fields) → get "error_kind" d ≡ v → is_str v ≡ false → declared_kind d ≡ none
unfolding declared_kind
undeclared {v = str t} d e h = absurd (cc h)
undeclared {v = null} d e h = rw (e, declared_kind) refl
undeclared {v = boolean b} d e h = rw (e, declared_kind) refl
undeclared {v = number s n m} d e h = rw (e, declared_kind) refl
undeclared {v = arr vs} d e h = rw (e, declared_kind) refl
undeclared {v = obj c} d e h = rw (e, declared_kind) refl

declared_case :
    (v : Json) (d : Fields) (kind : Text)
    → get "error_kind" d ≡ v
    → declared_kind d ≡ some kind
    → mem_text kind error_kinds ≡ true
unfolding declared_kind
declared_case (str k) d kind e h = elim (Bool-cases (mem_text k error_kinds)) [
  | inl m ↦
      let same : k ≡ kind = cc (sym (declared-read d k e m) ∙ h) in
      ap (λ t. mem_text t error_kinds) (sym same) ∙ m
  | inr m ↦
      let nothing : declared_kind d ≡ none = rw (e, m, declared_kind) refl in
      absurd (cc (sym nothing ∙ h))
]
declared_case null d kind e h = absurd (cc (sym (undeclared d e refl) ∙ h))
declared_case (boolean b) d kind e h = absurd (cc (sym (undeclared d e refl) ∙ h))
declared_case (number s n m) d kind e h = absurd (cc (sym (undeclared d e refl) ∙ h))
declared_case (arr vs) d kind e h = absurd (cc (sym (undeclared d e refl) ∙ h))
declared_case (obj c) d kind e h = absurd (cc (sym (undeclared d e refl) ∙ h))

set_default-get :
    (k j : String) (v : Json) (d : Fields)
    → str_eq k j ≡ false
    → get j (set_default k v d) ≡ get j d
unfolding set_default
set_default-get k j v d h = elim (Bool-cases (has_key k d)) [
  | inl e ↦ rw (e, set_default) refl
  | inr e ↦ rw (e, set_default) (get-put_other k j v d h)
]

set_default-has_other :
    (k j : String) (v : Json) (d : Fields)
    → str_eq k j ≡ false
    → has_key j (set_default k v d) ≡ has_key j d
unfolding set_default
set_default-has_other k j v d h = elim (Bool-cases (has_key k d)) [
  | inl e ↦ rw (e, set_default) refl
  | inr e ↦ rw (e, set_default) (has_key-put_other k j v d h)
]

set_default-has :
    (k : String) (v : Json) (d : Fields) → str_eq k k ≡ true → has_key k (set_default k v d) ≡ true
unfolding set_default
set_default-has k v d h = elim (Bool-cases (has_key k d)) [
  | inl e ↦ rw (e, set_default) e
  | inr e ↦ rw (e, set_default) (has_key-put k v d h)
]

set_default-present :
    (k : String) (v : Json) (d : Fields) → has_key k d ≡ true → set_default k v d ≡ d
unfolding set_default
set_default-present k v d h = rw (h, set_default) refl

module _ (std : Stdlib) where
  classify-known : (d : Fields) → mem_text (classify_tool_error std d) error_kinds ≡ true
  unfolding classify_tool_error
  classify-known d = elim (Option-cases (declared_kind d)) [
    | inl e ↦
        rw (e, classify_tool_error)
          (kind_of_text-known
            (std.lower (str_or_empty std (or_else (get "error" d) (get "message" d)))))
    | inr (kind, e) ↦ rw (e, classify_tool_error) (declared_case (get "error_kind" d) d kind refl e)
  ]

  decorated-kind :
      (d : Fields) → get "error_kind" (decorated std d) ≡ str (classify_tool_error std d)
  unfolding decorated
  decorated-kind d =
      set_default-get "ps" "error_kind" _ _ refl
      ∙ get-put "error_kind" (str (classify_tool_error std d)) d refl

  classify-decorated :
      (d : Fields) → classify_tool_error std (decorated std d) ≡ classify_tool_error std d
  unfolding classify_tool_error
  classify-decorated d =
      let read =
        declared-read (decorated std d) (classify_tool_error std d) (decorated-kind d)
          (classify-known d) in
      rw (read, classify_tool_error) refl

  -- A result with a kind, before its hint.
  kinded : Fields → Fields
  kinded d = put "error_kind" (str (classify_tool_error std d)) d

  decorated-twice : (d : Fields) → decorated std (decorated std d) ≡ decorated std d
  unfolding decorated kinded
  decorated-twice d =
      let done = decorated std d in
      let first : Json = str (hint (classify_tool_error std d)) in
      let again : Json = str (hint (classify_tool_error std done)) in
      let kind =
        put-same "error_kind" (str (classify_tool_error std done)) done
          (set_default-has_other "ps" "error_kind" first (kinded d) refl
            ∙ has_key-put "error_kind" (str (classify_tool_error std d)) d refl)
          (decorated-kind d ∙ ap str (sym (classify-decorated d))) in
      ap (set_default "ps" again) kind
      ∙ set_default-present "ps" again done (set_default-has "ps" first (kinded d) refl)

  decorated-failed : (d : Fields) → get "ok" (decorated std d) ≡ get "ok" d
  unfolding decorated
  decorated-failed d =
      set_default-get "ps" "ok" _ _ refl
      ∙ get-put_other "error_kind" "ok" (str (classify_tool_error std d)) d refl

  -- Whether a dict is a failed result is told by its `ok`.
  is_failed-ok : (a b : Fields) → get "ok" a ≡ get "ok" b → is_failed (obj a) ≡ is_failed (obj b)
  unfolding is_failed get
  is_failed-ok a b e = ap (λ v. is_failed (obj (field "ok" v end))) e

  is_failed-dict : (v : Json) → is_failed (obj (dict_or_empty v)) ≡ is_failed v
  unfolding is_failed get
  is_failed-dict (obj d) = refl
  is_failed-dict null = refl
  is_failed-dict (boolean b) = refl
  is_failed-dict (number s n m) = refl
  is_failed-dict (str t) = refl
  is_failed-dict (arr vs) = refl

  decorated_result : Json → ToolResult
  decorated_result value = plain (obj (decorated std (dict_or_empty value)))

  decorate_failed :
      (result : ToolResult)
      → is_failed result.value ≡ true
      → decorate_tool_error_result std result ≡ decorated_result result.value
  unfolding decorate_tool_error_result decorated_result
  decorate_failed result h = rw (h, decorate_tool_error_result) refl

  still_failed : (v : Json) → is_failed v ≡ true → is_failed (decorated_result v).value ≡ true
  unfolding decorated_result
  still_failed v h =
      is_failed-ok (decorated std (dict_or_empty v)) (dict_or_empty v)
        (decorated-failed (dict_or_empty v))
      ∙ is_failed-dict v
      ∙ h

  -- A failed result stays a failed one, has a kind that is one of the known ones, and is not changed
  -- any more when it is decorated again.
  pub decorate-Known :
      (result : ToolResult)
      → is_failed result.value ≡ true
      → let done = decorate_tool_error_result std result in
        (is_failed done.value ≡ true)
        × ((kind : Text) × (get "error_kind" (dict_or_empty done.value) ≡ str kind)
            × (mem_text kind error_kinds ≡ true))
        × (decorate_tool_error_result std done ≡ done)
  unfolding decorated_result
  decorate-Known result h =
      let e = decorate_failed result h in
      let d = dict_or_empty result.value in
      let failed = still_failed result.value h in
      (
        ap (λ r. is_failed r.value) e ∙ failed,
        (
          classify_tool_error std d,
          ap (λ r. get "error_kind" (dict_or_empty r.value)) e ∙ decorated-kind d,
          classify-known d,
        ),
        ap (decorate_tool_error_result std) e
            ∙ decorate_failed (decorated_result result.value) failed
            ∙ ap (λ f. plain (obj f)) (decorated-twice d)
            ∙ sym e,
      )
