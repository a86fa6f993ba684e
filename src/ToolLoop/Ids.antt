-- ===== src/ToolLoop/Ids.antt =====
-- The ids that tool_loop.py gives to the calls of a batch.
use shenyugateway.Common.{
  ℕ, suc, Bool, true, false, not, List, [], ◌∷◌, ◌≡◌, refl, ap, ◌∙◌, arith, inl, inr, map, all,
  Bool-cases, if◌then◌else◌,
}
use shenyugateway.Text.{Text, codes, is_empty}
use shenyugateway.Json.{
  Json, null, boolean, number, str, arr, obj, Fields, get, put, truthy, to_str,
}
use shenyugateway.Json.Dicts.{get-put, get-put_other}
use shenyugateway.Registry.Arguments.{has_key}
use shenyugateway.ToolLoop.Errors.{set_default}
use shenyugateway.ToolLoop.State.{Context}
use shenyugateway.ToolLoop.Mixed.{with_function, ensure_tool_call_id, ensure_ids, ids_of}

unfoldable pub has_id : Fields → Bool
has_id call = truthy (get "id" call)

function_case :
    (v : Json) (call : Fields)
    → get "function" call ≡ v
    → get "id" (with_function call) ≡ get "id" call
unfolding with_function
function_case (obj d) call e = rw (e, with_function) refl
function_case null call e = rw (e, with_function) (get-put_other "function" "id" _ call refl)
function_case (boolean b) call e = rw (e, with_function) (get-put_other "function" "id" _ call refl)
function_case (number s n m) call e =
    rw (e, with_function) (get-put_other "function" "id" _ call refl)
function_case (str t) call e = rw (e, with_function) (get-put_other "function" "id" _ call refl)
function_case (arr vs) call e = rw (e, with_function) (get-put_other "function" "id" _ call refl)

with_function-id : (call : Fields) → get "id" (with_function call) ≡ get "id" call
with_function-id call = function_case (get "function" call) call refl

set_default-id :
    (call : Fields) → get "id" (set_default "type" (str (codes "function")) call) ≡ get "id" call
unfolding set_default
set_default-id call = elim (Bool-cases (has_key "type" call)) [
  | inl e ↦ rw (e, set_default) refl
  | inr e ↦ rw (e, set_default) (get-put_other "type" "id" _ call refl)
]

module _ {W : Type 0} (ctx : Context W) where
  abbrev pub id_text : Fields → Text
  id_text call = to_str ctx.std (get "id" call)

  given :
      (drawn : (i : ℕ) → is_empty (ctx.new_call_id i) ≡ false)
      → (i : ℕ) (call : Fields)
      → truthy (
          get "id"
            (if truthy (get "id" call) then call else put "id" (str (ctx.new_call_id i)) call))
        ≡ true
  given drawn i call = elim (Bool-cases (truthy (get "id" call))) [
    | inl e ↦ rw e e
    | inr e ↦ rw e (ap truthy (get-put "id" (str (ctx.new_call_id i)) call refl) ∙ ap not (drawn i))
  ]

  -- Ids are given to the calls that have none.
  id_case :
      (drawn : (i : ℕ) → is_empty (ctx.new_call_id i) ≡ false)
      → (i : ℕ) (call : Fields) → truthy (get "id" (ensure_tool_call_id ctx call i)) ≡ true
  unfolding ensure_tool_call_id
  id_case drawn i call =
      let identified =
        if truthy (get "id" call) then call else put "id" (str (ctx.new_call_id i)) call in
      let kept =
        with_function-id (set_default "type" (str (codes "function")) identified)
        ∙ set_default-id identified in
      ap truthy kept ∙ given drawn i call

  pub ensure_ids-all :
      (drawn : (i : ℕ) → is_empty (ctx.new_call_id i) ≡ false)
      → (i : ℕ) (calls : List Fields) → all has_id (ensure_ids ctx i calls) ≡ true
  unfolding all ensure_ids has_id
  ensure_ids-all drawn i [] = refl
  ensure_ids-all drawn i (call ∷ calls) =
      rw (id_case drawn i call) (ensure_ids-all drawn (suc i) calls)

  pub ids_of-all :
      (calls : List Fields) → all has_id calls ≡ true → ids_of ctx calls ≡ map id_text calls
  unfolding all ids_of has_id
  ids_of-all [] h = refl
  ids_of-all (call ∷ calls) h =
      let here : truthy (get "id" call) ≡ true = ground (arith, h) in
      let rest : all has_id calls ≡ true = ground (arith, h) in
      rw (here, ids_of) (ap (◌∷◌ (id_text call)) (ids_of-all calls rest))
