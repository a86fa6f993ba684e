-- ===== src/ToolLoop/Shaped.antt =====
-- What tool_loop.py writes into the first choice of a completion.
use text.Mathlib.Text.{◌==◌ as str_eq}
use shenyugateway.Common.{String, true, List, ◌≡◌, refl, ap, ◌∙◌, arith, inl, inr, Bool-cases}
use shenyugateway.Json.{str, arr, obj, Items, cons, Fields, end, field, get, put, dict_or_empty}
use shenyugateway.Json.Dicts.{get-put}
use shenyugateway.Registry.Arguments.{has_key}
use shenyugateway.Upstream.Normal.{normalize_text}
use shenyugateway.ToolLoop.Calls.{reply_choice, first_message, with_first_choice, with_message}
use shenyugateway.ToolLoop.State.{Context}
use shenyugateway.ToolLoop.Mixed.{call_list, with_calls}

has_key-get : (k : String) (d m : Fields) → get k d ≡ obj m → has_key k d ≡ true
unfolding get has_key
has_key-get k end m h = absurd (cc h)
has_key-get k (field i u d) m h = elim (Bool-cases (str_eq i k)) [
  | inl e ↦ rw e refl
  | inr e ↦ let here : get k d ≡ obj m = ground (arith, e, h) in rw (e, has_key-get k d m here) refl
]

-- A completion whose first choice has this message.
abbrev pub Shaped : Fields → Fields → Type 0
Shaped completion message =
    (choice : Fields) × (rest : Items) × (get "choices" completion ≡ arr (cons (obj choice) rest))
    × (get "message" choice ≡ obj message)

pub first_message-Shaped :
    (completion message : Fields) → Shaped completion message → first_message completion ≡ message
unfolding first_message reply_choice
first_message-Shaped completion message (choice, rest, e, f) =
    rw (e, reply_choice) (ap dict_or_empty f)

with_message-Shaped :
    (change : Fields → Fields) (completion message : Fields)
    → Shaped completion message
    → Shaped (with_message change completion) (change message)
unfolding with_message with_first_choice
with_message-Shaped change completion message (choice, rest, e, f) = (
  put "message" (obj (change message)) choice,
  rest,
  rw (e, has_key-get "message" choice message f, with_first_choice)
      (get-put "choices" _ completion refl
        ∙ ap (λ m. arr (cons (obj (put "message" (obj (change (dict_or_empty m))) choice)) rest))
            f),
  get-put "message" (obj (change message)) choice refl,
)

module _ {W : Type 0} (ctx : Context W) where
  pub with_calls-Shaped :
      (calls : List Fields) (completion message : Fields)
      → Shaped completion message
      → Shaped (with_calls ctx calls completion) (
          put "tool_calls"
            (call_list calls)
            (put "content" (str (normalize_text ctx.std (get "content" message))) message))
  unfolding with_calls
  with_calls-Shaped calls completion message h =
      with_message-Shaped
        (λ m.
          put "tool_calls" (call_list calls)
            (put "content" (str (normalize_text ctx.std (get "content" m))) m))
        completion message h

  pub with_calls-calls :
      (calls : List Fields) (completion message : Fields)
      → Shaped completion message
      → get "tool_calls" (first_message (with_calls ctx calls completion)) ≡ call_list calls
  with_calls-calls calls completion message h =
      ap (get "tool_calls") (
        first_message-Shaped (with_calls ctx calls completion) _
          (with_calls-Shaped calls completion message h))
      ∙ get-put "tool_calls" (call_list calls) _ refl
