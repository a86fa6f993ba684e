-- ===== src/Layers/Calls.antt =====
-- The scan of `tool_safe_trim_start` in context_layers.py: when it begins again, it begins earlier.
use shenyugateway.Common.{
  ℕ, zero, suc, ◌≤◌, ◌<◌, Bool, true, false, not, ◌&&◌, ◌||◌, some, List, [], ◌∷◌, ◌≡◌, ◌≢◌, inl,
  inr, refl, ◌∙◌, arith, take, drop, all, holds_at, holds_at-drop, drop-suc, Bool-cases,
  Option-cases,
}
use native.Mathlib.Decide.{ℕ_discrete, dec_lt}
use shenyugateway.Text.{Text, text_eq, mem_text, codes}
use shenyugateway.Text.Affixes.{eq_of_text_eq}
use shenyugateway.Json.{Json, str, is_text, Message, get, truthy, has_role, Stdlib}
use shenyugateway.Window.Classify.{is_nonempty}
use shenyugateway.Layers.Turns.{
  is_among, tool_turn_start, again, tool_call_ids, call_before, scan_calls, scan_from,
}

-- A value that is one text is no other.
pub is_text_other :
    (a b : Text) (v : Json) → text_eq a b ≡ false → is_text a v ≡ true → is_text b v ≡ false
is_text_other a b (str t) other same = rw (eq_of_text_eq t a same) other
is_text_other a b v other same = absurd (cc same)

pub user_no_tool : (m : Message) → has_role "user" m ≡ true → has_role "tool" m ≡ false
unfolding has_role
user_no_tool m h = is_text_other (codes "user") (codes "tool") (get "role" m) refl h

pub assistant_no_tool : (m : Message) → has_role "assistant" m ≡ true → has_role "tool" m ≡ false
unfolding has_role
assistant_no_tool m h = is_text_other (codes "assistant") (codes "tool") (get "role" m) refl h

pub tool_no_assistant : (m : Message) → has_role "tool" m ≡ true → has_role "assistant" m ≡ false
unfolding has_role
tool_no_assistant m h = is_text_other (codes "tool") (codes "assistant") (get "role" m) refl h

pub is_among-nonempty :
    (id : Json) (ids : List Text) → is_among id ids ≡ true → is_nonempty ids ≡ true
unfolding is_among mem_text
is_among-nonempty (str t) [] h = cc h
is_among-nonempty v (i ∷ ids) h = refl
is_among-nonempty v [] h = absurd (cc h)

pub tool_turn_start-le : (ms : List Message) (i : ℕ) → tool_turn_start ms i ≤ i
unfolding tool_turn_start
tool_turn_start-le ms i = ground arith

module _ (std : Stdlib) where
  pub has_calls : Message → Bool
  has_calls m = is_nonempty (tool_call_ids std m)

  -- A result that names its call.
  unfoldable pub is_result : Message → Bool
  is_result m = has_role "tool" m && truthy (get "tool_call_id" m)

  -- Only assistants call tools.
  unfoldable pub is_caller_ok : Message → Bool
  is_caller_ok m = has_role "assistant" m || not (is_nonempty (tool_call_ids std m))

  call_before-at :
      (id : Json) (ms : List Message) (i p : ℕ)
      → call_before std id (take i ms) ≡ some p
      → (p < i) × (holds_at has_calls ms p ≡ true)
  unfolding call_before has_calls
  call_before-at id ms zero p e = absurd (cc e)
  call_before-at id [] (suc i) p e = absurd (cc e)
  call_before-at id (m ∷ ms) (suc i) p e = elim (Option-cases (call_before std id (take i ms))) [
    | inl n ↦
        let e' = rw n at e in
        elim (Bool-cases (is_among id (tool_call_ids std m))) [
          | inl a ↦
              let z : 0 ≡ p = cc (rw a at e') in
              rw (← z) (omega arith, is_among-nonempty id (tool_call_ids std m) a)
          | inr a ↦ absurd (cc (rw a at e'))
        ]
    | inr (q, n) ↦
        let (lt, calls) = call_before-at id ms i q n in
        let z : suc q ≡ p = cc (rw n at e) in rw (← z) (omega arith, calls)
  ]

  -- No message from `start` on and before `i` calls a tool.
  abbrev Quiet : List Message → ℕ → ℕ → Type 0
  Quiet ms start i = (k : ℕ) → start ≤ k → k < i → holds_at has_calls ms k ≡ false

  Quiet-suc :
      (ms : List Message) (start i : ℕ)
      → Quiet ms start i
      → holds_at has_calls ms i ≡ false
      → Quiet ms start (suc i)
  Quiet-suc ms start i q here k le lt = elim (ℕ_discrete k i) [
    | yes e ↦ rw e here
    | no ne ↦ q k le (omega arith)
  ]

  no_calls :
      (m : Message) → is_caller_ok m ≡ true → has_role "assistant" m ≡ false → has_calls m ≡ false
  unfolding is_caller_ok has_calls
  no_calls m ok other = ground arith

  quiet_here :
      (m : Message)
      → is_caller_ok m ≡ true
      → (has_role "assistant" m && is_nonempty (tool_call_ids std m)) ≡ false
      → has_calls m ≡ false
  unfolding is_caller_ok has_calls
  quiet_here m ok other = ground arith

  scan_calls-settled :
      (ms : List Message) (start i : ℕ) (ids : List Text) (rest : List Message) (r : ℕ)
      → scan_calls std ms start i ids rest ≢ again r
  unfolding scan_calls
  scan_calls-settled ms start i ids rest r e = ground arith

  -- A scan that begins again begins earlier.
  pub scan_from-again :
      (ms : List Message) (start i : ℕ) (rest : List Message) (r : ℕ)
      → drop i ms ≡ rest
      → start ≤ i
      → all is_caller_ok rest ≡ true
      → Quiet ms start i
      → scan_from std ms start i rest ≡ again r
      → r < start
  unfolding scan_from all
  scan_from-again ms start i [] r at le ok quiet e = absurd (cc e)
  scan_from-again ms start i (m ∷ rest) r at le ok quiet e =
      let ok_here : is_caller_ok m ≡ true = ground arith in
      let ok_rest : all is_caller_ok rest ≡ true = ground arith in
      let here = holds_at-drop has_calls i ms rest m at in
      let on : has_role "assistant" m ≡ false
          → scan_from std ms start (suc i) rest ≡ again r
          → r < start =
        λ other e'.
          scan_from-again ms start (suc i) rest r (drop-suc i ms rest m at) (omega arith) ok_rest
            (Quiet-suc ms start i quiet (here ∙ no_calls m ok_here other)) e' in
      elim (Bool-cases (has_role "tool" m)) [
        | inl tool ↦ elim (Bool-cases (truthy (get "tool_call_id" m))) [
          | inl named ↦ elim (Option-cases (call_before std (get "tool_call_id" m) (take i ms))) [
            | inl n ↦ absurd (cc (rw (tool, named, n, scan_from) at e))
            | inr (p, n) ↦
                let (lt, calls) = call_before-at (get "tool_call_id" m) ms i p n in
                let z : tool_turn_start ms p ≡ r = cc (rw (tool, named, n, scan_from) at e) in
                let back = tool_turn_start-le ms p in
                elim (dec_lt p start) [
                  | yes h ↦ omega (arith, z, back, h)
                  | no h ↦ absurd (cc (calls, quiet p (omega arith) lt))
                ]
          ]
          | inr named ↦ on (tool_no_assistant m tool) (rw (tool, named, scan_from) at e)
        ]
        | inr tool ↦
            elim (Bool-cases (has_role "assistant" m && is_nonempty (tool_call_ids std m))) [
              | inl calls ↦
                  absurd (scan_calls-settled ms start i _ rest r (rw (tool, calls, scan_from) at e))
              | inr calls ↦
                  scan_from-again ms start (suc i) rest r (drop-suc i ms rest m at) (omega arith)
                    ok_rest (Quiet-suc ms start i quiet (here ∙ quiet_here m ok_here calls))
                    (rw (tool, calls, scan_from) at e)
            ]
      ]
