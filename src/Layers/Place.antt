-- ===== src/Layers/Place.antt =====
-- `_slide_off_tool_transcript` of context_layers.py: where the memory island may stand.
use shenyugateway.Common.{
  ℕ, zero, suc, ◌-◌, ◌≤◌, ◌<◌, Bool, true, false, ◌&&◌, ◌||◌, List, ◌==◌, ltb, ◌≡◌, inl, inr, refl,
  arith, if◌then◌else◌, length, holds_at, holds_at-excludes, holds_at_past, Bool-cases,
}
use shenyugateway.Json.{Message, get, truthy, has_role}
use shenyugateway.Layers.Calls.{tool_no_assistant}

-- An assistant's message with calls.
unfoldable pub calls_tools : Message → Bool
calls_tools m = has_role "assistant" m && truthy (get "tool_calls" m)

-- The loop that goes back from an index over the results, and over the message that called them.
unfoldable pub slide_back : List Message → ℕ → ℕ
unfolding calls_tools
slide_back messages zero = 0
slide_back messages (suc i) =
    let before = slide_back messages i in
    if holds_at (has_role "tool") messages i
    then before
    else if holds_at calls_tools messages i
    then i
    else suc i

unfoldable pub slide_off_tool_transcript : List Message → ℕ → ℕ
unfolding slide_back calls_tools
slide_off_tool_transcript messages index =
    if index == 0
    then 0
    else if ltb (length messages) index
    then length messages
    else if index == length messages
    then (if holds_at calls_tools messages (index - 1) then index - 1 else index)
    else if holds_at (has_role "tool") messages index
    then slide_back messages index
    else index

-- Whether an index parts a tool's result from its call or from the results before it.
unfoldable pub parts_results : List Message → ℕ → Bool
parts_results messages zero = false
parts_results messages (suc i) =
    holds_at (has_role "tool") messages (suc i)
    && (holds_at (has_role "tool") messages i || holds_at calls_tools messages i)

-- Whether a message would stand between calls at the end and the results that they wait for.
unfoldable pub parts_end : List Message → ℕ → Bool
parts_end messages zero = false
parts_end messages (suc i) = suc i == length messages && holds_at calls_tools messages i

parts_results-no_tool :
    (ms : List Message) (i : ℕ)
    → holds_at (has_role "tool") ms i ≡ false
    → parts_results ms i ≡ false
unfolding parts_results
parts_results-no_tool ms zero e = refl
parts_results-no_tool ms (suc i) e = rw e refl

slide_back-le : (ms : List Message) (i : ℕ) → slide_back ms i ≤ i
unfolding slide_back
slide_back-le ms zero = omega arith
slide_back-le ms (suc i) = let rest = slide_back-le ms i in ground arith

slide_back-whole : (ms : List Message) (i : ℕ) → parts_results ms (slide_back ms i) ≡ false
unfolding slide_back parts_results
slide_back-whole ms zero = refl
slide_back-whole ms (suc i) = elim (Bool-cases (holds_at (has_role "tool") ms i)) [
  | inl t ↦ rw (t, slide_back) (slide_back-whole ms i)
  | inr t ↦ elim (Bool-cases (holds_at calls_tools ms i)) [
    | inl c ↦ rw (t, c, slide_back) (parts_results-no_tool ms i t)
    | inr c ↦
        let z : (holds_at (has_role "tool") ms (suc i) && false) ≡ false = ground arith in
        rw (t, c, slide_back, parts_results) (rw (t, c) z)
  ]
]

parts_end-inside : (ms : List Message) (i : ℕ) → i < length ms → parts_end ms i ≡ false
unfolding parts_end
parts_end-inside ms zero h = refl
parts_end-inside ms (suc i) h = ground arith

calls_no_tool : (m : Message) → calls_tools m ≡ true → has_role "tool" m ≡ false
unfolding calls_tools
calls_no_tool m h = elim (Bool-cases (has_role "tool" m)) [
  | inl t ↦ let z = tool_no_assistant m t in ground arith
  | inr t ↦ t
]

-- An index that parts nothing.
abbrev Whole : List Message → ℕ → ℕ → Type 0
Whole ms i r = (r ≤ i) × (parts_results ms r ≡ false) × (parts_end ms r ≡ false)

slide_at_end :
    (ms : List Message) (i : ℕ)
    → suc i ≡ length ms
    → Whole ms (suc i) (if holds_at calls_tools ms i then i else suc i)
unfolding parts_end
slide_at_end ms i e = elim (Bool-cases (holds_at calls_tools ms i)) [
  | inl c ↦ rw c (
    omega arith,
    parts_results-no_tool ms i
        (holds_at-excludes calls_tools (has_role "tool") calls_no_tool i ms c),
    parts_end-inside ms i (omega arith),
  )
  | inr c ↦ rw (c) (
    omega arith,
    parts_results-no_tool ms (suc i) (holds_at_past (has_role "tool") (suc i) ms (omega arith)),
    ground arith,
  )
]

pub slide_off_tool_transcript-Whole :
    (ms : List Message) (i : ℕ) → i ≤ length ms → Whole ms i (slide_off_tool_transcript ms i)
unfolding slide_off_tool_transcript parts_results parts_end
slide_off_tool_transcript-Whole ms zero h = (omega arith, refl, refl)
slide_off_tool_transcript-Whole ms (suc i) h =
    let z : (suc i == 0) ≡ false = ground arith in
    let y : ltb (length ms) (suc i) ≡ false = ground arith in
    elim (Bool-cases (suc i == length ms)) [
      | inl e ↦
          let x : suc i - 1 ≡ i = omega arith in
          rw (z, y, e, x, slide_off_tool_transcript) (slide_at_end ms i (ground arith))
      | inr e ↦
          let lt : suc i < length ms = ground arith in
          elim (Bool-cases (holds_at (has_role "tool") ms (suc i))) [
            | inl t ↦
                let le = slide_back-le ms (suc i) in
                rw (z, y, e, t, slide_off_tool_transcript)
                  (
                    le,
                    slide_back-whole ms (suc i),
                    parts_end-inside ms (slide_back ms (suc i)) (omega arith),
                  )
            | inr t ↦
                rw (z, y, e, t, slide_off_tool_transcript)
                  (omega arith, parts_results-no_tool ms (suc i) t, parts_end-inside ms (suc i) lt)
          ]
    ]
