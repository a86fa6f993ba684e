-- ===== src/Layers/Settled.antt =====
-- Where the scan of `tool_safe_trim_start` in context_layers.py settles: never on a tool's result
-- whose call is left out.
use shenyugateway.Common.{
  ℕ, zero, suc, ◌+◌, ◌-◌, ◌≤◌, ◌<◌, Bool, true, false, not, ◌&&◌, ◌||◌, none, some, List, [], ◌∷◌,
  ◌++◌, ◌==◌, ◌≡◌, ◌⊎◌, inl, inr, refl, sym, ap, ◌∙◌, arith, length, take, drop, holds_at,
  holds_at-drop, drop-suc, holds_at_past, holds_at-excludes, drop-add, take-suc, Bool-cases,
  Option-cases, length-drop,
}
use native.Mathlib.Decide.{ℕ_discrete, dec_lt}
use shenyugateway.Text.{Text}
use shenyugateway.Json.{Message, get, truthy, has_role, Stdlib}
use shenyugateway.Window.Classify.{is_nonempty}
use shenyugateway.Layers.Turns.{
  user_before, tool_turn_start, leading_tools, settled, tool_call_ids, call_before, all_answered,
  scan_calls, scan_from,
}
use shenyugateway.Layers.Calls.{is_result, user_no_tool}

module _ (std : Stdlib) where
  -- Every result that names a call has the call before it, `before` and `ms` being the messages.
  unfoldable pub no_orphans : List Message → List Message → Bool
  unfolding call_before is_result
  no_orphans before [] = true
  no_orphans before (m ∷ ms) =
      (not (is_result std m)
        || (elim (call_before std (get "tool_call_id" m) before) [ none ↦ false | some i ↦ true ]))
      && no_orphans (before ++ m ∷ []) ms

  abbrev NoResults : List Message → ℕ → ℕ → Type 0
  NoResults ms start i = (k : ℕ) → start ≤ k → k < i → holds_at (is_result std) ms k ≡ false

  NoResults-suc :
      (ms : List Message) (start i : ℕ)
      → NoResults ms start i
      → holds_at (is_result std) ms i ≡ false
      → NoResults ms start (suc i)
  NoResults-suc ms start i q here k le lt = elim (ℕ_discrete k i) [
    | yes e ↦ rw e here
    | no ne ↦ q k le (omega arith)
  ]

  pub no_result : (m : Message) → has_role "tool" m ≡ false → is_result std m ≡ false
  unfolding is_result
  no_result m h = ground arith

  user_before-at :
      (ms : List Message) (i : ℕ)
      → user_before ms i ≡ true
      → (0 < i) × (holds_at (has_role "user") ms (i - 1) ≡ true)
  unfolding user_before
  user_before-at [] i e = cc e
  user_before-at (m ∷ ms) zero e = cc e
  user_before-at (m ∷ ms) (suc zero) e = (omega arith, e)
  user_before-at (m ∷ ms) (suc (suc i)) e =
      let (lt, at) = user_before-at ms (suc i) e in
      let z : suc (suc i) - 1 ≡ suc i = omega arith in
      let z' : suc i - 1 ≡ i = omega arith in (omega arith, rw (z) (rw z' at at))

  leading_tools-after :
      (ms : List Message)
      → (drop (length (leading_tools ms)) ms ≡ [])
        ⊎ ((m : Message) × (rest : List Message) × (drop (length (leading_tools ms)) ms ≡ m ∷ rest)
            × (has_role "tool" m ≡ false))
  unfolding leading_tools
  leading_tools-after [] = inl refl
  leading_tools-after (m ∷ ms) = elim (Bool-cases (has_role "tool" m)) [
    | inl t ↦ rw (t, leading_tools) (leading_tools-after ms)
    | inr t ↦ rw (t, leading_tools) (inr (m, ms, refl, t))
  ]

  leading_tools-le : (ms : List Message) → length (leading_tools ms) ≤ length ms
  unfolding leading_tools
  leading_tools-le [] = omega arith
  leading_tools-le (m ∷ ms) = let rest = leading_tools-le ms in ground arith

  -- What a scan settles for.
  abbrev pub Sound : List Message → ℕ → Type 0
  Sound ms r = (r ≤ length ms) × (holds_at (is_result std) ms r ≡ false)

  turn_start-Sound :
      (ms : List Message) (i : ℕ)
      → i ≤ length ms
      → holds_at (is_result std) ms i ≡ false
      → Sound ms (tool_turn_start ms i)
  unfolding tool_turn_start is_result
  turn_start-Sound ms i le here = elim (Bool-cases (user_before ms i)) [
    | inl u ↦
        let (lt, at) = user_before-at ms i u in
        rw u (
          omega arith,
          holds_at-excludes (has_role "user") (is_result std)
              (λ m h. no_result m (user_no_tool m h)) (i - 1) ms at,
        )
    | inr u ↦ rw u (le, here)
  ]

  after_tools-Sound :
      (ms : List Message) (i : ℕ) (m : Message) (rest : List Message)
      → drop i ms ≡ m ∷ rest
      → Sound ms (i + 1 + length (leading_tools rest))
  after_tools-Sound ms i m rest at =
      let n = length (leading_tools rest) in
      let short = leading_tools-le rest in
      let len : length ms - i ≡ suc (length rest) = sym (length-drop i ms) ∙ ap length at in
      let at' : drop (i + 1 + n) ms ≡ drop n rest =
        drop-add (i + 1) n ms
        ∙ ap (drop n) (let z : i + 1 ≡ suc i = omega arith in rw z (drop-suc i ms rest m at)) in
      let bound : i + 1 + n ≤ length ms = omega (arith, len, short) in
      elim (leading_tools-after rest) [
        | inl nothing ↦
            let left : length ms - (i + 1 + n) ≡ 0 =
              sym (length-drop (i + 1 + n) ms) ∙ ap length (at' ∙ nothing) in
            (bound, holds_at_past (is_result std) (i + 1 + n) ms (omega arith))
        | inr (m', rest', more, other) ↦ (
          bound,
          holds_at-drop (is_result std) (i + 1 + n) ms rest' m' (at' ∙ more) ∙ no_result m' other,
        )
      ]

  drop-bound : (ms rest : List Message) (i : ℕ) (m : Message) → drop i ms ≡ m ∷ rest → i < length ms
  drop-bound ms rest i m at =
      let len : length ms - i ≡ suc (length rest) = sym (length-drop i ms) ∙ ap length at in
      omega (arith, len)

  scan_calls-Sound :
      (ms : List Message) (start i : ℕ) (m : Message) (rest : List Message) (ids : List Text)
      (r : ℕ)
      → drop i ms ≡ m ∷ rest
      → start ≤ i
      → has_role "tool" m ≡ false
      → NoResults ms start i
      → scan_calls std ms start i ids rest ≡ settled r
      → Sound ms r
  unfolding scan_calls
  scan_calls-Sound ms start i m rest ids r at le other none_yet e =
      let bound = drop-bound ms rest i m at in
      let here = holds_at-drop (is_result std) i ms rest m at ∙ no_result m other in
      elim (Bool-cases (all_answered std ids (leading_tools rest))) [
        | inl a ↦ elim (Bool-cases (i == start)) [
          | inl same ↦
              let z : tool_turn_start ms i ≡ r = cc (rw (a, same, scan_calls) at e) in
              rw (← z) (turn_start-Sound ms i (omega arith) here)
          | inr new ↦
              let z : start ≡ r = cc (rw (a, new, scan_calls) at e) in
              let ne : start < i = ground arith in
              rw (← z) (omega arith, none_yet start (omega arith) ne)
        ]
        | inr a ↦
            let z : i + 1 + length (leading_tools rest) ≡ r = cc (rw (a, scan_calls) at e) in
            rw (← z) (after_tools-Sound ms i m rest at)
      ]

  -- A scan that settles, settles for no result.
  pub scan_from-Sound :
      (ms : List Message) (start i : ℕ) (rest : List Message) (r : ℕ)
      → drop i ms ≡ rest
      → start ≤ i
      → i ≤ length ms
      → no_orphans (take i ms) rest ≡ true
      → NoResults ms start i
      → scan_from std ms start i rest ≡ settled r
      → Sound ms r
  unfolding scan_from no_orphans is_result
  scan_from-Sound ms start i [] r at le bound ok none_yet e =
      let z : start ≡ r = cc e in
      rw (← z) (elim (dec_lt start i) [
        | yes h ↦ (omega arith, none_yet start (omega arith) h)
        | no h ↦
            let end : length ms - i ≡ 0 = sym (length-drop i ms) ∙ ap length at in
            (omega arith, holds_at_past (is_result std) start ms (omega arith))
      ])
  scan_from-Sound ms start i (m ∷ rest) r at le bound ok none_yet e =
      let here = holds_at-drop (is_result std) i ms rest m at in
      let in_ms = drop-bound ms rest i m at in
      let ok_rest : no_orphans (take (suc i) ms) rest ≡ true =
        rw (take-suc i ms rest m at) (ground arith) in
      let on : is_result std m ≡ false
          → scan_from std ms start (suc i) rest ≡ settled r
          → Sound ms r =
        λ other e'.
          scan_from-Sound ms start (suc i) rest r (drop-suc i ms rest m at) (omega arith)
            (omega arith) ok_rest (NoResults-suc ms start i none_yet (here ∙ other)) e' in
      elim (Bool-cases (has_role "tool" m)) [
        | inl tool ↦ elim (Bool-cases (truthy (get "tool_call_id" m))) [
          | inl named ↦ elim (Option-cases (call_before std (get "tool_call_id" m) (take i ms))) [
            | inl n ↦ absurd (ground (arith, n))
            | inr (p, n) ↦ absurd (cc (rw (tool, named, n, scan_from) at e))
          ]
          | inr named ↦ on (ground arith) (rw (tool, named, scan_from) at e)
        ]
        | inr tool ↦
            elim (Bool-cases (has_role "assistant" m && is_nonempty (tool_call_ids std m))) [
              | inl calls ↦
                  scan_calls-Sound ms start i m rest _ r at le tool none_yet
                    (rw (tool, calls, scan_from) at e)
              | inr calls ↦ on (no_result m tool) (rw (tool, calls, scan_from) at e)
            ]
      ]
