-- ===== src/Layers/Trim.antt =====
-- `trim_client_messages` of context_layers.py keeps the system messages and an end of the others.
use shenyugateway.Common.{
  all-take, ℕ, zero, suc, ◌+◌, ◌-◌, ◌≤◌, ◌<◌, true, false, ◌||◌, Option, none, some, List, [], ◌∷◌,
  ◌++◌, ◌==◌, leb, ◌≡◌, ◌⊎◌, inl, inr, refl, sym, ap, ◌∙◌, arith, length, take, drop, all, holds_at,
  holds_at-excludes, holds_at-take, drop-take-append, Bool-cases, Option-cases, length-drop,
  length-take,
}
use native.Mathlib.Decide.{dec_lt}
use shenyugateway.Json.{Message, has_role, Stdlib}
use shenyugateway.Json.{Message}
use shenyugateway.Window.Bridge.{insert_at}
use shenyugateway.Window.Select.{Limit, positive}
use shenyugateway.Layers.Turns.{
  is_complete_turn, latest_complete_tool_turn_start, Trimmed, kept_whole, kept_part, trimmed_at,
  trimmed_if, scanned_history, trim_client_messages,
}
use shenyugateway.Layers.Calls.{is_caller_ok, is_result, assistant_no_tool}
use shenyugateway.Layers.Settled.{no_orphans, no_result, Sound}
use shenyugateway.Layers.Start.{start_found}

module _ (std : Stdlib) where
  no_orphans-take :
      (n : ℕ) (before ms : List Message)
      → no_orphans std before ms ≡ true
      → no_orphans std before (take n ms) ≡ true
  unfolding no_orphans
  no_orphans-take zero before ms h = refl
  no_orphans-take (suc n) before [] h = refl
  no_orphans-take (suc n) before (m ∷ ms) h =
      let rest = no_orphans-take n (before ++ m ∷ []) ms (ground arith) in ground arith

  latest-holds_at :
      (ms : List Message) (l : ℕ)
      → latest_complete_tool_turn_start std ms ≡ some l
      → (l < length ms) × (holds_at (has_role "assistant") ms l ≡ true)
  unfolding latest_complete_tool_turn_start is_complete_turn
  latest-holds_at [] l e = absurd (cc e)
  latest-holds_at (m ∷ ms) l e = elim (Option-cases (latest_complete_tool_turn_start std ms)) [
    | inl n ↦ elim (Bool-cases (is_complete_turn std m ms)) [
      | inl c ↦
          let z : 0 ≡ l = cc (rw (n, c, latest_complete_tool_turn_start) at e) in
          rw (← z) (omega arith, ground arith)
      | inr c ↦ absurd (cc (rw (n, c, latest_complete_tool_turn_start) at e))
    ]
    | inr (k, n) ↦
        let (lt, at) = latest-holds_at ms k n in
        let z : suc k ≡ l = cc (rw (n, latest_complete_tool_turn_start) at e) in
        rw (← z) (omega arith, at)
  ]

  -- The messages after the system messages, from a start that is no result without its call.
  pub KeepsEnd : List Message → Trimmed std → Type 0
  KeepsEnd messages t =
      (start : ℕ) × (t.messages
        ≡ take (insert_at messages) messages ++ drop start (drop (insert_at messages) messages))
      × Sound std (drop (insert_at messages) messages) start
      × (t.retained ≡ length t.messages)
      × (t.trim_start ≡ some (insert_at messages + start))

  trimmed_KeepsEnd :
      (messages : List Message) (latest : Option ℕ) (r : ℕ)
      → latest_complete_tool_turn_start std (drop (insert_at messages) messages) ≡ latest
      → Sound std (scanned_history std latest (drop (insert_at messages) messages)) r
      → KeepsEnd messages (trimmed_at std messages latest r)
  unfolding KeepsEnd trimmed_at kept_part scanned_history
  trimmed_KeepsEnd messages none r e (bound, free) = (r, refl, (bound, free), refl, refl)
  trimmed_KeepsEnd messages (some l) r e (bound, free) =
      let ns = drop (insert_at messages) messages in
      let (lt, at) = latest-holds_at ns l e in
      let len = length-take l ns in
      let le : r ≤ l = omega arith in
      let safe : holds_at (is_result std) ns r ≡ false = elim (dec_lt r l) [
        | yes h ↦ sym (holds_at-take (is_result std) r l ns h) ∙ free
        | no h ↦
            let z : r ≡ l = omega arith in
            rw z (
              holds_at-excludes (has_role "assistant") (is_result std)
                (λ m a. no_result std m (assistant_no_tool m a)) l ns at)
      ] in
      (
        r,
        ap (◌++◌ (take (insert_at messages) messages)) (drop-take-append r l ns le),
        (omega arith, safe),
        refl,
        refl,
      )

  history_ok :
      (latest : Option ℕ) (ns : List Message)
      → all (is_caller_ok std) ns ≡ true
      → no_orphans std [] ns ≡ true
      → (all (is_caller_ok std) (scanned_history std latest ns) ≡ true)
        × (no_orphans std [] (scanned_history std latest ns) ≡ true)
        × (length (scanned_history std latest ns) ≤ length ns)
  unfolding scanned_history
  history_ok none ns ok known = (ok, known, omega arith)
  history_ok (some l) ns ok known =
      let len = length-take l ns in
      (all-take (is_caller_ok std) l ns ok, no_orphans-take l [] ns known, omega arith)

  -- If, of the messages after the system's first ones, only assistants' have calls, and every
  -- result that names a call has it before it, `trim_client_messages` ends, with fuel for more
  -- calls than there are messages. It leaves the messages as they are, or keeps the system's first
  -- ones and an end of the others, which does not begin with a tool's result that names a call,
  -- and tells how many are kept and where they start.
  pub trim_found :
      (fuel : ℕ) (messages : List Message) (limit : Limit)
      → all (is_caller_ok std) (drop (insert_at messages) messages) ≡ true
      → no_orphans std [] (drop (insert_at messages) messages) ≡ true
      → length messages < fuel
      → (t : Trimmed std) × (trim_client_messages std fuel messages limit ≡ some t)
        × ((t ≡ kept_whole std messages) ⊎ KeepsEnd messages t)
  unfolding trim_client_messages trimmed_if
  trim_found fuel messages limit ok known h =
      let first = insert_at messages in
      let ns = drop first messages in
      let latest = latest_complete_tool_turn_start std ns in
      elim (Bool-cases (positive limit == 0 || leb (length ns) (positive limit))) [
        | inl few ↦ rw (few, trim_client_messages) (kept_whole std messages, refl, inl refl)
        | inr many ↦
            let (ok', known', short) = history_ok latest ns ok known in
            let len = length-drop first messages in
            let (r, e, sound) =
              start_found std fuel (scanned_history std latest ns)
                (length (scanned_history std latest ns) - positive limit) ok' known'
                (omega arith) in
            rw (many, e, trim_client_messages)
              (
                trimmed_at std messages latest r,
                refl,
                inr (trimmed_KeepsEnd messages latest r refl sound),
              )
      ]
