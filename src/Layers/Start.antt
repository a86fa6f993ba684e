-- ===== src/Layers/Start.antt =====
-- `tool_safe_trim_start` and `trim_client_messages` of context_layers.py end, and the first message
-- that is kept is no tool's result without its call.
use shenyugateway.Common.{
  all-drop, append-nil, append_assoc, ℕ, zero, suc, ◌<◌, true, some, List, [], ◌∷◌, ◌++◌, min, ◌≡◌,
  ◌⊎◌, inl, inr, refl, arith, length, take, drop, all,
}
use shenyugateway.Json.{Message, Stdlib}
use shenyugateway.Layers.Turns.{Scan, settled, again, scan_from, tool_safe_trim_start}
use shenyugateway.Layers.Calls.{is_caller_ok, scan_from-again}
use shenyugateway.Layers.Settled.{no_orphans, Sound, scan_from-Sound}

Scan-cases : (x : Scan) → ((r : ℕ) × (x ≡ settled r)) ⊎ ((r : ℕ) × (x ≡ again r))
Scan-cases (settled r) = inl (r, refl)
Scan-cases (again r) = inr (r, refl)

module _ (std : Stdlib) where
  no_orphans-drop :
      (n : ℕ) (before ms : List Message)
      → no_orphans std before ms ≡ true
      → no_orphans std (before ++ take n ms) (drop n ms) ≡ true
  unfolding no_orphans
  no_orphans-drop zero before ms h = rw (append-nil before) h
  no_orphans-drop (suc n) before [] h = refl
  no_orphans-drop (suc n) before (m ∷ ms) h =
      rw (← append_assoc before (m ∷ []) (take n ms))
        (no_orphans-drop n (before ++ m ∷ []) ms (ground arith))

  -- If only assistants' messages have calls, and every result that names a call has a message
  -- with that call before it, `tool_safe_trim_start` ends: with fuel for one more call than the
  -- start's index, as far as the list goes. The start that it comes to is in the list or at its
  -- end, and no tool's result that names a call stands there.
  pub start_found :
      (fuel : ℕ) (ms : List Message) (start : ℕ)
      → all (is_caller_ok std) ms ≡ true
      → no_orphans std [] ms ≡ true
      → min start (length ms) < fuel
      → (r : ℕ) × (tool_safe_trim_start std fuel ms start ≡ some r) × Sound std ms r
  unfolding tool_safe_trim_start
  start_found zero ms start ok known h = absurd (omega (arith, h))
  start_found (suc fuel) ms start ok known h =
      let s = min start (length ms) in
      let rest = drop s ms in
      elim (Scan-cases (scan_from std ms s s rest)) [
        | inl (r, e) ↦
            rw (e, tool_safe_trim_start)
              (
                r,
                refl,
                scan_from-Sound std ms s s rest r refl (omega arith) (omega arith)
                    (no_orphans-drop s [] ms known) (λ k le lt. absurd (omega (arith, le, lt))) e,
              )
        | inr (r, e) ↦
            let earlier =
              scan_from-again std ms s s rest r refl (omega arith)
                (all-drop (is_caller_ok std) s ms ok) (λ k le lt. absurd (omega (arith, le, lt)))
                e in
            rw (e, tool_safe_trim_start) (start_found fuel ms r ok known (omega arith))
      ]
