-- ===== src/SystemPrefix/Tests.antt =====
-- Runs of the gate of the system prefix.
use shenyugateway.Common.{
  ℕ, ◌+◌, ◌*◌, ◌<◌, true, false, Option, some, List, [], ◌∷◌, ◌≡◌, ◌≢◌, ◌⊎◌, ◌↔◌, inl, refl, arith,
  length,
}
use shenyugateway.Text.{Text, codes}
use shenyugateway.Json.{Fields, Stdlib, get, str_or_empty}
use shenyugateway.SystemPrefix.{
  Rendered, Resolved, refreshed, held, prefix_state, resolve_system_prefix, apply_rendered, hold,
  old_slow, old_heartbeat, old_refreshed_at, had_snapshot, is_changed, is_due,
}
use shenyugateway.SystemPrefix.Gate.{stored_is_sent, sent_either, held_iff, stale_is_recent}
use shenyugateway.SystemPrefix.Runs.{run, Quiet, AllSend, run_steady}

abbrev std : Stdlib
std = record {
  repr = λ v. [];
  dumps = λ v. [];
  sha256_hex = λ t. t;
  lower = λ t. t;
  regex_sub = λ pattern new t. t;
}

-- A time is written as so many strokes, one for a second.
abbrev parse_ts : Text → Option ℕ
parse_ts t = some (length t * 1000000)

abbrev previous : Fields
previous = prefix_state (codes "page one") (codes "beat one") (codes "||")

abbrev request : Rendered
request = record {
  new_slow = codes "page two";
  new_heartbeat = codes "beat one";
  epoch_reset = false;
  now = codes "||||";
}

abbrev answer : Resolved
answer = resolve_system_prefix std parse_ts 300 previous request

program : Unit {0}
unfolding resolve_system_prefix apply_rendered hold prefix_state old_slow old_heartbeat
    old_refreshed_at had_snapshot is_changed is_due get str_or_empty run
program = tt

stored_is_sent_run :
    (old_slow std parse_ts answer.state ≡ answer.chosen_slow)
    × (old_heartbeat std parse_ts answer.state ≡ answer.chosen_heartbeat)
stored_is_sent_run = stored_is_sent std parse_ts 300 previous request

sent_either_run :
    ((answer.decision ≡ refreshed)
      × (answer.chosen_slow ≡ codes "page two")
      × (answer.chosen_heartbeat ≡ codes "beat one")
      × (old_refreshed_at std parse_ts answer.state ≡ codes "||||"))
    ⊎ ((answer.decision ≡ held)
        × (answer.chosen_slow ≡ old_slow std parse_ts previous)
        × (answer.chosen_heartbeat ≡ old_heartbeat std parse_ts previous)
        × (old_refreshed_at std parse_ts answer.state ≡ old_refreshed_at std parse_ts previous))
sent_either_run = sent_either std parse_ts 300 previous request

held_iff_run : (answer.decision ≡ held) ↔ (
    (had_snapshot std parse_ts previous ≡ true)
    × ((is_changed std parse_ts previous request ≡ false)
        ⊎ ((false ≡ false)
            × (0 < 300)
            × (is_due std parse_ts 300 (old_refreshed_at std parse_ts previous) (codes "||||")
                ≡ false))))
held_iff_run = held_iff std parse_ts 300 previous request

differs : answer.chosen_slow ≢ codes "page two"
unfolding program
differs e = cc e

stale_is_recent_run :
    (false ≡ false)
    × (old : ℕ) × (new : ℕ) × (parse_ts (old_refreshed_at std parse_ts previous) ≡ some old)
    × (parse_ts (codes "||||") ≡ some new)
    × (new < old + 300 * 1000000)
stale_is_recent_run = stale_is_recent std parse_ts 300 previous request (inl differs)

abbrev requests : List Rendered
requests = request ∷ record request { new_slow = codes "page three" } ∷ []

quiet : Quiet std parse_ts 300 (codes "||") requests
unfolding program Quiet
quiet = (refl, refl, (refl, refl, tt))

run_steady_example :
    AllSend std parse_ts 300
      (codes "page one")
      (codes "beat one")
      (run std parse_ts 300 previous requests)
run_steady_example =
    run_steady std parse_ts 300 (codes "page one") (codes "beat one") (codes "||") requests refl
      (omega arith) quiet
