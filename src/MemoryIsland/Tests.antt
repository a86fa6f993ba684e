-- ===== src/MemoryIsland/Tests.antt =====
-- Runs of the memory island.
use shenyugateway.Common.{arith, true, false, none, some, [], ◌∷◌, ◌≡◌, ◌⊎◌, ◌↔◌, refl}
use shenyugateway.Text.{mem_text, codes, is_empty, is_space, lstrip, rstrip, strip}
use shenyugateway.Json.{Fields, field, end, str, Stdlib, get, str_or_empty}
use shenyugateway.Window.Classify.{is_nonempty}
use shenyugateway.MemoryIsland.{
  Today, render_memory_island, shorten, join_with, elements, values_of, in_decimal, human_time_ago,
  clean, star_lines, render_star_context, mem_date_note, anchor_of, in_brackets, note_line,
  note_lines, render_mem_notes,
}
use shenyugateway.MemoryIsland.Lanes.{
  mem, Threshold, Lane, count_in, item_id, item_ids, not_among, content_changed, forces,
  any_new_forces, legacy_forced_new_item, overlap_below, choose_lane, render_item, fingerprint_of,
  differs_at, any_differs, lane_reason,
}
use shenyugateway.MemoryIsland.Resolve.{
  IslandState, Proposal, Resolution, resolve_memory_island, inactive_old_mem_ids, clean_ids,
  ids_minus, inactive_ids, or_reason, external_force_reason, inactive_reason, direct_reason,
  star_direct_force_reason, has_new_due, mark_seen, turn_of, star_reason, mem_reason,
  fingerprints_of, star_lane_of, mem_lane_of, seen_at, put_seen, soft_seen_from, soft_seen_turns,
}
use shenyugateway.MemoryIsland.Retained.{SameTexts, Unforced, Overlaps, retained_iff}
use shenyugateway.MemoryIsland.Kept.{lane_either, kept_island, inactive_never_stays}

abbrev std : Stdlib
std = record {
  repr = λ v. [];
  dumps = λ v. [];
  sha256_hex = λ t. t;
  lower = λ t. t;
  regex_sub = λ pattern new t. t;
}

abbrev day : Today
day = record {
  parse_local_date = λ v. none;
  local_day_of = λ v. none;
  isoformat = λ d. codes "2026-06-01";
  today = 5;
}

abbrev note : Fields
note = field "id" (str (codes "m1")) (field "content" (str (codes "tea")) end)

abbrev a_star : Fields
a_star = field "id" (str (codes "s1")) (field "content" (str (codes "sea")) end)

abbrev threshold : Threshold
threshold = record { numerator = 2; denominator = 3 }

abbrev lane : Lane
lane = choose_lane std day threshold mem (note ∷ []) (note ∷ []) []

retained_iff_example : (lane.retained ≡ true) ↔ (
    (is_nonempty (note ∷ []) ≡ true)
    × (is_nonempty (note ∷ []) ≡ true)
    × (is_empty [] ≡ true)
    × SameTexts std day mem (note ∷ []) (note ∷ [])
    × Unforced std mem (item_ids std (note ∷ [])) (note ∷ [])
    × Overlaps std threshold (note ∷ []) (note ∷ []))
retained_iff_example = retained_iff std day threshold mem (note ∷ []) (note ∷ []) [] (omega arith)

lane_either_run :
    ((lane.chosen ≡ note ∷ []) × (lane.entering ≡ []) × (lane.retained ≡ true))
    ⊎ ((lane.chosen ≡ note ∷ [])
        × (lane.entering ≡ not_among std (item_ids std (note ∷ [])) (note ∷ []))
        × (lane.retained ≡ false))
lane_either_run = lane_either std day threshold mem (note ∷ []) (note ∷ []) []

abbrev previous : IslandState
previous = record {
  version = codes "island_1";
  stars = a_star ∷ [];
  mem_notes = note ∷ [];
  rendered_text = render_memory_island std day (a_star ∷ []) (note ∷ []);
  rendered_hash = render_memory_island std day (a_star ∷ []) (note ∷ []);
  star_fingerprints = [];
  mem_fingerprints = [];
  human_turn_index = 3;
  star_soft_direct_seen_at = [];
}

abbrev proposal : Proposal
proposal = record {
  proposed_stars = a_star ∷ [];
  proposed_mem_notes = note ∷ [];
  force = false;
  force_reason = [];
  active_star_ids = none;
  active_mem_note_ids = some (codes "m1" ∷ []);
  advance_human_turn = true;
  soft_direct_cooldown_turns = 8;
  overlap_threshold = threshold;
  draw = codes "island_2";
}

abbrev answer : Resolution
answer = resolve_memory_island std day previous proposal

program : Unit {0}
unfolding is_space lstrip rstrip strip get str_or_empty shorten join_with elements values_of
    in_decimal human_time_ago clean star_lines render_star_context mem_date_note anchor_of
    in_brackets note_line note_lines render_mem_notes render_memory_island mem_text count_in item_id
    item_ids not_among content_changed forces any_new_forces legacy_forced_new_item overlap_below
    choose_lane render_item fingerprint_of differs_at any_differs lane_reason resolve_memory_island
    inactive_old_mem_ids clean_ids ids_minus inactive_ids or_reason external_force_reason
    inactive_reason direct_reason star_direct_force_reason has_new_due mark_seen turn_of star_reason
    mem_reason fingerprints_of star_lane_of mem_lane_of seen_at put_seen soft_seen_from
    soft_seen_turns
program = tt

star_kept : answer.star_lane.retained ≡ true
unfolding program
star_kept = refl

mem_kept : answer.mem_lane.retained ≡ true
unfolding program
mem_kept = refl

kept_island_example :
    (answer.state.stars ≡ a_star ∷ [])
    × (answer.state.mem_notes ≡ note ∷ [])
    × (answer.state.rendered_text ≡ previous.rendered_text)
    × (answer.state.rendered_hash ≡ previous.rendered_hash)
    × (answer.state.version ≡ codes "island_1")
kept_island_example = kept_island std day previous proposal refl refl star_kept mem_kept

abbrev withdrawn : Proposal
withdrawn = record proposal { active_mem_note_ids = some [] }

gone : mem_text (codes "m1") (inactive_old_mem_ids std previous withdrawn) ≡ true
unfolding program
gone = refl

inactive_never_stays_example :
    mem_text
      (codes "m1")
      (item_ids std (resolve_memory_island std day previous withdrawn).state.mem_notes)
    ≡ false
inactive_never_stays_example = inactive_never_stays std day previous withdrawn (codes "m1") gone
