-- ===== src/MemoryIsland/Resolve.antt =====
-- `_star_direct_force_reason`, `_soft_seen_turns` and `resolve_memory_island` of memory_island.py.
use shenyugateway.Common.{
  ℕ, ◌+◌, Bool, false, not, ◌&&◌, ◌||◌, Option, none, some, List, [], ◌∷◌, ◌++◌, leb, min,
  if◌then◌else◌, map,
}
use shenyugateway.Text.{mem_text, Text, codes, text_eq, is_empty, strip}
use shenyugateway.Json.{Fields, get, is_text, Stdlib, str_or_empty}
use shenyugateway.MemoryIsland.{Today, render_memory_island}
use shenyugateway.MemoryIsland.Lanes.{
  Kind, star, mem, Threshold, Lane, item_id, item_ids, not_among, fingerprint_of, choose_lane,
}

-- `star_soft_direct_seen_at`: a star's id, and the turn in which it was last named softly.
abbrev pub Seen : Type 0
Seen = List (Text × ℕ)

unfoldable pub put_seen : Text → ℕ → Seen → Seen
put_seen id turn [] = (id, turn) ∷ []
put_seen id turn ((k, v) ∷ seen) =
    if text_eq k id then (k, turn) ∷ seen else (k, v) ∷ put_seen id turn seen

unfoldable pub seen_at : Text → Seen → Option ℕ
seen_at id [] = none
seen_at id ((k, v) ∷ seen) = if text_eq k id then some v else seen_at id seen

-- The entries with an id that is more than white space.
unfoldable pub soft_seen_from : Seen → Seen → Seen
unfolding put_seen
soft_seen_from [] result = result
soft_seen_from ((id, turn) ∷ raw) result =
    soft_seen_from raw (if is_empty (strip id) then result else put_seen (strip id) turn result)

unfoldable pub soft_seen_turns : Seen → Seen
unfolding soft_seen_from
soft_seen_turns raw = soft_seen_from raw []

-- The ids that are more than white space, without it at their ends.
unfoldable pub clean_ids : List Text → List Text
clean_ids [] = []
clean_ids (id ∷ ids) =
    let rest = clean_ids ids in if is_empty (strip id) then rest else strip id ∷ rest

-- `ids - others`
unfoldable pub ids_minus : List Text → List Text → List Text
unfolding mem_text
ids_minus [] others = []
ids_minus (id ∷ ids) others =
    let rest = ids_minus ids others in if mem_text id others then rest else id ∷ rest

-- The stored state, as `resolve_memory_island` writes it; the fingerprints stand in no order.
pub record IslandState : Type 0 where
  pub version : Text
  pub stars : List Fields
  pub mem_notes : List Fields
  pub rendered_text : Text
  pub rendered_hash : Text
  pub star_fingerprints : List (Text × Option Text)
  pub mem_fingerprints : List (Text × Option Text)
  pub human_turn_index : ℕ
  pub star_soft_direct_seen_at : Seen

-- The arguments. `draw` is the version that `uuid4` gives.
pub record Proposal : Type 0 where
  pub proposed_stars : List Fields
  pub proposed_mem_notes : List Fields
  pub force : Bool
  pub force_reason : Text
  pub active_star_ids : Option (List Text)
  pub active_mem_note_ids : Option (List Text)
  pub advance_human_turn : Bool
  pub soft_direct_cooldown_turns : ℕ
  pub overlap_threshold : Threshold
  pub draw : Text

-- `reason or otherwise`
unfoldable pub or_reason : Text → Text → Text
or_reason reason otherwise = if is_empty reason then otherwise else reason

unfoldable pub external_force_reason : Proposal → Text
unfolding or_reason
external_force_reason p = or_reason (strip p.force_reason) (if p.force then codes "forced" else [])

unfoldable pub inactive_ids : List Text → Option (List Text) → List Text
unfolding ids_minus clean_ids
inactive_ids old_ids none = []
inactive_ids old_ids (some active) = ids_minus old_ids (clean_ids active)

unfoldable pub inactive_reason : List Text → Text
inactive_reason [] = []
inactive_reason (id ∷ ids) = codes "inactive_item"

pub record Resolution : Type 0 where
  pub state : IslandState
  pub star_lane : Lane
  pub mem_lane : Lane
  pub changed : Bool
  pub external_reason : Text

unfoldable pub turn_of : IslandState → Proposal → ℕ
turn_of previous p =
    if p.advance_human_turn then previous.human_turn_index + 1 else previous.human_turn_index

module _ (std : Stdlib) where
  -- The reason that one proposed star gives, if it does.
  unfoldable pub direct_reason : List Text → Seen → ℕ → ℕ → Fields → Text
  unfolding item_id mem_text seen_at
  direct_reason old_ids seen turn cooldown item =
      let id = item_id std item in
      let kind = str_or_empty std (get "direct_reference_kind" item) in
      if is_empty id || mem_text id old_ids
      then []
      else if text_eq kind (codes "star_id") || text_eq kind (codes "exact_phrase")
      then codes "direct_" ++ kind
      else if text_eq kind (codes "recall_unique")
      then elim (seen_at id seen) [
        | none ↦ codes "direct_recall_unique"
        | some last_seen ↦
            if leb (last_seen + cooldown) turn then codes "direct_recall_unique" else []
      ]
      else []

  unfoldable pub star_direct_force_reason : List Text → Seen → ℕ → ℕ → List Fields → Text
  unfolding direct_reason or_reason
  star_direct_force_reason old_ids seen turn cooldown [] = []
  star_direct_force_reason old_ids seen turn cooldown (item ∷ items) =
      or_reason (direct_reason old_ids seen turn cooldown item)
        (star_direct_force_reason old_ids seen turn cooldown items)

  -- A reminder that is due and is not among the old notes.
  unfoldable pub has_new_due : List Text → List Fields → Bool
  unfolding item_id mem_text
  has_new_due old_ids [] = false
  has_new_due old_ids (item ∷ items) =
      (is_text (codes "due_reminder") (get "search_mode" item)
        && not (mem_text (item_id std item) old_ids))
      || has_new_due old_ids items

  unfoldable pub mark_seen : List Text → ℕ → List Fields → Seen → Seen
  unfolding item_id mem_text put_seen
  mark_seen chosen_ids turn [] seen = seen
  mark_seen chosen_ids turn (item ∷ items) seen = mark_seen chosen_ids turn items (
      if mem_text (item_id std item) chosen_ids
        && is_text (codes "recall_unique") (get "direct_reference_kind" item)
      then put_seen (item_id std item) turn seen
      else seen)

  unfoldable pub star_reason : IslandState → Proposal → Text
  unfolding or_reason inactive_ids inactive_reason external_force_reason star_direct_force_reason
      soft_seen_turns turn_of item_ids
  star_reason previous p =
      let old_ids = item_ids std previous.stars in
      or_reason (external_force_reason p) (
        or_reason (inactive_reason (inactive_ids old_ids p.active_star_ids)) (
          star_direct_force_reason old_ids (soft_seen_turns previous.star_soft_direct_seen_at)
            (turn_of previous p) (min p.soft_direct_cooldown_turns 100) p.proposed_stars))

  unfoldable pub inactive_old_mem_ids : IslandState → Proposal → List Text
  unfolding inactive_ids item_ids
  inactive_old_mem_ids previous p =
      inactive_ids (item_ids std previous.mem_notes) p.active_mem_note_ids

  unfoldable pub mem_reason : IslandState → Proposal → Text
  unfolding or_reason external_force_reason has_new_due inactive_reason inactive_old_mem_ids
      item_ids
  mem_reason previous p =
      let due = has_new_due (item_ids std previous.mem_notes) p.proposed_mem_notes in
      or_reason (external_force_reason p) (
        or_reason (if due then codes "due_reminder" else [])
          (inactive_reason (inactive_old_mem_ids previous p)))

  module _ (day : Today) where
    unfoldable pub fingerprints_of : Kind → List Fields → List (Text × Option Text)
    unfolding fingerprint_of item_ids
    fingerprints_of kind items =
        map (λ id. (id, fingerprint_of std day kind items id)) (item_ids std items)

    unfoldable pub star_lane_of : IslandState → Proposal → Lane
    unfolding choose_lane star_reason
    star_lane_of previous p =
        choose_lane std day p.overlap_threshold star previous.stars p.proposed_stars
          (star_reason previous p)

    unfoldable pub mem_lane_of : IslandState → Proposal → Lane
    unfolding choose_lane mem_reason not_among inactive_old_mem_ids
    mem_lane_of previous p =
        choose_lane std day p.overlap_threshold mem previous.mem_notes
          (not_among std (inactive_old_mem_ids previous p) p.proposed_mem_notes)
          (mem_reason previous p)

    unfoldable pub resolve_memory_island : IslandState → Proposal → Resolution
    unfolding star_lane_of mem_lane_of mark_seen fingerprints_of render_memory_island
    resolve_memory_island previous p =
        let stars = star_lane_of previous p in
        let mem_notes = mem_lane_of previous p in
        let rendered = render_memory_island std day stars.chosen mem_notes.chosen in
        let hash = std.sha256_hex rendered in
        let same = text_eq hash previous.rendered_hash in
        record {
          state = record {
            version = if same && not (is_empty previous.version) then previous.version else p.draw;
            stars = stars.chosen;
            mem_notes = mem_notes.chosen;
            rendered_text = if same then previous.rendered_text else rendered;
            rendered_hash = hash;
            star_fingerprints = fingerprints_of star stars.chosen;
            mem_fingerprints = fingerprints_of mem mem_notes.chosen;
            human_turn_index = turn_of previous p;
            star_soft_direct_seen_at =
                mark_seen (item_ids std stars.chosen) (turn_of previous p) p.proposed_stars
                  (soft_seen_turns previous.star_soft_direct_seen_at);
          };
          star_lane = stars;
          mem_lane = mem_notes;
          changed = not same;
          external_reason = external_force_reason p;
        }
