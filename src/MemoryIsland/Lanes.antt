-- ===== src/MemoryIsland/Lanes.antt =====
-- The choice between the stored items of a lane and the proposed ones: `_choose_lane` of
-- memory_island.py, and what it is decided by.
use shenyugateway.Common.{
  ℕ, suc, ◌*◌, Bool, false, not, ◌&&◌, ◌||◌, Option, none, some, List, [], ◌∷◌, ◌==◌, ltb,
  if◌then◌else◌, length, max,
}
use shenyugateway.Text.{mem_text, Text, codes, text_eq, is_empty}
use shenyugateway.Json.{Json, Fields, boolean, get, is_text, Stdlib, str_or_empty}
use shenyugateway.Window.Classify.{is_nonempty}
use shenyugateway.MemoryIsland.{Today, render_star_context, render_mem_notes}

pub data Kind : Type 0 where
  star mem : Kind

-- The number of a list's texts that are in another, and the number of those that are not.
unfoldable pub count_in : List Text → List Text → ℕ
unfolding mem_text
count_in [] others = 0
count_in (t ∷ ts) others =
    let rest = count_in ts others in if mem_text t others then suc rest else rest

-- The threshold 2 / 3 as two numbers; an overlap is compared without division.
pub record Threshold : Type 0 where
  pub numerator : ℕ
  pub denominator : ℕ

-- A lane after the choice: the items that are shown, and those of them that are new.
pub record Lane : Type 0 where
  pub chosen : List Fields
  pub entering : List Fields
  pub retained : Bool
  pub reason : Text

abbrev pub is_true : Json → Bool
is_true (boolean b) = b
is_true _ = false

module _ (std : Stdlib) where
  unfoldable pub item_id : Fields → Text
  item_id item = str_or_empty std (get "id" item)

  -- `{_item_id(item) for item in items if _item_id(item)}`, each id once.
  unfoldable pub item_ids : List Fields → List Text
  unfolding item_id mem_text
  item_ids [] = []
  item_ids (item ∷ items) =
      let rest = item_ids items in
      let id = item_id item in if is_empty id || mem_text id rest then rest else id ∷ rest

  -- `_overlap(…) < overlap_threshold`
  unfoldable pub overlap_below : Threshold → List Fields → List Fields → Bool
  unfolding item_ids count_in
  overlap_below threshold old_items new_items =
      let old_ids = item_ids old_items in
      let new_ids = item_ids new_items in
      let denominator = max (length old_ids) (length new_ids) in
      if denominator == 0
      then ltb threshold.denominator threshold.numerator
      else ltb (count_in old_ids new_ids * threshold.denominator)
          (threshold.numerator * denominator)

  -- What makes one new item a reason to rewrite its lane.
  unfoldable pub forces : Kind → Fields → Bool
  forces star item = is_true (get "force_island_rewrite" item)
  forces mem item =
      is_text (codes "entity") (get "search_mode" item)
      || is_text (codes "promise") (get "memory_kind" item)

  unfoldable pub any_new_forces : Kind → List Text → List Fields → Bool
  unfolding forces item_id mem_text
  any_new_forces kind old_ids [] = false
  any_new_forces kind old_ids (item ∷ items) =
      (not (mem_text (item_id item) old_ids) && forces kind item)
      || any_new_forces kind old_ids items

  unfoldable pub legacy_forced_new_item : Kind → List Fields → List Fields → Bool
  unfolding any_new_forces item_ids
  legacy_forced_new_item kind old_items new_items =
      any_new_forces kind (item_ids old_items) new_items

  -- The proposed items whose id is not among the old ones.
  unfoldable pub not_among : List Text → List Fields → List Fields
  unfolding item_id mem_text
  not_among old_ids [] = []
  not_among old_ids (item ∷ items) =
      let rest = not_among old_ids items in
      if mem_text (item_id item) old_ids then rest else item ∷ rest

  module _ (day : Today) where
    unfoldable pub render_item : Kind → Fields → Text
    render_item star item = render_star_context std (item ∷ [])
    render_item mem item = render_mem_notes std day (item ∷ [])

    -- `_fingerprints(kind, items).get(id)`: of items with one id, the last one counts.
    unfoldable pub fingerprint_of : Kind → List Fields → Text → Option Text
    unfolding item_id render_item
    fingerprint_of kind [] id = none
    fingerprint_of kind (item ∷ items) id = elim (fingerprint_of kind items id) [
      | some fingerprint ↦ some fingerprint
      | none ↦
          if text_eq (item_id item) id && not (is_empty id)
          then some (std.sha256_hex (render_item kind item))
          else none
    ]

    -- The ids that both have with different fingerprints.
    unfoldable pub differs_at : Kind → List Fields → List Fields → Text → Bool
    unfolding fingerprint_of
    differs_at kind old_items new_items id = elim (fingerprint_of kind old_items id) [
      | none ↦ false
      | some old ↦ elim (fingerprint_of kind new_items id) [
        | none ↦ false
        | some new ↦ not (text_eq old new)
      ]
    ]

    unfoldable pub any_differs : Kind → List Fields → List Fields → List Text → Bool
    unfolding differs_at
    any_differs kind old_items new_items [] = false
    any_differs kind old_items new_items (id ∷ ids) =
        differs_at kind old_items new_items id || any_differs kind old_items new_items ids

    unfoldable pub content_changed : Kind → List Fields → List Fields → Bool
    unfolding any_differs item_ids
    content_changed kind old_items new_items =
        any_differs kind old_items new_items (item_ids old_items)

    unfoldable pub lane_reason : Threshold → Kind → List Fields → List Fields → Text → Bool → Text
    lane_reason threshold kind old_items proposed_items force_reason retain =
        if not (is_empty force_reason)
        then force_reason
        else if content_changed kind old_items proposed_items
        then codes "content_changed"
        else if legacy_forced_new_item kind old_items proposed_items
        then codes "direct_candidate"
        else if (not (is_nonempty old_items) && is_nonempty proposed_items)
            || (is_nonempty old_items && not (is_nonempty proposed_items))
        then codes "empty_transition"
        else if overlap_below threshold old_items proposed_items
        then codes "overlap_below_threshold"
        else if retain
        then codes "retained_overlap"
        else codes "proposal_applied"

    unfoldable pub choose_lane : Threshold → Kind → List Fields → List Fields → Text → Lane
    unfolding lane_reason not_among
    choose_lane threshold kind old_items proposed_items force_reason =
        let retain =
          is_nonempty old_items
          && not (
              not (is_empty force_reason)
              || content_changed kind old_items proposed_items
              || legacy_forced_new_item kind old_items proposed_items
              || not (is_nonempty proposed_items)
              || overlap_below threshold old_items proposed_items) in
        record {
          chosen = if retain then old_items else proposed_items;
          entering = if retain then [] else not_among (item_ids old_items) proposed_items;
          retained = retain;
          reason = lane_reason threshold kind old_items proposed_items force_reason retain;
        }
