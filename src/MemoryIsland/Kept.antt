-- ===== src/MemoryIsland/Kept.antt =====
-- What a lane shows, what never stays, and what an unchanged island sends.
use shenyugateway.Common.{
  true, false, List, [], ◌∷◌, ◌≡◌, ◌⊎◌, inl, inr, refl, ap, ◌∙◌, arith, Bool-cases,
}
use shenyugateway.Text.{mem_text, Text, is_empty}
use shenyugateway.Text.Affixes.{text_eq_refl, eq_of_text_eq}
use shenyugateway.Json.{Fields, Stdlib}
use shenyugateway.MemoryIsland.{Today, render_memory_island}
use shenyugateway.MemoryIsland.Lanes.{
  Kind, Threshold, Lane, item_id, item_ids, not_among, choose_lane,
}
use shenyugateway.MemoryIsland.Resolve.{
  IslandState, Proposal, inactive_reason, inactive_old_mem_ids, or_reason, mem_reason, star_lane_of,
  mem_lane_of, Resolution, resolve_memory_island,
}

mem_text-reason :
    (id : Text) (ids : List Text) → mem_text id ids ≡ true → is_empty (inactive_reason ids) ≡ false
unfolding mem_text inactive_reason
mem_text-reason id [] h = cc h
mem_text-reason id (i ∷ ids) h = refl

not_among-item_ids :
    (std : Stdlib) (id : Text) (ids : List Text) (items : List Fields)
    → mem_text id ids ≡ true
    → mem_text id (item_ids std (not_among std ids items)) ≡ false
unfolding not_among item_ids mem_text
not_among-item_ids std id ids [] h = refl
not_among-item_ids std id ids (item ∷ items) h =
    let rest = not_among-item_ids std id ids items h in
    elim (Bool-cases (mem_text (item_id std item) ids)) [
      | inl old ↦ rw old rest
      | inr new ↦ rw new (ground (arith, rest, eq_of_text_eq id (item_id std item), new, h))
    ]

module _ (std : Stdlib) (day : Today) where
  forced_choice :
      (threshold : Threshold) (kind : Kind) (old proposed : List Fields) (reason : Text)
      → is_empty reason ≡ false
      → (choose_lane std day threshold kind old proposed reason).chosen ≡ proposed
  unfolding choose_lane
  forced_choice threshold kind old proposed reason h = ground (arith, h)

  retained_choice :
      (threshold : Threshold) (kind : Kind) (old proposed : List Fields) (reason : Text)
      → (choose_lane std day threshold kind old proposed reason).retained ≡ true
      → (choose_lane std day threshold kind old proposed reason).chosen ≡ old
  unfolding choose_lane
  retained_choice threshold kind old proposed reason h = ground (arith, h)

  module _ (threshold : Threshold) (kind : Kind) (old proposed : List Fields) (reason : Text) where
    abbrev pub lane : Lane
    lane = choose_lane std day threshold kind old proposed reason

    -- A lane is not mixed: it is the old items, and none enters, or the proposed ones, and those
    -- enter whose ids are not among the old ones.
    pub lane_either :
        ((lane.chosen ≡ old) × (lane.entering ≡ []) × (lane.retained ≡ true))
        ⊎ ((lane.chosen ≡ proposed)
            × (lane.entering ≡ not_among std (item_ids std old) proposed)
            × (lane.retained ≡ false))
    unfolding choose_lane
    lane_either = ground arith

  module _ (previous : IslandState) (p : Proposal) where
    abbrev pub resolved : Resolution
    resolved = resolve_memory_island std day previous p

    -- While the rendered island hashes to the stored hash, its version and its text are the stored
    -- ones; and what is stored is the hash of what was chosen.
    pub unchanged_island :
        is_empty previous.version ≡ false
        → std.sha256_hex
            (render_memory_island std day resolved.star_lane.chosen resolved.mem_lane.chosen)
          ≡ previous.rendered_hash
        → (resolved.state.version ≡ previous.version)
          × (resolved.state.rendered_text ≡ previous.rendered_text)
          × (resolved.state.rendered_hash ≡ previous.rendered_hash)
    unfolding resolve_memory_island
    unchanged_island named same =
        let test = text_eq_refl previous.rendered_hash in
        (rw (same, test, named) refl, rw (same, test) refl, same)

    star_lane_choice :
        (star_lane_of std day previous p).retained ≡ true
        → (star_lane_of std day previous p).chosen ≡ previous.stars
    unfolding star_lane_of
    star_lane_choice = retained_choice _ _ _ _ _

    mem_lane_choice :
        (mem_lane_of std day previous p).retained ≡ true
        → (mem_lane_of std day previous p).chosen ≡ previous.mem_notes
    unfolding mem_lane_of
    mem_lane_choice = retained_choice _ _ _ _ _

    mem_reason_forced :
        is_empty (inactive_reason (inactive_old_mem_ids std previous p)) ≡ false
        → is_empty (mem_reason std previous p) ≡ false
    unfolding mem_reason or_reason
    mem_reason_forced h = ground (arith, h)

    -- If neither lane is rewritten, and the stored hash is that of the stored island as it renders
    -- today, the island stays as it is: its items, its text, its hash and its version.
    pub kept_island :
        is_empty previous.version ≡ false
        → std.sha256_hex (render_memory_island std day previous.stars previous.mem_notes)
          ≡ previous.rendered_hash
        → resolved.star_lane.retained ≡ true
        → resolved.mem_lane.retained ≡ true
        → (resolved.state.stars ≡ previous.stars)
          × (resolved.state.mem_notes ≡ previous.mem_notes)
          × (resolved.state.rendered_text ≡ previous.rendered_text)
          × (resolved.state.rendered_hash ≡ previous.rendered_hash)
          × (resolved.state.version ≡ previous.version)
    unfolding resolve_memory_island
    kept_island named valid star_kept mem_kept =
        let stars = star_lane_choice star_kept in
        let notes = mem_lane_choice mem_kept in
        let hash =
          ap (λ s. std.sha256_hex (render_memory_island std day s resolved.mem_lane.chosen)) stars
          ∙ ap (λ m. std.sha256_hex (render_memory_island std day previous.stars m)) notes
          ∙ valid in
        let (version, text, stored) = unchanged_island named hash in
        (stars, notes, text, stored, version)

    -- A stored note that is no longer active does not stay on the island, whatever is proposed.
    pub inactive_never_stays :
        (id : Text)
        → mem_text id (inactive_old_mem_ids std previous p) ≡ true
        → mem_text id (item_ids std resolved.state.mem_notes) ≡ false
    unfolding resolve_memory_island mem_lane_of
    inactive_never_stays id h =
        let inactive = inactive_old_mem_ids std previous p in
        let forced = mem_reason_forced (mem_text-reason id inactive h) in
        ap (λ ms. mem_text id (item_ids std ms)) (forced_choice _ _ _ _ _ forced)
        ∙ not_among-item_ids std id inactive p.proposed_mem_notes h
