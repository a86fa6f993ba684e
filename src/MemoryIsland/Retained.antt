-- ===== src/MemoryIsland/Retained.antt =====
-- When `_choose_lane` of memory_island.py keeps the items of a lane.
use shenyugateway.Common.{
  ℕ, zero, suc, ◌*◌, ◌≤◌, true, false, some, List, [], ◌∷◌, ◌≡◌, ◌↔◌, ◌⊎◌, inl, inr, refl, ltb,
  ◌==◌, if◌then◌else◌, arith, length, max, Bool-cases, Option-cases,
}
use shenyugateway.Text.{Text, mem_text, text_eq, is_empty}
use shenyugateway.Text.Affixes.{text_eq_refl, eq_of_text_eq}
use shenyugateway.Json.{Fields, Stdlib}
use shenyugateway.Window.Classify.{is_nonempty}
use shenyugateway.MemoryIsland.{Today}
use shenyugateway.MemoryIsland.Lanes.{
  Kind, Threshold, count_in, item_id, item_ids, overlap_below, forces, any_new_forces,
  legacy_forced_new_item, fingerprint_of, differs_at, any_differs, content_changed, choose_lane,
}

-- `shared / size < numerator / denominator`, and a size of 0 counts as all shared.
below_number :
    (size numerator denominator shared : ℕ)
    → numerator ≤ denominator
    → ((if size == 0
          then ltb denominator numerator
          else ltb (shared * denominator) (numerator * size))
        ≡ false)
      ↔ (numerator * size ≤ shared * denominator)
below_number zero numerator denominator shared h = (λ e. omega arith, λ e. ground (arith, h))
below_number (suc size) numerator denominator shared h =
    (λ e. ground (arith, e), λ e. ground (arith, e))

module _ (std : Stdlib) where
  -- A new item does not force a rewrite: an item that is proposed is an old one, or of no forcing
  -- kind.
  abbrev pub Unforced : Kind → List Text → List Fields → Type 0
  Unforced kind old_ids [] = Unit {0}
  Unforced kind old_ids (item ∷ items) =
      ((mem_text (item_id std item) old_ids ≡ true) ⊎ (forces std kind item ≡ false))
      × Unforced kind old_ids items

  Unforced-any_new_forces :
      (kind : Kind) (old_ids : List Text) (items : List Fields)
      → (any_new_forces std kind old_ids items ≡ false) ↔ Unforced kind old_ids items
  unfolding any_new_forces
  Unforced-any_new_forces kind old_ids [] = (λ h. tt, λ h. refl)
  Unforced-any_new_forces kind old_ids (item ∷ items) =
      let rest = Unforced-any_new_forces kind old_ids items in
      (
        λ h. (
          elim (Bool-cases (mem_text (item_id std item) old_ids)) [
            | inl old ↦ inl old
            | inr new ↦ inr (ground (arith, h, new))
          ],
          rest.0 (ground (arith, h)),
        ),
        λ (h, k). elim h [
          | inl old ↦ ground (arith, old, rest.1 k)
          | inr quiet ↦ ground (arith, quiet, rest.1 k)
        ],
      )

  -- As many of the ids are shared as the threshold wants.
  abbrev pub Overlaps : Threshold → List Fields → List Fields → Type 0
  Overlaps threshold old_items new_items =
      threshold.numerator * max (length (item_ids std old_items)) (length (item_ids std new_items))
      ≤ count_in (item_ids std old_items) (item_ids std new_items) * threshold.denominator

  overlap_below-Overlaps :
      (threshold : Threshold) (old new : List Fields)
      → threshold.numerator ≤ threshold.denominator
      → (overlap_below std threshold old new ≡ false) ↔ Overlaps threshold old new
  unfolding overlap_below
  overlap_below-Overlaps threshold old new small =
      below_number (max (length (item_ids std old)) (length (item_ids std new))) threshold.numerator
        threshold.denominator (count_in (item_ids std old) (item_ids std new)) small

  module _ (day : Today) where
    -- Whatever id the two sides share, they render its item to the same fingerprint.
    abbrev pub SameTexts : Kind → List Fields → List Fields → Type 0
    SameTexts kind old new =
        (id f g : Text)
        → fingerprint_of std day kind old id ≡ some f
        → fingerprint_of std day kind new id ≡ some g
        → f ≡ g

    among-cons :
        (id : Text) (item : Fields) (items : List Fields)
        → mem_text id (item_ids std items) ≡ true
        → mem_text id (item_ids std (item ∷ items)) ≡ true
    unfolding item_ids mem_text
    among-cons id item items h = ground (arith, h)

    item_id-among :
        (id : Text) (item : Fields) (items : List Fields)
        → text_eq (item_id std item) id ≡ true
        → is_empty id ≡ false
        → mem_text id (item_ids std (item ∷ items)) ≡ true
    unfolding item_ids mem_text
    item_id-among id item items same named =
        let e = eq_of_text_eq (item_id std item) id same in
        rw e (ground (arith, named, text_eq_refl id))

    -- A fingerprint is that of an item.
    fingerprint-among :
        (kind : Kind) (items : List Fields) (id f : Text)
        → fingerprint_of std day kind items id ≡ some f
        → mem_text id (item_ids std items) ≡ true
    unfolding fingerprint_of
    fingerprint-among kind [] id f h = absurd (cc h)
    fingerprint-among kind (item ∷ items) id f h =
        elim (Option-cases (fingerprint_of std day kind items id)) [
          | inr (g, e) ↦ among-cons id item items (fingerprint-among kind items id g e)
          | inl e ↦
              let same : text_eq (item_id std item) id ≡ true = ground (arith, e, h) in
              let named : is_empty id ≡ false = ground (arith, e, h) in
              item_id-among id item items same named
        ]

    differs_at-SameText :
        (kind : Kind) (old new : List Fields) (id : Text)
        → (differs_at std day kind old new id ≡ false) ↔ (
            (f g : Text)
            → fingerprint_of std day kind old id ≡ some f
            → fingerprint_of std day kind new id ≡ some g
            → f ≡ g)
    unfolding differs_at
    differs_at-SameText kind old new id = (
      λ h f g e k. eq_of_text_eq f g (ground (arith, h, e, k)),
      λ h. elim (Option-cases (fingerprint_of std day kind old id)) [
        | inl e ↦ rw (e, differs_at) refl
        | inr (f, e) ↦ elim (Option-cases (fingerprint_of std day kind new id)) [
          | inl k ↦ rw (e, k, differs_at) refl
          | inr (g, k) ↦
              let same = h f g e k in rw (e, k, differs_at) (rw same (rw (text_eq_refl g) refl))
        ]
      ],
    )

    any_differs-member :
        (kind : Kind) (old new : List Fields) (ids : List Text) (id : Text)
        → any_differs std day kind old new ids ≡ false
        → mem_text id ids ≡ true
        → differs_at std day kind old new id ≡ false
    unfolding any_differs mem_text
    any_differs-member kind old new [] id h m = absurd (cc m)
    any_differs-member kind old new (i ∷ ids) id h m = elim (Bool-cases (text_eq id i)) [
      | inl e ↦ let same = eq_of_text_eq id i e in rw same (ground (arith, h))
      | inr e ↦ any_differs-member kind old new ids id (ground (arith, h)) (ground (arith, m, e))
    ]

    any_differs-none :
        (kind : Kind) (old new : List Fields) (ids : List Text)
        → ((id : Text) → differs_at std day kind old new id ≡ false)
        → any_differs std day kind old new ids ≡ false
    unfolding any_differs
    any_differs-none kind old new [] h = refl
    any_differs-none kind old new (i ∷ ids) h =
        ground (arith, h i, any_differs-none kind old new ids h)

    SameTexts-content_changed :
        (kind : Kind) (old new : List Fields)
        → (content_changed std day kind old new ≡ false) ↔ SameTexts kind old new
    unfolding content_changed
    SameTexts-content_changed kind old new = (
      λ h id f g e k.
          (differs_at-SameText kind old new id).0
            (any_differs-member kind old new (item_ids std old) id h
              (fingerprint-among kind old id f e))
            f g e k,
      λ h.
          any_differs-none kind old new (item_ids std old)
            (λ id. (differs_at-SameText kind old new id).1 (h id)),
    )

    choose_lane-retained :
        (threshold : Threshold) (kind : Kind) (old proposed : List Fields) (reason : Text)
        → ((choose_lane std day threshold kind old proposed reason).retained ≡ true) ↔ (
            (is_nonempty old ≡ true)
            × (is_nonempty proposed ≡ true)
            × (is_empty reason ≡ true)
            × (content_changed std day kind old proposed ≡ false)
            × (legacy_forced_new_item std kind old proposed ≡ false)
            × (overlap_below std threshold old proposed ≡ false))
    unfolding choose_lane
    choose_lane-retained threshold kind old proposed reason = (λ h. ground arith, λ h. ground arith)

    -- With a threshold of 1 at most, a lane keeps its items exactly when it has some, there is a
    -- proposal, nothing forces a rewrite, every id that both sides have renders to the same
    -- fingerprint, every proposed item is an old one by its id or of no forcing kind, and the shared
    -- ids are at least the threshold's part of the larger side's.
    pub retained_iff :
        (threshold : Threshold) (kind : Kind) (old proposed : List Fields) (reason : Text)
        → threshold.numerator ≤ threshold.denominator
        → ((choose_lane std day threshold kind old proposed reason).retained ≡ true) ↔ (
            (is_nonempty old ≡ true)
            × (is_nonempty proposed ≡ true)
            × (is_empty reason ≡ true)
            × SameTexts kind old proposed
            × Unforced kind (item_ids std old) proposed
            × Overlaps threshold old proposed)
    unfolding legacy_forced_new_item
    retained_iff threshold kind old proposed reason small =
        let lane = choose_lane-retained threshold kind old proposed reason in
        let texts = SameTexts-content_changed kind old proposed in
        let quiet = Unforced-any_new_forces kind (item_ids std old) proposed in
        let overlap = overlap_below-Overlaps threshold old proposed small in
        (
          λ h.
              let (some_old, some_new, free, same, unforced, close) = lane.0 h in
              (some_old, some_new, free, texts.0 same, quiet.0 unforced, overlap.0 close),
          λ h.
              let (some_old, some_new, free, same, unforced, close) = h in
              lane.1 (some_old, some_new, free, texts.1 same, quiet.1 unforced, overlap.1 close),
        )
