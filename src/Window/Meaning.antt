-- ===== src/Window/Meaning.antt =====
-- The classes of `classify_history_event`, for histories that are related in the ways that the code
-- tells apart.
use shenyugateway.Common.{
  ℕ, zero, suc, ◌≤◌, ◌<◌, true, false, List, [], ◌∷◌, ◌≡◌, inl, inr, refl, sym, ap, ◌∙◌, arith,
  ◌==◌, if◌then◌else◌, length, take, drop, take_all, Bool-cases,
}
use shenyugateway.Json.{Message, Stdlib}
use shenyugateway.Window.Groups.{non_system_messages, any_user}
use shenyugateway.Window.Events.{common_prefix_length, normalize_history_event_messages}
use shenyugateway.Window.Classify.{
  fingerprints, retry, continuation, roll, classify_history_event, appended_class, is_nonempty,
  EventDetail, is_new_user, update_class, start_detail, classify_changed,
}
use shenyugateway.Window.Lineage.{
  length-fingerprints, prefix_of_extension, common_prefix_length-LongestPrefix,
}

-- The tests of `classify_changed`, one at a time.
changed_retry :
    (std : Stdlib) (p c : List Message) (k : ℕ) (d : EventDetail)
    → k ≡ length p
    → length c ≡ k
    → classify_changed std p c k d ≡ update_class retry false d
unfolding classify_changed
changed_retry std p c k d e l = ground arith

changed_extension :
    (std : Stdlib) (p c : List Message) (k : ℕ) (d : EventDetail)
    → k ≡ length p
    → length p < length c
    → classify_changed std p c k d
      ≡ update_class
          (appended_class continuation (drop k c))
          (is_new_user (appended_class continuation (drop k c)))
          d
unfolding classify_changed
changed_extension std p c k d e l = ground arith

changed_roll :
    (std : Stdlib) (p c : List Message) (k : ℕ) (d : EventDetail)
    → k ≡ length c
    → length c < length p
    → classify_changed std p c k d ≡ update_class roll false d
unfolding classify_changed
changed_roll std p c k d e l = ground arith

appended_new_human :
    (appended : List Message)
    → is_new_user (appended_class continuation appended) ≡ any_user appended
unfolding appended_class
appended_new_human appended = ground arith

any_none : false ≡ any_user []
unfolding any_user
any_none = refl

drop_all {ℓ} : {A : Type ℓ} (n : ℕ) (xs : List A) → length xs ≤ n → drop n xs ≡ []
drop_all zero [] h = refl
drop_all zero (x ∷ xs) h = absurd (omega arith)
drop_all (suc n) [] h = refl
drop_all (suc n) (x ∷ xs) h = drop_all n xs (omega arith)

-- The three ways to get a class, of any two lists and any detail to start from.
extension_lem :
    (std : Stdlib) (p c : List Message) (k : ℕ) (d : EventDetail)
    → k ≡ length p
    → length p ≤ length c
    → ((classify_changed std p c k d).event_class
        ≡ (if length c == length p then retry else appended_class continuation (drop (length p) c)))
      × ((classify_changed std p c k d).new_human_turn ≡ any_user (drop (length p) c))
unfolding update_class
extension_lem std p c k d e le = elim (Bool-cases (length c == length p)) [
  | inl same ↦
      let l : length c ≡ k = ground (arith, same, e) in
      let none_left : drop (length p) c ≡ [] = drop_all (length p) c (omega (arith, l, e)) in
      (
        rw (changed_retry std p c k d e l, same) refl,
        rw (changed_retry std p c k d e l, none_left) (any_none),
      )
  | inr longer ↦
      let l : length p < length c = ground (arith, longer, le) in
      (
        rw (changed_extension std p c k d e l, longer, e) refl,
        rw (changed_extension std p c k d e l, appended_new_human (drop k c), e) refl,
      )
]

nonempty_of_longer : (ms : List Message) (n : ℕ) → n < length ms → is_nonempty ms ≡ true
nonempty_of_longer [] n h = absurd (omega arith)
nonempty_of_longer (m ∷ ms) n h = refl

prefix_of_rollback :
    (std : Stdlib) (previous current : List Message)
    → length current < length previous
    → fingerprints std current ≡ take (length current) (fingerprints std previous)
    → common_prefix_length std previous current ≡ length current
prefix_of_rollback std p c lt e =
    let r = common_prefix_length-LongestPrefix std p c in
    let all = take_all (length c) (fingerprints std c) (omega (arith, length-fingerprints std c)) in
    omega
      (arith, r.within_right, r.longest (length c) (omega arith) (omega arith) (sym e ∙ sym all))

module _ (std : Stdlib) (previous_messages current_messages : List Message) where
  -- The histories that are compared: normalized, and without the system's messages.
  abbrev pub previous : List Message
  previous = non_system_messages (normalize_history_event_messages std previous_messages)

  abbrev pub current : List Message
  current = non_system_messages (normalize_history_event_messages std current_messages)

  abbrev pub detail : EventDetail
  detail = classify_history_event std previous_messages current_messages

  abbrev start : EventDetail
  start = start_detail std previous_messages current_messages

  changed_detail :
      is_nonempty previous ≡ true
      → detail
        ≡ classify_changed std previous current (common_prefix_length std previous current) start
  unfolding classify_history_event
  changed_detail full = rw (full) refl

  -- A history that begins as the last one did is a retry if nothing was added to it; otherwise its
  -- class is told by what was added: a user's message first, a tool's transcript next.
  pub extension_class :
      is_nonempty previous ≡ true
      → length previous ≤ length current
      → fingerprints std previous ≡ take (length previous) (fingerprints std current)
      → (detail.event_class ≡ (
          if length current == length previous
          then retry
          else appended_class continuation (drop (length previous) current)))
        × (detail.new_human_turn ≡ any_user (drop (length previous) current))
  extension_class full le e =
      let k = common_prefix_length std previous current in
      let same : k ≡ length previous = prefix_of_extension std previous current le e in
      let (of_class, of_turn) = extension_lem std previous current k start same le in
      (
        ap (λ d. d.event_class) (changed_detail full) ∙ of_class,
        ap (λ d. d.new_human_turn) (changed_detail full) ∙ of_turn,
      )

  -- A history that ends earlier than the last one, and is the same so far, was rolled back.
  pub roll_class :
      length current < length previous
      → fingerprints std current ≡ take (length current) (fingerprints std previous)
      → (detail.event_class ≡ roll) × (detail.new_human_turn ≡ false)
  unfolding update_class
  roll_class lt e =
      let k = common_prefix_length std previous current in
      let full : is_nonempty previous ≡ true = nonempty_of_longer previous (length current) lt in
      let same : k ≡ length current = prefix_of_rollback std previous current lt e in
      let eq = changed_detail full ∙ changed_roll std previous current k start same lt in
      rw (eq) (refl, refl)
