-- ===== src/Window/Bridge.antt =====
-- `deduplicate_bridge_messages` and `insert_bridge_messages` of context_window.py.
use shenyugateway.Common.{
  ℕ, zero, suc, ◌-◌, Bool, true, ◌&&◌, List, [], ◌∷◌, ◌++◌, if◌then◌else◌, length, take, drop, min,
}
use shenyugateway.Text.{text_eq}
use shenyugateway.Json.{Message, has_role, Stdlib}
use shenyugateway.Window.Events.{message_fingerprint}

-- The index of the first message that is not the system's, or the number of messages.
unfoldable pub insert_at : List Message → ℕ
insert_at [] = 0
insert_at (m ∷ ms) = if has_role "system" m then suc (insert_at ms) else 0

module _ (std : Stdlib) where
  -- `all(… for … in zip(bridge, client))`
  unfoldable pub same_messages : List Message → List Message → Bool
  same_messages [] client = true
  same_messages (b ∷ bridge) [] = true
  same_messages (b ∷ bridge) (c ∷ client) =
      text_eq (message_fingerprint std b) (message_fingerprint std c) && same_messages bridge client

  -- `for size in range(size, 0, -1)`
  unfoldable pub overlap_from : ℕ → List Message → List Message → ℕ
  overlap_from zero bridge history = 0
  overlap_from (suc size) bridge history =
      let rest = overlap_from size bridge history in
      if same_messages (drop (length bridge - suc size) bridge) (take (suc size) history)
      then suc size
      else rest

  pub record Deduplicated : Type 0 where
    pub bridge : List Message
    pub overlap : ℕ

  unfoldable pub deduplicate_bridge_messages : List Message → List Message → Deduplicated
  unfolding overlap_from
  deduplicate_bridge_messages client_messages [] = record { bridge = []; overlap = 0 }
  deduplicate_bridge_messages client_messages (b ∷ bs) =
      let bridge_messages = b ∷ bs in
      let client_history = drop (insert_at client_messages) client_messages in
      let overlap =
        overlap_from (min (length bridge_messages) (length client_history)) bridge_messages
          client_history in
      record { bridge = take (length bridge_messages - overlap) bridge_messages; overlap = overlap }

  -- `merged[i:i] = bridge`
  unfoldable pub splice : ℕ → List Message → List Message → List Message
  splice i bridge messages = take i messages ++ (bridge ++ drop i messages)

  unfoldable pub insert_bridge_messages : List Message → List Message → List Message
  unfolding deduplicate_bridge_messages splice
  insert_bridge_messages client_messages bridge_messages =
      let bridge = (deduplicate_bridge_messages client_messages bridge_messages).bridge in
      elim bridge [
        | [] ↦ client_messages
        | b ∷ bs ↦ splice (insert_at client_messages) (b ∷ bs) client_messages
      ]
