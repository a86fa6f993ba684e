-- ===== src/Layers/Kept.antt =====
-- What `assemble_layered_messages` of context_layers.py leaves as it is: the client's messages.
use shenyugateway.Common.{
  ℕ, zero, suc, ◌+◌, ◌≤◌, false, not, Option, List, [], ◌∷◌, ◌++◌, ◌≡◌, inl, inr, ap, arith,
  if◌then◌else◌, length, take, drop, take-append-drop, length-append, Bool-cases,
}
use mathlib.Core.List.{Sublistᴰ}
use mathlib.Core.List.Sublistᴰ.{cons, cons-cons, refl as Sublistᴰ-refl}
use shenyugateway.Text.{Text, is_empty}
use shenyugateway.Json.{Json, Message, has_role}
use shenyugateway.Layers.Place.{parts_results, parts_end, slide_off_tool_transcript-Whole}
use shenyugateway.Layers.Assemble.{
  LayerTexts, insert_all, with_bridge, prefix_layers, bridge_messages_from_snapshot, with_island,
  with_volatile, history_indices, index_or, island_anchor, before_island, island_message,
  island_index, system_message, volatile_index, assemble_layered_messages,
}

add_all : {xs ys : List Message} → (zs : List Message) → Sublistᴰ xs ys → Sublistᴰ xs (zs ++ ys)
add_all [] s = s
add_all (z ∷ zs) s = cons (add_all zs s)

Sublistᴰ-insert_all :
    (xs ys added : List Message) (k : ℕ) → Sublistᴰ xs ys → Sublistᴰ xs (insert_all k added ys)
unfolding insert_all
Sublistᴰ-insert_all xs ys added zero s = add_all added s
Sublistᴰ-insert_all xs [] added (suc k) s = add_all added s
Sublistᴰ-insert_all _ _ added (suc k) (cons-cons e s) =
    cons-cons e (Sublistᴰ-insert_all _ _ added k s)
Sublistᴰ-insert_all _ _ added (suc k) (cons s) = cons (Sublistᴰ-insert_all _ _ added k s)

insert_all-length :
    (k : ℕ) (added ms : List Message) → length (insert_all k added ms) ≡ length added + length ms
unfolding insert_all
insert_all-length k added ms =
    let whole = length-append (take k ms) (drop k ms) in
    let same : length (take k ms ++ drop k ms) ≡ length ms = ap length (take-append-drop k ms) in
    let outer : length (insert_all k added ms) ≡ length (take k ms ++ added) + length (drop k ms) =
      length-append (take k ms ++ added) (drop k ms) in
    let inner = length-append (take k ms) added in omega (arith, whole, same, outer, inner)

-- One message for a text that is not empty.
abbrev pub one_if : Text → ℕ
one_if text = if is_empty text then 0 else 1

-- A list that keeps another's messages in order, and has so many more.
abbrev pub Extends : ℕ → List Message → List Message → Type 0
Extends n xs ys = Sublistᴰ xs ys × (length ys ≡ length xs + n)

Extends-insert_all :
    (xs ys added : List Message) (k n : ℕ)
    → Extends n xs ys
    → Extends (n + length added) xs (insert_all k added ys)
Extends-insert_all xs ys added k n (s, l) =
    (Sublistᴰ-insert_all xs ys added k s, omega (arith, insert_all-length k added ys, l))

with_island-Extends :
    (layers : LayerTexts) (offset : Option ℕ) (xs ys : List Message) (n : ℕ)
    → Extends n xs ys
    → Extends (n + one_if layers.mem) xs (with_island layers offset ys)
unfolding with_island
with_island-Extends layers offset xs ys n (s, l) = elim (Bool-cases (is_empty layers.mem)) [
  | inl e ↦ rw (e, with_island) (s, omega (arith, l))
  | inr e ↦
      rw (e, with_island)
        (Extends-insert_all xs ys (island_message layers.mem layers.island_bumps ∷ [])
          (island_index offset ys) n (s, l))
]

with_volatile-Extends :
    (layers : LayerTexts) (xs ys : List Message) (n : ℕ)
    → Extends n xs ys
    → Extends (n + one_if layers.volatile) xs (with_volatile layers ys)
unfolding with_volatile
with_volatile-Extends layers xs ys n (s, l) = elim (Bool-cases (is_empty layers.volatile)) [
  | inl e ↦ rw (e, with_volatile) (s, omega (arith, l))
  | inr e ↦
      rw (e, with_volatile)
        (Extends-insert_all xs ys (system_message layers.volatile ∷ []) (volatile_index ys) n
          (s, l))
]

before_island-Extends :
    (client : List Message) (layers : LayerTexts) (snapshot : Json)
    → Extends
        (length (prefix_layers layers) + length (bridge_messages_from_snapshot snapshot))
        client
        (before_island client layers snapshot)
unfolding before_island with_bridge
before_island-Extends client layers snapshot =
    let prefix = prefix_layers layers in
    Extends-insert_all client (prefix ++ client) (bridge_messages_from_snapshot snapshot) _
      (length prefix)
      (add_all prefix (Sublistᴰ-refl client), omega (arith, length-append prefix client))

-- The assembled messages hold the client's messages, all of them and in their order. They are
-- longer by the prefix of system layers, the bridge, one message for an island and one for a
-- volatile layer.
pub assembled :
    (client_messages : List Message) (layers : LayerTexts) (snapshot : Json) (offset : Option ℕ)
    → Extends
        (length (prefix_layers layers)
          + length (bridge_messages_from_snapshot snapshot)
          + one_if layers.mem
          + one_if layers.volatile)
        client_messages
        (assemble_layered_messages client_messages layers snapshot offset).messages
unfolding assemble_layered_messages
assembled client layers snapshot offset =
    with_volatile-Extends layers client _ _
      (with_island-Extends layers offset client _ _ (before_island-Extends client layers snapshot))

index_or-le :
    (ms : List Message) (i n offset : ℕ)
    → i + length ms ≤ n
    → index_or n (history_indices i ms) offset ≤ n
unfolding index_or history_indices
index_or-le [] i n offset h = omega arith
index_or-le (m ∷ ms) i n zero h = elim (Bool-cases (not (has_role "system" m))) [
  | inl e ↦ rw (e, history_indices) (omega arith)
  | inr e ↦ rw (e, history_indices) (index_or-le ms (suc i) n zero (omega arith))
]
index_or-le (m ∷ ms) i n (suc offset) h = elim (Bool-cases (not (has_role "system" m))) [
  | inl e ↦ rw (e, history_indices) (index_or-le ms (suc i) n offset (omega arith))
  | inr e ↦ rw (e, history_indices) (index_or-le ms (suc i) n (suc offset) (omega arith))
]

-- The index for the island's message stands neither between a tool's result and the result or the
-- call before it, nor at the end after calls that wait for their results.
pub island_whole :
    (messages : List Message) (offset : Option ℕ)
    → (parts_results messages (island_index offset messages) ≡ false)
      × (parts_end messages (island_index offset messages) ≡ false)
unfolding island_index
island_whole ms offset =
    let whole =
      slide_off_tool_transcript-Whole ms
        (index_or (length ms) (history_indices 0 ms) (island_anchor offset ms))
        (index_or-le ms 0 (length ms) _ (omega arith)) in
    (whole.1, whole.2)
