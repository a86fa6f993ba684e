-- ===== src/Pending/Turns.antt =====
-- What pruning and consuming do to the turns that are found.
use shenyugateway.Common.{
  Bool, true, false, not, ◌&&◌, Option, List, [], ◌∷◌, ◌≡◌, refl, ap, arith, map, Bool-cases, inl,
  inr,
}
use shenyugateway.Text.{Text, text_eq}
use shenyugateway.Json.{Json, Stdlib}
use shenyugateway.Pending.{
  Turn, is_open, where_rows, count_rows, waits_in, read_found, find_turn, count_turns, one_of,
  consume, mark_consumed, is_prunable, prune,
}
use shenyugateway.Pending.CallIds.{canonical_tool_call_ids}

-- Rows that a first test lets through are all found by a second one that is weaker.
where_rows-where_rows :
    (strong weak : Turn → Bool)
    → ((t : Turn) → strong t ≡ true → weak t ≡ true)
    → (rows : List Turn) → where_rows strong (where_rows weak rows) ≡ where_rows strong rows
unfolding where_rows
where_rows-where_rows strong weak h [] = refl
where_rows-where_rows strong weak h (t ∷ rows) =
    ground (arith, where_rows-where_rows strong weak h rows, h t)

count_rows-where_rows :
    (strong weak : Turn → Bool)
    → ((t : Turn) → strong t ≡ true → weak t ≡ true)
    → (rows : List Turn) → count_rows strong (where_rows weak rows) ≡ count_rows strong rows
unfolding where_rows count_rows
count_rows-where_rows strong weak h [] = refl
count_rows-where_rows strong weak h (t ∷ rows) =
    ground (arith, count_rows-where_rows strong weak h rows, h t)

waits_in-kept :
    (session pruned now : Text) (t : Turn)
    → waits_in session now t ≡ true
    → not (is_prunable pruned now t) ≡ true
unfolding waits_in is_prunable
waits_in-kept session pruned now t h = ground arith

found-kept :
    (session pruned now ids_json : Text) (t : Turn)
    → (waits_in session now t && text_eq t.client_tool_call_ids_json ids_json) ≡ true
    → not (is_prunable pruned now t) ≡ true
found-kept session pruned now ids_json t h =
    let w : waits_in session now t ≡ true = ground arith in waits_in-kept session pruned now t w

module _ (std : Stdlib) (json_dumps : Json → Text) (loads : Text → Json) where
  -- Pruning, of one session or of all, changes nothing that is found or counted at that time.
  pub find_turn-prune :
      (newest : List Turn → Option Turn) (session pruned now : Text) (ids : Json) (rows : List Turn)
      → (find_turn std json_dumps loads newest session ids now (prune pruned now rows).0
          ≡ find_turn std json_dumps loads newest session ids now rows)
        × (count_turns session now (prune pruned now rows).0 ≡ count_turns session now rows)
  unfolding find_turn count_turns prune
  find_turn-prune newest session pruned now ids rows =
      let (expected, ids_json) = canonical_tool_call_ids std json_dumps ids in
      (
        ap (λ found. read_found std json_dumps loads expected (newest found))
            (where_rows-where_rows _ _ (found-kept session pruned now ids_json) rows),
        count_rows-where_rows _ _ (waits_in-kept session pruned now) rows,
      )

consume-closed :
    (ids : List Text) (now : Text) (t : Turn)
    → (is_open (consume ids now t) && one_of (consume ids now t).id ids) ≡ false
unfolding consume is_open
consume-closed ids now t = elim (Bool-cases (is_open t && one_of t.id ids)) [
  | inl e ↦ rw e refl
  | inr e ↦ rw e e
]

consume-count :
    (ids : List Text) (now : Text) (ts : List Turn)
    → count_rows (λ t. is_open t && one_of t.id ids) (map (consume ids now) ts) ≡ 0
unfolding count_rows
consume-count ids now [] = refl
consume-count ids now (t ∷ ts) = rw (consume-closed ids now t) (consume-count ids now ts)

-- Marking the same ids again updates nothing: a turn is consumed once.
pub mark_consumed-twice :
    (ids : List Text) (now later : Text) (rows : List Turn)
    → (mark_consumed ids later (mark_consumed ids now rows).0).1 ≡ 0
unfolding mark_consumed
mark_consumed-twice ids now later rows = consume-count ids now rows
