-- ===== src/Pending.antt =====
-- shenyu_gateway/store/_pending.py: the tool turns that wait for the client's tool results. The
-- table is a list of rows, and each SQL statement is what it does to them.
pub mod CallIds
pub mod Same
pub mod Turns
pub mod Created
mod Tests
use mathlib.Core.Option
use shenyugateway.Common.{
  take, min, max, ℕ, suc, Bool, true, false, not, ◌&&◌, ◌||◌, Option, none, some, List, [], ◌∷◌,
  ◌++◌, ◌==◌, if◌then◌else◌, map,
}
use shenyugateway.Json.{Json, Stdlib}
use shenyugateway.Text.{Text, codes, text_eq, is_empty}
use shenyugateway.Pending.CallIds.{text_leb, canonical_tool_call_ids}

-- A row of `pending_gateway_tool_turns`.
pub record Turn : Type 0 where
  pub id : Text
  pub session_id : Text
  pub session_tag : Text
  pub client_tool_call_ids_json : Text
  pub original_assistant_json : Text
  pub gateway_tool_messages_json : Text
  pub created_at : Text
  pub expires_at : Text
  pub consumed_at : Option Text

unfoldable pub is_open : Turn → Bool
is_open t = elim t.consumed_at [ none ↦ true | some time ↦ false ]

unfoldable pub where_rows : (Turn → Bool) → List Turn → List Turn
where_rows test [] = []
where_rows test (t ∷ rows) = let rest = where_rows test rows in if test t then t ∷ rest else rest

unfoldable pub count_rows : (Turn → Bool) → List Turn → ℕ
count_rows test [] = 0
count_rows test (t ∷ rows) = let rest = count_rows test rows in if test t then suc rest else rest

-- `session_id = ? AND consumed_at IS NULL AND expires_at >= ?`
unfoldable pub waits_in : Text → Text → Turn → Bool
unfolding is_open text_leb
waits_in session_id now t =
    text_eq t.session_id session_id && is_open t && text_leb now t.expires_at

-- `count_pending_gateway_tool_turns`
unfoldable pub count_turns : Text → Text → List Turn → ℕ
unfolding count_rows waits_in
count_turns session_id now rows = count_rows (waits_in session_id now) rows

unfoldable pub one_of : Text → List Text → Bool
one_of id [] = false
one_of id (i ∷ ids) = (not (is_empty i) && text_eq i id) || one_of id ids

-- `mark_pending_gateway_tool_turns_consumed`: the rows afterwards, and how many were updated.
unfoldable pub consume : List Text → Text → Turn → Turn
unfolding is_open one_of
consume ids now t = if is_open t && one_of t.id ids then record t { consumed_at = some now } else t

unfoldable pub mark_consumed : List Text → Text → List Turn → List Turn × ℕ
unfolding consume count_rows
mark_consumed ids now rows =
    (map (consume ids now) rows, count_rows (λ t. is_open t && one_of t.id ids) rows)

-- `prune_pending_gateway_tool_turns`: an absent session is the empty text.
unfoldable pub is_prunable : Text → Text → Turn → Bool
unfolding is_open text_leb
is_prunable session_id now t =
    (not (is_open t) || not (text_leb now t.expires_at))
    && (is_empty session_id || text_eq t.session_id session_id)

unfoldable pub prune : Text → Text → List Turn → List Turn × ℕ
unfolding where_rows count_rows is_prunable
prune session_id now rows = (
  where_rows (λ t. not (is_prunable session_id now t)) rows,
  count_rows (is_prunable session_id now) rows,
)

-- `ORDER BY created_at ASC`: rows with the same time stay in the table's order.
unfoldable pub insert_turn : Turn → List Turn → List Turn
unfolding text_leb
insert_turn t [] = t ∷ []
insert_turn t (u ∷ rows) =
    let rest = insert_turn t rows in
    if text_leb t.created_at u.created_at then t ∷ u ∷ rows else u ∷ rest

unfoldable pub oldest_first : List Turn → List Turn
unfolding insert_turn
oldest_first [] = []
oldest_first (t ∷ rows) = insert_turn t (oldest_first rows)

-- `get_pending_gateway_tool_turns`; a limit of 0 is the default one.
unfoldable pub list_turns : Text → ℕ → List Turn → List Turn
unfolding where_rows oldest_first
list_turns session_id limit rows =
    let asked = if limit == 0 then 1000 else limit in
    take (max 1 (min asked 5000))
      (oldest_first (where_rows (λ t. text_eq t.session_id session_id) rows))

-- What `_pending_gateway_tool_turn_from_row` makes of a row: the row, and its three columns of JSON.
pub record ReadTurn : Type 0 where
  pub row : Turn
  pub client_tool_call_ids : Json
  pub original_assistant_message : Json
  pub gateway_tool_messages : Json

-- What a turn is created from, with the id that is drawn for it and its two times.
pub record NewTurn : Type 0 where
  pub id : Text
  pub session_id : Text
  pub session_tag : Text
  pub client_tool_call_ids : Json
  pub original_assistant_message : Json
  pub gateway_tool_messages : Json
  pub created_at : Text
  pub expires_at : Text

-- `json_dumps` of runtime.py, and `json.loads` of a text.
module _ (std : Stdlib) (json_dumps : Json → Text) (loads : Text → Json) where
  unfoldable pub turn_from_row : Turn → ReadTurn
  turn_from_row t = record {
    row = t;
    client_tool_call_ids =
        loads (
          if is_empty t.client_tool_call_ids_json then codes "[]" else t.client_tool_call_ids_json);
    original_assistant_message =
        loads
          (if is_empty t.original_assistant_json then codes "{}" else t.original_assistant_json);
    gateway_tool_messages = loads (
        if is_empty t.gateway_tool_messages_json then codes "[]" else t.gateway_tool_messages_json);
  }

  unfoldable pub inserted : NewTurn → Turn
  unfolding canonical_tool_call_ids
  inserted new = record {
    id = new.id;
    session_id = new.session_id;
    session_tag = new.session_tag;
    client_tool_call_ids_json = (canonical_tool_call_ids std json_dumps new.client_tool_call_ids).1;
    original_assistant_json = json_dumps new.original_assistant_message;
    gateway_tool_messages_json = json_dumps new.gateway_tool_messages;
    created_at = new.created_at;
    expires_at = new.expires_at;
    consumed_at = none;
  }

  -- `create_pending_gateway_tool_turn`, of an id that no row has: what it returns, and the rows
  -- afterwards.
  unfoldable pub create : NewTurn → List Turn → ReadTurn × List Turn
  unfolding inserted turn_from_row
  create new rows = (turn_from_row (inserted new), rows ++ inserted new ∷ [])

  -- Without an id nothing is looked for.
  unfoldable pub read_found : List Text → Option Turn → Option ReadTurn
  unfolding turn_from_row
  read_found [] found = none
  read_found (id ∷ expected) found = Option.map turn_from_row found

  -- `find_pending_gateway_tool_turn`. `newest` is `ORDER BY created_at DESC LIMIT 1`, which does not
  -- say which one of several rows of the same time it takes.
  unfoldable pub find_turn :
      (List Turn → Option Turn) → Text → Json → Text → List Turn → Option ReadTurn
  unfolding where_rows waits_in canonical_tool_call_ids read_found
  find_turn newest session_id client_tool_call_ids now rows =
      let (expected, ids_json) = canonical_tool_call_ids std json_dumps client_tool_call_ids in
      read_found expected (
        newest (
          where_rows
            (λ t. waits_in session_id now t && text_eq t.client_tool_call_ids_json ids_json) rows))
