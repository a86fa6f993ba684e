-- ===== src/Pending/Tests.antt =====
-- Runs of the table of waiting turns.
use mathlib.Core.List.Perm
use shenyugateway.Common.{
  Option, none, some, List, [], ◌∷◌, ◌++◌, ◌≡◌, ◌≢◌, inl, inr, true, refl, map, Bool-cases,
  if◌then◌else◌,
}
use shenyugateway.Text.{Text, codes, join, is_space}
use shenyugateway.Json.{Json, null, str, arr, obj, nil, end, items, list_items, Stdlib, to_str}
use shenyugateway.Pending.CallIds.{text_leb, canonical_tool_call_ids}
use shenyugateway.Pending.Same.{text_leb_refl, text_leb_total, text_leb_trans}
use shenyugateway.Pending.{Turn, NewTurn, find_turn, count_turns, mark_consumed, prune, create}
use shenyugateway.Pending.Turns.{find_turn-prune, mark_consumed-twice}
use shenyugateway.Pending.Created.{NoneNewer, AllOlder, IsNewest, find_turn-create}

abbrev turn : Turn
turn = record {
  id = codes "pgt_1";
  session_id = codes "s";
  session_tag = codes "tag";
  client_tool_call_ids_json = codes "[c1]";
  original_assistant_json = codes "{}";
  gateway_tool_messages_json = codes "[]";
  created_at = codes "2026-01-02";
  expires_at = codes "2026-01-03";
  consumed_at = none;
}

abbrev older : Turn
older = record turn { id = codes "pgt_0"; created_at = codes "2026-01-01" }

abbrev std : Stdlib
std = record {
  repr = λ v. [];
  dumps = λ v. codes "[]";
  sha256_hex = λ t. t;
  lower = λ t. t;
  regex_sub = λ pattern new t. t;
}

-- The texts of the ids, each between brackets.
abbrev json_dumps : Json → Text
json_dumps (arr vs) = join (map (λ v. codes "[" ++ (to_str std v ++ codes "]")) (list_items vs))
json_dumps value = codes "{}"

abbrev loads : Text → Json
loads t = null

-- Of several newest rows the first one.
unfoldable latest : List Turn → Option Turn
unfolding text_leb
latest [] = none
latest (t ∷ rows) = elim (latest rows) [
  | none ↦ some t
  | some u ↦ if text_leb u.created_at t.created_at then some t else some u
]

NoneNewer-le :
    (time later : Text) (rows : List Turn)
    → text_leb time later ≡ true
    → NoneNewer time rows
    → NoneNewer later rows
NoneNewer-le time later [] h k = tt
NoneNewer-le time later (t ∷ rows) h (le, k) =
    (text_leb_trans t.created_at time later le h, NoneNewer-le time later rows h k)

latest-IsNewest : IsNewest latest
unfolding latest
latest-IsNewest t [] = (t, refl, inl refl, (text_leb_refl t.created_at, tt))
latest-IsNewest t (s ∷ rows) =
    let (u, e, m, h) = latest-IsNewest s rows in
    elim (Bool-cases (text_leb u.created_at t.created_at)) [
      | inl le ↦ (
        t,
        rw (e, le) refl,
        inl refl,
        (text_leb_refl t.created_at, NoneNewer-le u.created_at t.created_at (s ∷ rows) le h),
      )
      | inr gt ↦ (u, rw (e, gt) refl, inr m, (text_leb_total u.created_at t.created_at gt, h))
    ]

find_turn-prune_run :
    (find_turn std json_dumps loads latest
        (codes "s")
        (arr (items (str (codes "c1") ∷ [])))
        (codes "2026-01-02")
        (prune [] (codes "2026-01-02") (older ∷ turn ∷ [])).0
      ≡ find_turn std json_dumps loads latest
          (codes "s")
          (arr (items (str (codes "c1") ∷ [])))
          (codes "2026-01-02")
          (older ∷ turn ∷ []))
    × (count_turns
          (codes "s")
          (codes "2026-01-02")
          (prune [] (codes "2026-01-02") (older ∷ turn ∷ [])).0
        ≡ count_turns (codes "s") (codes "2026-01-02") (older ∷ turn ∷ []))
find_turn-prune_run =
    find_turn-prune std json_dumps loads latest (codes "s") [] (codes "2026-01-02")
      (arr (items (str (codes "c1") ∷ []))) (older ∷ turn ∷ [])

mark_consumed-twice_run :
    (mark_consumed
      (codes "pgt_1" ∷ [])
      (codes "2026-01-03")
      (mark_consumed (codes "pgt_1" ∷ []) (codes "2026-01-02") (older ∷ turn ∷ [])).0).1
    ≡ 0
mark_consumed-twice_run =
    mark_consumed-twice (codes "pgt_1" ∷ []) (codes "2026-01-02") (codes "2026-01-03")
      (older ∷ turn ∷ [])

-- A new turn of two calls, named out of order.
abbrev calls : List Json
calls = str (codes "c2") ∷ str (codes "c1") ∷ []

abbrev new_turn : NewTurn
new_turn = record {
  id = codes "pgt_2";
  session_id = codes "s";
  session_tag = codes "tag";
  client_tool_call_ids = arr (items calls);
  original_assistant_message = obj end;
  gateway_tool_messages = arr nil;
  created_at = codes "2026-01-03";
  expires_at = codes "2026-01-04";
}

live : text_leb (codes "2026-01-03") (codes "2026-01-04") ≡ true
unfolding text_leb
live = refl

older_rows : AllOlder (codes "2026-01-03") (older ∷ turn ∷ [])
unfolding text_leb
older_rows = (refl, (refl, tt))

has_ids : (canonical_tool_call_ids std json_dumps (arr (items calls))).0 ≢ []
unfolding canonical_tool_call_ids is_space
has_ids e = cc e

find_turn-create_example :
    find_turn std json_dumps loads latest
      (codes "s")
      (arr (items (str (codes "c1") ∷ str (codes "c2") ∷ [])))
      (codes "2026-01-03")
      (create std json_dumps loads new_turn (older ∷ turn ∷ [])).1
    ≡ some (create std json_dumps loads new_turn (older ∷ turn ∷ [])).0
find_turn-create_example =
    find_turn-create std json_dumps loads latest new_turn calls
      (str (codes "c1") ∷ str (codes "c2") ∷ []) (codes "2026-01-03") (older ∷ turn ∷ [])
      latest-IsNewest refl (Perm.swap (str (codes "c1")) (str (codes "c2")) []) has_ids live
      older_rows

-- The ids are sorted, and each stands once.
canonical_run :
    (canonical_tool_call_ids std json_dumps
      (arr (items (str (codes "c2") ∷ null ∷ str (codes " c1 ") ∷ str (codes "c2") ∷ [])))).0
    ≡ codes "c1" ∷ codes "c2" ∷ []
unfolding canonical_tool_call_ids is_space
canonical_run = refl
