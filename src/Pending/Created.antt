-- ===== src/Pending/Created.antt =====
-- A waiting turn of store/_pending.py is found again by its calls.
use mathlib.Core.List.{Perm}
use shenyugateway.Common.{
  Bool, true, false, ◌&&◌, Option, some, List, [], ◌∷◌, ◌++◌, ◌≡◌, ◌≢◌, refl, ap, sym, ◌∙◌, ◌⊎◌,
  inl, inr, arith, Bool-cases,
}
use shenyugateway.Text.{Text, text_eq}
use shenyugateway.Text.Affixes.{text_eq_refl}
use shenyugateway.Json.{Json, arr, items, Stdlib}
use shenyugateway.Pending.CallIds.{text_leb, canonical_tool_call_ids}
use shenyugateway.Pending.Same.{canonical_tool_call_ids-Perm}
use shenyugateway.Pending.{
  Turn, NewTurn, is_open, where_rows, waits_in, turn_from_row, inserted, read_found, find_turn,
  create,
}

abbrev pub Among : Turn → List Turn → Type 0
Among t [] = ⊥
Among t (u ∷ rows) = (t ≡ u) ⊎ Among t rows

-- No row was created after a time, and every row was created before it.
abbrev pub NoneNewer : Text → List Turn → Type 0
NoneNewer time [] = Unit {0}
NoneNewer time (t ∷ rows) = (text_leb t.created_at time ≡ true) × NoneNewer time rows

abbrev pub AllOlder : Text → List Turn → Type 0
AllOlder time [] = Unit {0}
AllOlder time (t ∷ rows) = (text_leb time t.created_at ≡ false) × AllOlder time rows

-- What SQL says of `ORDER BY created_at DESC LIMIT 1`: of one row or more it gives one that none is
-- newer than.
abbrev pub IsNewest : (List Turn → Option Turn) → Type 0
IsNewest newest =
    (t : Turn) (rows : List Turn)
    → (u : Turn) × (newest (t ∷ rows) ≡ some u)
      × Among u (t ∷ rows)
      × NoneNewer u.created_at (t ∷ rows)

where_rows-snoc :
    (test : Turn → Bool) (rows : List Turn) (turn : Turn)
    → test turn ≡ true
    → where_rows test (rows ++ turn ∷ []) ≡ where_rows test rows ++ turn ∷ []
unfolding where_rows
where_rows-snoc test [] turn hit = rw hit refl
where_rows-snoc test (t ∷ rows) turn hit =
    let rest = where_rows-snoc test rows turn hit in
    elim (Bool-cases (test t)) [ inl e ↦ rw (e, rest) refl | inr e ↦ rw (e, rest) refl ]

where_rows-AllOlder :
    (test : Turn → Bool) (time : Text) (rows : List Turn)
    → AllOlder time rows
    → AllOlder time (where_rows test rows)
unfolding where_rows
where_rows-AllOlder test time [] old = tt
where_rows-AllOlder test time (t ∷ rows) (older, old) =
    let rest = where_rows-AllOlder test time rows old in
    elim (Bool-cases (test t)) [ inl e ↦ rw e (older, rest) | inr e ↦ rw e rest ]

-- Among older rows and one at their end, only that one has none after it.
newest_last :
    (u turn : Turn) (rows : List Turn)
    → AllOlder turn.created_at rows
    → Among u (rows ++ turn ∷ [])
    → text_leb turn.created_at u.created_at ≡ true
    → u ≡ turn
newest_last u turn [] old (inl e) h = e
newest_last u turn [] old (inr m) h = elim m [ ]
newest_last u turn (t ∷ rows) (older, old) (inl e) h =
    absurd (cc (ap (λ r. text_leb turn.created_at r.created_at) e, older, h))
newest_last u turn (t ∷ rows) (older, old) (inr m) h = newest_last u turn rows old m h

NoneNewer-last :
    (time : Text) (rows : List Turn) (turn : Turn)
    → NoneNewer time (rows ++ turn ∷ [])
    → text_leb turn.created_at time ≡ true
NoneNewer-last time [] turn h = h.0
NoneNewer-last time (t ∷ rows) turn h = NoneNewer-last time rows turn h.1

newest_snoc :
    (newest : List Turn → Option Turn)
    → IsNewest newest
    → (rows : List Turn) (turn : Turn) → AllOlder turn.created_at rows
    → newest (rows ++ turn ∷ []) ≡ some turn
newest_snoc newest law [] turn old =
    let (u, e, m, h) = law turn [] in e ∙ ap (λ t. some t) (newest_last u turn [] old m h.0)
newest_snoc newest law (t ∷ rows) turn old =
    let (u, e, m, h) = law t (rows ++ turn ∷ []) in
    let last = NoneNewer-last u.created_at (t ∷ rows) turn h in
    e ∙ ap (λ t. some t) (newest_last u turn (t ∷ rows) old m last)

module _ (std : Stdlib) (json_dumps : Json → Text) (loads : Text → Json) where
  read_some :
      (expected : List Text) (t : Turn)
      → expected ≢ []
      → read_found std json_dumps loads expected (some t)
        ≡ some (turn_from_row std json_dumps loads t)
  unfolding read_found
  read_some [] t h = absurd (h refl)
  read_some (id ∷ expected) t h = refl

  -- The row waits in its session under its text, until it expires.
  inserted_waits :
      (new : NewTurn) (now : Text)
      → text_leb now new.expires_at ≡ true
      → let row = inserted std json_dumps loads new in
        (waits_in new.session_id now row
          && text_eq row.client_tool_call_ids_json
              (canonical_tool_call_ids std json_dumps new.client_tool_call_ids).1)
        ≡ true
  unfolding waits_in inserted is_open
  inserted_waits new now live =
      let ids_json = (canonical_tool_call_ids std json_dumps new.client_tool_call_ids).1 in
      ground (arith, text_eq_refl new.session_id, text_eq_refl ids_json, live)

  -- A turn that was just created for a list of calls is found by its session and the same calls in
  -- any order, and read as it was returned, as long as it has not expired, if one of the calls has
  -- an id, every other row was created before it, and SQL gives the newest row.
  pub find_turn-create :
      (newest : List Turn → Option Turn) (new : NewTurn) (calls asked : List Json) (now : Text)
      (rows : List Turn)
      → IsNewest newest
      → new.client_tool_call_ids ≡ arr (items calls)
      → Perm calls asked
      → (canonical_tool_call_ids std json_dumps new.client_tool_call_ids).0 ≢ []
      → text_leb now new.expires_at ≡ true
      → AllOlder new.created_at rows
      → let (created, later) = create std json_dumps loads new rows in
        find_turn std json_dumps loads newest new.session_id (arr (items asked)) now later
        ≡ some created
  unfolding find_turn create
  find_turn-create newest new calls asked now rows law ids perm named live old =
      let canonical = canonical_tool_call_ids std json_dumps in
      let row = inserted std json_dumps loads new in
      let test = λ (c : List Text × Text) (t : Turn).
        waits_in new.session_id now t && text_eq t.client_tool_call_ids_json c.1 in
      let own = canonical new.client_tool_call_ids in
      let same : canonical (arr (items asked)) ≡ own =
        sym (ap canonical ids ∙ canonical_tool_call_ids-Perm std json_dumps calls asked perm) in
      let found : newest (where_rows (test own) (rows ++ row ∷ [])) ≡ some row =
        ap newest (where_rows-snoc (test own) rows row (inserted_waits new now live))
        ∙ newest_snoc newest law (where_rows (test own) rows) row
            (where_rows-AllOlder (test own) new.created_at rows old) in
      ap
        (λ (c : List Text × Text).
          read_found std json_dumps loads c.0 (newest (where_rows (test c) (rows ++ row ∷ []))))
        same
      ∙ ap (read_found std json_dumps loads own.0) found
      ∙ read_some own.0 row named
