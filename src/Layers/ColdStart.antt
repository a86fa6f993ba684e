-- ===== src/Layers/ColdStart.antt =====
-- `trim_cold_start_sources` of context_layers.py.
use mathlib.Core.List.{reverse, reverse-cons, reverse-reverse}
use shenyugateway.Common.{
  ℕ, ◌-◌, ◌<◌, Bool, true, false, not, ◌&&◌, ◌||◌, List, [], ◌∷◌, ◌++◌, ◌==◌, ◌≡◌, inl, inr, refl,
  sym, ap, ◌∙◌, arith, if◌then◌else◌, length, last_n, last_n-append, drop_past, keep_if, Bool-cases,
  append-nil, append_assoc, length-drop,
}
use shenyugateway.Json.Dicts.{get-put}
use shenyugateway.Json.{
  Json, arr, Fields, get, put, truthy, has_role, list_of, list_items, dict_or_empty, items,
}

-- A message that a bridge may hold.
unfoldable pub is_bridgeable : Json → Bool
is_bridgeable value =
    (has_role "user" (dict_or_empty value) || has_role "assistant" (dict_or_empty value))
    && truthy (get "content" (dict_or_empty value))

unfoldable pub source_messages : Fields → List Json
source_messages source = list_of (get "messages" source)

unfoldable pub bridgeable : Fields → List Json
unfolding is_bridgeable source_messages keep_if
bridgeable source = keep_if is_bridgeable (source_messages source)

unfoldable pub has_messages : List Json → Bool
has_messages [] = false
has_messages (m ∷ ms) = true

-- `trimmed = dict(source); trimmed["messages"] = selected`
unfoldable pub with_messages : Fields → List Json → Fields
with_messages source selected = put "messages" (arr (items selected)) source

-- The loop over the sources, the newest first, with what remains of the limit.
unfoldable pub select_sources : ℕ → List Fields → List Fields
unfolding with_messages has_messages bridgeable
select_sources remaining [] = []
select_sources remaining (source ∷ sources) =
    let selected = last_n remaining (bridgeable source) in
    let without = select_sources remaining sources in
    let later = select_sources (remaining - length selected) sources in
    if not (has_messages (bridgeable source))
    then without
    else if not (has_messages selected)
    then (if remaining == 0 then [] else without)
    else with_messages source selected ∷ (if remaining - length selected == 0 then [] else later)

unfoldable pub trim_cold_start_sources : List Fields → ℕ → List Fields
unfolding select_sources
trim_cold_start_sources sources limit =
    if limit == 0 then [] else reverse (select_sources limit (reverse sources))

-- The messages of all the sources, one after the other.
unfoldable pub all_messages : (Fields → List Json) → List Fields → List Json
all_messages of [] = []
all_messages of (source ∷ sources) = of source ++ all_messages of sources

list_items-items : (vs : List Json) → list_items (items vs) ≡ vs
list_items-items [] = refl
list_items-items (v ∷ vs) = ap (◌∷◌ v) (list_items-items vs)

source_messages-with_messages :
    (source : Fields) (ms : List Json) → source_messages (with_messages source ms) ≡ ms
unfolding source_messages with_messages
source_messages-with_messages source ms =
    ap list_of (get-put "messages" (arr (items ms)) source refl) ∙ list_items-items ms

all_messages-snoc :
    (of : Fields → List Json) (ss : List Fields) (s : Fields)
    → all_messages of (ss ++ s ∷ []) ≡ all_messages of ss ++ of s
unfolding all_messages
all_messages-snoc of [] s = append-nil (of s)
all_messages-snoc of (t ∷ ss) s =
    ap (◌++◌ (of t)) (all_messages-snoc of ss s)
    ∙ sym (append_assoc (of t) (all_messages of ss) (of s))

all_messages-reverse :
    (of : Fields → List Json) (s : Fields) (ss : List Fields)
    → all_messages of (reverse (s ∷ ss)) ≡ all_messages of (reverse ss) ++ of s
unfolding all_messages
all_messages-reverse of s ss =
    ap (all_messages of) (reverse-cons s ss) ∙ all_messages-snoc of (reverse ss) s

no_messages : (ms : List Json) → has_messages ms ≡ false → ms ≡ []
unfolding has_messages
no_messages [] h = refl
no_messages (m ∷ ms) h = absurd (cc h)

some_messages : (ms : List Json) → has_messages ms ≡ true → 0 < length ms
unfolding has_messages
some_messages [] h = absurd (cc h)
some_messages (m ∷ ms) h = omega arith

last_none : (ms : List Json) → last_n 0 ms ≡ []
last_none ms = drop_past (length ms - 0) ms (omega arith)

last_of_none : (n : ℕ) → last_n {A = Json} n [] ≡ []
last_of_none n = drop_past {A = Json} (0 - n) [] (omega arith)

-- What the loop selects ends the sources' messages.
select_sources-last_n :
    (n : ℕ) (ss : List Fields)
    → all_messages source_messages (reverse (select_sources n ss))
      ≡ last_n n (all_messages bridgeable (reverse ss))
unfolding select_sources all_messages
select_sources-last_n n [] = sym (last_of_none n)
select_sources-last_n n (s ∷ ss) =
    let ms = bridgeable s in
    let older = all_messages bridgeable (reverse ss) in
    let len : length (last_n n ms) ≡ length ms - (length ms - n) = length-drop (length ms - n) ms in
    let goal : all_messages source_messages (reverse (select_sources n (s ∷ ss)))
        ≡ last_n (n - length ms) older ++ last_n n ms =
      elim (Bool-cases (has_messages ms)) [
        | inl some_ms ↦ elim (Bool-cases (has_messages (last_n n ms))) [
          | inl some_selected ↦
              let more = some_messages (last_n n ms) some_selected in
              let same : n - length (last_n n ms) ≡ n - length ms = omega (arith, len) in
              let before : all_messages source_messages
                    (reverse (if n - length ms == 0 then [] else select_sources (n - length ms) ss))
                  ≡ last_n (n - length ms) older =
                elim (Bool-cases (n - length ms == 0)) [
                  | inl e ↦
                      let z : n - length ms ≡ 0 = ground arith in
                      rw e (rw z (sym (last_none older)))
                  | inr e ↦ rw e (select_sources-last_n (n - length ms) ss)
                ] in
              rw (some_ms, some_selected, same, select_sources)
                (all_messages-reverse source_messages (with_messages s (last_n n ms))
                    (if n - length ms == 0 then [] else select_sources (n - length ms) ss)
                  ∙ ap (λ l. l ++ source_messages (with_messages s (last_n n ms))) before
                  ∙ ap (◌++◌ (last_n (n - length ms) older))
                      (source_messages-with_messages s (last_n n ms)))
          | inr none_selected ↦
              let many = some_messages ms some_ms in
              let few : length (last_n n ms) ≡ 0 =
                ap length (no_messages (last_n n ms) none_selected) in
              let z : n ≡ 0 = omega (arith, many, few, len) in
              let y : (n == 0) ≡ true = ground arith in
              let x : n - length ms ≡ 0 = omega (arith, z) in
              rw (some_ms, none_selected, y, select_sources)
                (rw (no_messages (last_n n ms) none_selected, x)
                  (sym (ap (λ l. l ++ []) (last_none older))))
        ]
        | inr none_ms ↦
            let z = no_messages ms none_ms in
            rw (none_ms, select_sources)
              (rw (z) (
                let y : n - 0 ≡ n = omega arith in
                rw (y, last_of_none n, append-nil (last_n n older)) (select_sources-last_n n ss)))
      ] in
    goal
    ∙ sym (last_n-append n older ms)
    ∙ ap (last_n n) (sym (all_messages-reverse bridgeable s ss))

-- The messages of the trimmed sources, one source after the other, are the last `limit` messages
-- with a text of the user's or the assistant's in all the sources.
pub trimmed_sources :
    (sources : List Fields) (limit : ℕ)
    → all_messages source_messages (trim_cold_start_sources sources limit)
      ≡ last_n limit (all_messages bridgeable sources)
unfolding trim_cold_start_sources all_messages
trimmed_sources sources limit = elim (Bool-cases (limit == 0)) [
  | inl e ↦
      let z : limit ≡ 0 = ground arith in
      rw (e, trim_cold_start_sources) (rw z (sym (last_none (all_messages bridgeable sources))))
  | inr e ↦
      rw (e, trim_cold_start_sources)
        (select_sources-last_n limit (reverse sources)
          ∙ ap (λ l. last_n limit (all_messages bridgeable l)) (reverse-reverse sources))
]
