-- ===== src/Pending/Same.antt =====
-- The canonical text of tool call ids in store/_base.py does not depend on the ids' order.
use mathlib.Core.List.{Perm, Permᴰ}
use mathlib.Core.Logic.{∥∥₁_elim}
use shenyugateway.Common.{
  true, false, List, [], ◌∷◌, ◌≡◌, refl, ap, ◌∙◌, ◌⊎◌, arith, map, inl, inr, Bool-cases,
}
use shenyugateway.Text.{Text, text_eq, strip}
use shenyugateway.Text.Affixes.{text_eq_refl, eq_of_text_eq}
use shenyugateway.Json.{Json, null, boolean, number, str, arr, obj, items, Stdlib, to_str}
use shenyugateway.Pending.CallIds.{
  text_leb, insert_id, add_id_text, add_call_id, call_ids_of, as_values, canonical_tool_call_ids,
}

pub text_leb_refl : (a : Text) → text_leb a a ≡ true
unfolding text_leb
text_leb_refl [] = refl
text_leb_refl (c ∷ a) = ground (arith, text_leb_refl a)

pub text_leb_total : (a b : Text) → text_leb a b ≡ false → text_leb b a ≡ true
unfolding text_leb
text_leb_total [] b h = cc h
text_leb_total (c ∷ a) [] h = refl
text_leb_total (c ∷ a) (d ∷ b) h = ground (arith, text_leb_total a b, h)

text_leb_antisym : (a b : Text) → text_leb a b ≡ true → text_leb b a ≡ true → text_eq a b ≡ true
unfolding text_leb
text_leb_antisym [] [] h k = refl
text_leb_antisym [] (d ∷ b) h k = cc k
text_leb_antisym (c ∷ a) [] h k = cc h
text_leb_antisym (c ∷ a) (d ∷ b) h k = ground (arith, text_leb_antisym a b, h, k)

pub text_leb_trans :
    (a b c : Text) → text_leb a b ≡ true → text_leb b c ≡ true → text_leb a c ≡ true
unfolding text_leb
text_leb_trans [] b c h k = refl
text_leb_trans (x ∷ a) [] c h k = cc h
text_leb_trans (x ∷ a) (y ∷ b) [] h k = cc k
text_leb_trans (x ∷ a) (y ∷ b) (z ∷ c) h k = ground (arith, text_leb_trans a b c, h, k)

text_neq_comm : (a b : Text) → text_eq a b ≡ false → text_eq b a ≡ false
text_neq_comm a b h = ground (arith, eq_of_text_eq b a, text_eq_refl a, h)

insert_id-swap :
    (a b : Text) (ids : List Text)
    → text_eq a b ≡ false
    → insert_id a (insert_id b ids) ≡ insert_id b (insert_id a ids)
unfolding insert_id
insert_id-swap a b [] h =
    ground (arith, text_leb_total a b, text_leb_antisym a b, eq_of_text_eq b a, text_eq_refl a, h)
insert_id-swap a b (i ∷ ids) h =
    let k = text_neq_comm a b h in
    ground (
      arith,
      insert_id-swap a b ids h,
      h,
      k,
      eq_of_text_eq a i,
      eq_of_text_eq b i,
      text_leb_total a b,
      text_leb_antisym a b,
      text_leb_trans a b i,
      text_leb_trans b a i,
    )

add_id_text-swap :
    (a b : Text) (ids : List Text)
    → add_id_text a (add_id_text b ids) ≡ add_id_text b (add_id_text a ids)
unfolding add_id_text
add_id_text-swap a b ids = elim (Bool-cases (text_eq a b)) [
  | inl e ↦ let same = eq_of_text_eq a b e in rw same refl
  | inr e ↦ ground (arith, insert_id-swap a b ids e)
]

-- A value adds nothing, or a text.
Adds : (List Text → List Text) → Type 0
Adds add = (add ≡ λ ids. ids) ⊎ ((text : Text) × (add ≡ add_id_text text))

add_call_id-Adds : (std : Stdlib) (v : Json) → Adds (add_call_id std v)
unfolding add_call_id Adds
add_call_id-Adds std null = inl refl
add_call_id-Adds std (boolean b) = inr (strip (to_str std (boolean b)), refl)
add_call_id-Adds std (number n k e) = inr (strip (to_str std (number n k e)), refl)
add_call_id-Adds std (str t) = inr (strip (to_str std (str t)), refl)
add_call_id-Adds std (arr vs) = inr (strip (to_str std (arr vs)), refl)
add_call_id-Adds std (obj d) = inr (strip (to_str std (obj d)), refl)

Adds-swap :
    (f g : List Text → List Text) (ids : List Text) → Adds f → Adds g → f (g ids) ≡ g (f ids)
unfolding Adds
Adds-swap f g ids (inl e) h = rw e refl
Adds-swap f g ids (inr (t, e)) (inl h) = rw h refl
Adds-swap f g ids (inr (t, e)) (inr (u, h)) = rw (e, h) (add_id_text-swap t u ids)

add_call_id-swap :
    (std : Stdlib) (v w : Json) (ids : List Text)
    → add_call_id std v (add_call_id std w ids) ≡ add_call_id std w (add_call_id std v ids)
add_call_id-swap std v w ids =
    Adds-swap (add_call_id std v) (add_call_id std w) ids (add_call_id-Adds std v)
      (add_call_id-Adds std w)

call_ids_of-Permᴰ :
    (std : Stdlib) {vs ws : List Json}
    → Permᴰ vs ws
    → call_ids_of std (items vs) ≡ call_ids_of std (items ws)
unfolding call_ids_of
call_ids_of-Permᴰ std Permᴰ.nil = refl
call_ids_of-Permᴰ std (Permᴰ.cons {l₁ = vs} {l₂ = ws} e p) =
    λ i. add_call_id std (e i) (call_ids_of-Permᴰ std p i)
call_ids_of-Permᴰ std (Permᴰ.swap {a} {b} {l = vs} e f) =
    add_call_id-swap std a b (call_ids_of std (items vs)) ∙ λ i.
    add_call_id std (f i) (add_call_id std (e i) (call_ids_of std (items vs)))
call_ids_of-Permᴰ std (Permᴰ.trans p q) = call_ids_of-Permᴰ std p ∙ call_ids_of-Permᴰ std q

texts_set : IsSet (List Text)
texts_set = hlevel

-- The same values in any order have the same ids, and these the same text.
pub canonical_tool_call_ids-Perm :
    (std : Stdlib) (json_dumps : Json → Text) (vs ws : List Json)
    → Perm vs ws
    → canonical_tool_call_ids std json_dumps (arr (items vs))
      ≡ canonical_tool_call_ids std json_dumps (arr (items ws))
unfolding canonical_tool_call_ids as_values
canonical_tool_call_ids-Perm std json_dumps vs ws p =
    let same : call_ids_of std (items vs) ≡ call_ids_of std (items ws) =
      ∥∥₁_elim p (texts_set _ _) (call_ids_of-Permᴰ std) in
    ap (λ ids. (ids, json_dumps (arr (items (map (λ id. str id) ids))))) same
