-- ===== src/Json/Dicts.antt =====
-- What is read from a dict after an item was assigned or dropped.
use text.Mathlib.Text.{◌==◌ as str_eq}
use text.Mathlib.TextEquality.{eq_iff}
use shenyugateway.Common.{
  String, true, false, [], ◌∷◌, ◌≡◌, refl, ap, ◌∙◌, arith, inl, inr, any, Bool-cases,
}
use shenyugateway.Json.{Json, Fields, end, field, get, put}
use shenyugateway.Registry.Arguments.{has_key, without_keys}

pub get-put : (k : String) (v : Json) (d : Fields) → str_eq k k ≡ true → get k (put k v d) ≡ v
unfolding get put
get-put k v end h = rw h refl
get-put k v (field j u d) h = elim (Bool-cases (str_eq j k)) [
  | inl e ↦ rw (e, put, get) (rw e refl)
  | inr e ↦ rw (e, put, get) (rw e (get-put k v d h))
]

other_key : (i j k : String) → str_eq i k ≡ true → str_eq k j ≡ false → str_eq i j ≡ false
other_key i j k same other = ap (λ s. str_eq s j) ((eq_iff i k).0 same) ∙ other

pub get-put_other :
    (k j : String) (v : Json) (d : Fields) → str_eq k j ≡ false → get j (put k v d) ≡ get j d
unfolding get put
get-put_other k j v end h = rw h refl
get-put_other k j v (field i u d) h = elim (Bool-cases (str_eq i k)) [
  | inl e ↦ rw (e, put, get) (rw (other_key i j k e h) refl)
  | inr e ↦ rw (e, put, get) (rw (get-put_other k j v d h) refl)
]

pub has_key-put_other :
    (k j : String) (v : Json) (d : Fields)
    → str_eq k j ≡ false
    → has_key j (put k v d) ≡ has_key j d
unfolding has_key put
has_key-put_other k j v end h = rw h refl
has_key-put_other k j v (field i u d) h = elim (Bool-cases (str_eq i k)) [
  | inl e ↦ rw (e, put, has_key) (rw (other_key i j k e h) refl)
  | inr e ↦ rw (e, put, has_key) (rw (has_key-put_other k j v d h) refl)
]

pub has_key-without : (k : String) (d : Fields) → has_key k (without_keys (k ∷ []) d) ≡ false
unfolding has_key without_keys any
has_key-without k end = refl
has_key-without k (field i u d) = elim (Bool-cases (str_eq i k)) [
  | inl e ↦ rw (e, without_keys) (has_key-without k d)
  | inr e ↦ rw (e, without_keys, has_key) (rw e (has_key-without k d))
]

pub has_key-put :
    (k : String) (v : Json) (d : Fields) → str_eq k k ≡ true → has_key k (put k v d) ≡ true
unfolding has_key put
has_key-put k v end h = rw h refl
has_key-put k v (field i u d) h = elim (Bool-cases (str_eq i k)) [
  | inl e ↦ rw (e, put, has_key) (rw e refl)
  | inr e ↦ rw (e, put, has_key) (rw (e, has_key-put k v d h) refl)
]

-- Assigning what stands there already changes nothing.
pub put-same :
    (k : String) (v : Json) (d : Fields) → has_key k d ≡ true → get k d ≡ v → put k v d ≡ d
unfolding has_key put get
put-same k v end h e = absurd (cc h)
put-same k v (field i u d) h e = elim (Bool-cases (str_eq i k)) [
  | inl f ↦ let z : u ≡ v = ground (arith, f, e) in rw (f, put) (rw z refl)
  | inr f ↦
      let later : has_key k d ≡ true = ground (arith, f, h) in
      let here : get k d ≡ v = ground (arith, f, e) in
      rw (f, put) (ap (field i u) (put-same k v d later here))
]
