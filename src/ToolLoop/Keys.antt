-- ===== src/ToolLoop/Keys.antt =====
-- The keys of the dict that caches tool results in tool_loop.py.
use shenyugateway.Common.{
  Bool, false, none, List, [], ◌∷◌, ◌++◌, ◌≡◌, refl, ap, arith, inl, inr, any, Bool-cases,
}
use shenyugateway.Text.{Text, text_eq}
use shenyugateway.ToolLoop.Errors.{ToolResult}
use shenyugateway.ToolLoop.State.{value_at, assign}

-- No text stands twice in a list.
abbrev pub Distinct : List Text → Type 0
Distinct [] = Unit {0}
Distinct (t ∷ ts) = (any (text_eq t) ts ≡ false) × Distinct ts

abbrev pub keys_of : List (Text × ToolResult) → List Text
keys_of [] = []
keys_of ((k, v) ∷ d) = k ∷ keys_of d

any-snoc :
    (test : Text → Bool) (ts : List Text) (t : Text)
    → any test ts ≡ false
    → test t ≡ false
    → any test (ts ++ t ∷ []) ≡ false
unfolding any
any-snoc test [] t h k = rw k refl
any-snoc test (u ∷ ts) t h k = let rest = any-snoc test ts t in ground arith

-- A key that is not found is new, and goes to the end.
pub assign-keys :
    (key : Text) (value : ToolResult) (d : List (Text × ToolResult))
    → value_at key d ≡ none
    → keys_of (assign key value d) ≡ keys_of d ++ key ∷ []
unfolding value_at assign
assign-keys key value [] h = refl
assign-keys key value ((k, v) ∷ d) h = elim (Bool-cases (text_eq k key)) [
  | inl e ↦ absurd (ground (arith, e, h))
  | inr e ↦
      let rest : value_at key d ≡ none = ground (arith, e, h) in
      rw e (ap (◌∷◌ k) (assign-keys key value d rest))
]

pub Distinct-snoc :
    (key : Text) (d : List (Text × ToolResult))
    → value_at key d ≡ none
    → Distinct (keys_of d)
    → Distinct (keys_of d ++ key ∷ [])
unfolding value_at any
Distinct-snoc key [] h k = (refl, tt)
Distinct-snoc key ((j, v) ∷ d) h (new, k) = elim (Bool-cases (text_eq j key)) [
  | inl e ↦ absurd (ground (arith, e, h))
  | inr e ↦
      let rest : value_at key d ≡ none = ground (arith, e, h) in
      (any-snoc (text_eq j) (keys_of d) key new e, Distinct-snoc key d rest k)
]
