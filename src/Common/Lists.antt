-- ===== src/Common/Lists.antt =====
-- Lists measured and sliced by native numbers, under the library's names.
use Prim.Native.Nat.{ℕ, zero, suc, ◌+◌, ◌-◌, ◌≤◌, ◌<◌, min}
use mathlib.Core.Bool.{Bool, true, false, ◌&&◌, ◌||◌}
use shenyugateway.Common.Tests.{if◌then◌else◌}
use mathlib.Core.Path.{◌≡◌, refl, sym, ap, ◌∙◌}
use mathlib.Core.List.{List, [], ◌∷◌, ◌++◌}
use native.Mathlib.Omega.{arith}
use native.Mathlib.Decide.{dec_le}

module _ {ℓ} {A : Type ℓ} where
  abbrev pub length : List A → ℕ
  length [] = 0
  length (x ∷ xs) = suc (length xs)

  abbrev pub take : ℕ → List A → List A
  take zero xs = []
  take (suc n) [] = []
  take (suc n) (x ∷ xs) = x ∷ take n xs

  abbrev pub drop : ℕ → List A → List A
  drop zero xs = xs
  drop (suc n) [] = []
  drop (suc n) (x ∷ xs) = drop n xs

  pub length-append : (xs ys : List A) → length (xs ++ ys) ≡ length xs + length ys
  length-append [] ys = omega arith
  length-append (x ∷ xs) ys = omega (arith, length-append xs ys)

  pub take-append-drop : (n : ℕ) (xs : List A) → take n xs ++ drop n xs ≡ xs
  take-append-drop zero xs = refl
  take-append-drop (suc n) [] = refl
  take-append-drop (suc n) (x ∷ xs) = ap (◌∷◌ x) (take-append-drop n xs)

  pub length-take : (n : ℕ) (xs : List A) → length (take n xs) ≡ min n (length xs)
  length-take zero xs = omega arith
  length-take (suc n) [] = omega arith
  length-take (suc n) (x ∷ xs) = omega (arith, length-take n xs)

  pub length-drop : (n : ℕ) (xs : List A) → length (drop n xs) ≡ length xs - n
  length-drop zero xs = omega arith
  length-drop (suc n) [] = omega arith
  length-drop (suc n) (x ∷ xs) = omega (arith, length-drop n xs)

  pub take_append_self : (xs ys : List A) → take (length xs) (xs ++ ys) ≡ xs
  take_append_self [] ys = refl
  take_append_self (x ∷ xs) ys = ap (◌∷◌ x) (take_append_self xs ys)

  pub drop_append_self : (xs ys : List A) → drop (length xs) (xs ++ ys) ≡ ys
  drop_append_self [] ys = refl
  drop_append_self (x ∷ xs) ys = drop_append_self xs ys

  pub take_all : (n : ℕ) (xs : List A) → length xs ≤ n → take n xs ≡ xs
  take_all zero [] h = refl
  take_all zero (x ∷ xs) h = absurd (omega arith)
  take_all (suc n) [] h = refl
  take_all (suc n) (x ∷ xs) h = ap (◌∷◌ x) (take_all n xs (omega arith))

  -- A test of the element at an index: false past the end.
  abbrev pub holds_at : (A → Bool) → List A → ℕ → Bool
  holds_at test [] i = false
  holds_at test (x ∷ xs) zero = test x
  holds_at test (x ∷ xs) (suc i) = holds_at test xs i

  pub holds_at-drop :
      (test : A → Bool) (i : ℕ) (xs ys : List A) (y : A)
      → drop i xs ≡ y ∷ ys
      → holds_at test xs i ≡ test y
  holds_at-drop test zero [] ys y e = absurd (cc e)
  holds_at-drop test zero (x ∷ xs) ys y e = cc e
  holds_at-drop test (suc i) [] ys y e = absurd (cc e)
  holds_at-drop test (suc i) (x ∷ xs) ys y e = holds_at-drop test i xs ys y e

  pub drop-suc : (i : ℕ) (xs ys : List A) (y : A) → drop i xs ≡ y ∷ ys → drop (suc i) xs ≡ ys
  drop-suc zero [] ys y e = absurd (cc e)
  drop-suc zero (x ∷ xs) ys y e = cc e
  drop-suc (suc i) [] ys y e = absurd (cc e)
  drop-suc (suc i) (x ∷ xs) ys y e = drop-suc i xs ys y e

  pub holds_at_past :
      (test : A → Bool) (i : ℕ) (xs : List A) → length xs ≤ i → holds_at test xs i ≡ false
  holds_at_past test i [] h = refl
  holds_at_past test zero (x ∷ xs) h = absurd (omega arith)
  holds_at_past test (suc i) (x ∷ xs) h = holds_at_past test i xs (omega arith)

  pub holds_at-excludes :
      (test other : A → Bool)
      → ((x : A) → test x ≡ true → other x ≡ false)
      → (i : ℕ) (xs : List A) → holds_at test xs i ≡ true
      → holds_at other xs i ≡ false
  holds_at-excludes test other h i [] e = refl
  holds_at-excludes test other h zero (x ∷ xs) e = h x e
  holds_at-excludes test other h (suc i) (x ∷ xs) e = holds_at-excludes test other h i xs e

  pub take-suc :
      (i : ℕ) (xs ys : List A) (y : A) → drop i xs ≡ y ∷ ys → take (suc i) xs ≡ take i xs ++ y ∷ []
  take-suc zero [] ys y e = absurd (cc e)
  take-suc zero (x ∷ xs) ys y e = let z : x ≡ y = cc e in rw z refl
  take-suc (suc i) [] ys y e = absurd (cc e)
  take-suc (suc i) (x ∷ xs) ys y e = ap (◌∷◌ x) (take-suc i xs ys y e)

  drop_nothing : (k : ℕ) → [] ≡ drop k []
  drop_nothing zero = refl
  drop_nothing (suc k) = refl

  pub drop-add : (i j : ℕ) (xs : List A) → drop (i + j) xs ≡ drop j (drop i xs)
  drop-add zero j xs = let e : 0 + j ≡ j = omega arith in rw e refl
  drop-add (suc i) j [] = let e : suc i + j ≡ suc (i + j) = omega arith in rw e (drop_nothing j)
  drop-add (suc i) j (x ∷ xs) =
      let e : suc i + j ≡ suc (i + j) = omega arith in rw e (drop-add i j xs)

  pub drop-take-append :
      (i j : ℕ) (xs : List A) → i ≤ j → drop i (take j xs) ++ drop j xs ≡ drop i xs
  drop-take-append zero j xs h = take-append-drop j xs
  drop-take-append (suc i) zero xs h = absurd (omega arith)
  drop-take-append (suc i) (suc j) [] h = refl
  drop-take-append (suc i) (suc j) (x ∷ xs) h = drop-take-append i j xs (omega arith)

  pub holds_at-take :
      (test : A → Bool) (i j : ℕ) (xs : List A)
      → i < j
      → holds_at test (take j xs) i ≡ holds_at test xs i
  holds_at-take test i zero xs h = absurd (omega arith)
  holds_at-take test i (suc j) [] h = refl
  holds_at-take test zero (suc j) (x ∷ xs) h = refl
  holds_at-take test (suc i) (suc j) (x ∷ xs) h = holds_at-take test i j xs (omega arith)

  -- The elements that pass a test, in order.
  unfoldable pub keep_if : (A → Bool) → List A → List A
  keep_if test [] = []
  keep_if test (x ∷ xs) = let rest = keep_if test xs in if test x then x ∷ rest else rest

  unfoldable pub any : (A → Bool) → List A → Bool
  any test [] = false
  any test (x ∷ xs) = test x || any test xs

  unfoldable pub all : (A → Bool) → List A → Bool
  all test [] = true
  all test (x ∷ xs) = test x && all test xs

  pub all-append :
      (test : A → Bool) (xs ys : List A)
      → all test xs ≡ true
      → all test ys ≡ true
      → all test (xs ++ ys) ≡ true
  unfolding all
  all-append test [] ys h k = k
  all-append test (x ∷ xs) ys h k =
      let rest = all-append test xs ys (ground arith) k in ground arith

  pub all-take :
      (test : A → Bool) (n : ℕ) (xs : List A) → all test xs ≡ true → all test (take n xs) ≡ true
  unfolding all
  all-take test zero xs h = refl
  all-take test (suc n) [] h = refl
  all-take test (suc n) (x ∷ xs) h = let rest = all-take test n xs (ground arith) in ground arith

  pub all-drop :
      (test : A → Bool) (n : ℕ) (xs : List A) → all test xs ≡ true → all test (drop n xs) ≡ true
  unfolding all
  all-drop test zero xs h = h
  all-drop test (suc n) [] h = refl
  all-drop test (suc n) (x ∷ xs) h = all-drop test n xs (ground arith)

  pub all-keep_if :
      (test keep : A → Bool) (xs : List A) → all test xs ≡ true → all test (keep_if keep xs) ≡ true
  unfolding all keep_if
  all-keep_if test keep [] h = refl
  all-keep_if test keep (x ∷ xs) h =
      let rest = all-keep_if test keep xs (ground arith) in ground arith

  -- `xs[-n:]` for a positive `n`, and no element for 0.
  abbrev pub last_n : ℕ → List A → List A
  last_n n xs = drop (length xs - n) xs

  drop-append : (n : ℕ) (xs ys : List A) → drop n (xs ++ ys) ≡ drop n xs ++ drop (n - length xs) ys
  drop-append zero xs ys = let z : 0 - length xs ≡ 0 = omega arith in rw z refl
  drop-append (suc n) [] ys = let z : suc n - 0 ≡ suc n = omega arith in rw z refl
  drop-append (suc n) (x ∷ xs) ys =
      let z : suc n - suc (length xs) ≡ n - length xs = omega arith in rw z (drop-append n xs ys)

  pub drop_past : (n : ℕ) (xs : List A) → length xs ≤ n → drop n xs ≡ []
  drop_past zero [] h = refl
  drop_past zero (x ∷ xs) h = absurd (omega arith)
  drop_past (suc n) [] h = refl
  drop_past (suc n) (x ∷ xs) h = drop_past n xs (omega arith)

  pub last_n-append :
      (n : ℕ) (xs ys : List A) → last_n n (xs ++ ys) ≡ last_n (n - length ys) xs ++ last_n n ys
  last_n-append n xs ys =
      let k = length (xs ++ ys) - n in
      let len = length-append xs ys in
      let right : k - length xs ≡ length ys - n = omega (arith, len) in
      let left : drop k xs ≡ last_n (n - length ys) xs = elim (dec_le (length ys) n) [
        | yes h ↦ let z : k ≡ length xs - (n - length ys) = omega (arith, len) in rw z refl
        | no h ↦
            drop_past k xs (omega (arith, len))
            ∙ sym (drop_past (length xs - (n - length ys)) xs (omega arith))
      ] in
      drop-append k xs ys ∙ rw (left, right) refl
