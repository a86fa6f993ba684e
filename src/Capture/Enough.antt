-- ===== src/Capture/Enough.antt =====
-- The searches of response_capture.py: what they cut a text into, and that each round of the loop
-- in `feed` leaves a shorter text.
use shenyugateway.Common.{
  ℕ, ◌≤◌, ◌<◌, Option, some, [], ◌∷◌, ◌++◌, ◌≡◌, ap, arith, length, inl, inr, Option-cases,
}
use shenyugateway.Text.{Text, codes, lstrip}
use shenyugateway.Capture.{
  after_word, after_first, after_bracket, open_end, match_open, match_close, search, last_bracket,
}

lstrip-le : (s : Text) → length (lstrip s) ≤ length s
unfolding lstrip
lstrip-le [] = omega arith
lstrip-le (c ∷ s) = let rest = lstrip-le s in ground arith

after_word-le : (word s rest : Text) → after_word word s ≡ some rest → length rest ≤ length s
unfolding after_word
after_word-le [] s rest h = let z : s ≡ rest = cc h in rw z (omega arith)
after_word-le (l ∷ word) [] rest h = absurd (cc h)
after_word-le (l ∷ word) (c ∷ s) rest h = let ih = after_word-le word s rest in ground arith

after_first-lt : (d : ℕ) (s rest : Text) → after_first d s ≡ some rest → length rest < length s
unfolding after_first
after_first-lt d [] rest h = absurd (cc h)
after_first-lt d (c ∷ s) rest h = ground arith

after_bracket-le : (s rest : Text) → after_bracket s ≡ some rest → length rest ≤ length s
unfolding after_bracket
after_bracket-le [] rest h = absurd (cc h)
after_bracket-le (c ∷ s) rest h = let ih = after_bracket-le s rest in ground arith

open_end-le : (s rest : Text) → open_end s ≡ some rest → length rest ≤ length s
unfolding open_end
open_end-le [] rest h = absurd (cc h)
open_end-le (c ∷ s) rest h = let ih = after_bracket-le s rest in ground arith

match_open-lt : (s rest : Text) → match_open s ≡ some rest → length rest < length s
unfolding match_open
match_open-lt s rest h = elim (Option-cases (after_first 60 s)) [
  | inl e ↦ absurd (ground (arith, e, h))
  | inr (inside, e) ↦ elim (Option-cases (after_word (codes "heartbeat") (lstrip inside))) [
    | inl f ↦ absurd (ground (arith, e, f, h))
    | inr (name, f) ↦
        let a = after_first-lt 60 s inside e in
        let b = after_word-le (codes "heartbeat") (lstrip inside) name f in
        let c = lstrip-le inside in
        let g : open_end name ≡ some rest = ground (arith, e, f, h) in
        let d = open_end-le name rest g in omega (arith, a, b, c, d)
  ]
]

match_close-lt : (s rest : Text) → match_close s ≡ some rest → length rest < length s
unfolding match_close
match_close-lt s rest h = elim (Option-cases (after_first 60 s)) [
  | inl e ↦ absurd (ground (arith, e, h))
  | inr (inside, e) ↦ elim (Option-cases (after_first 47 (lstrip inside))) [
    | inl f ↦ absurd (ground (arith, e, f, h))
    | inr (name, f) ↦ elim (Option-cases (after_word (codes "heartbeat") (lstrip name))) [
      | inl g ↦ absurd (ground (arith, e, f, g, h))
      | inr (end, g) ↦
          let a = after_first-lt 60 s inside e in
          let b = after_first-lt 47 (lstrip inside) name f in
          let c = lstrip-le inside in
          let d = after_word-le (codes "heartbeat") (lstrip name) end g in
          let k = lstrip-le name in
          let l = lstrip-le end in
          let i : after_first 62 (lstrip end) ≡ some rest = ground (arith, e, f, g, h) in
          let m = after_first-lt 62 (lstrip end) rest i in omega (arith, a, b, c, d, k, l, m)
    ]
  ]
]

module _ (pattern : Text → Option Text)
    (shorter : (s rest : Text) → pattern s ≡ some rest → length rest < length s) where
  search-lt :
      (s before after : Text) → search pattern s ≡ some (before, after) → length after < length s
  unfolding search
  search-lt [] before after h = absurd (cc h)
  search-lt (c ∷ s) before after h = elim (Option-cases (pattern (c ∷ s))) [
    | inr (rest, e) ↦
        let z : rest ≡ after = ground (arith, e, h) in
        let k = shorter (c ∷ s) rest e in omega (arith, k, ap length z)
    | inl e ↦ elim (Option-cases (search pattern s)) [
      | inl f ↦ absurd (ground (arith, e, f, h))
      | inr ((b, a), f) ↦
          let z : a ≡ after = ground (arith, e, f, h) in
          let k = search-lt s b a f in omega (arith, k, ap length z)
    ]
  ]

pub search-open-lt :
    (s before after : Text) → search match_open s ≡ some (before, after) → length after < length s
search-open-lt s before after h = search-lt match_open match_open-lt s before after h

pub search-close-lt :
    (s before after : Text) → search match_close s ≡ some (before, after) → length after < length s
search-close-lt s before after h = search-lt match_close match_close-lt s before after h

-- The last bracket cuts a text in two.
pub last_bracket-append :
    (s before tail : Text) → last_bracket s ≡ some (before, tail) → before ++ tail ≡ s
unfolding last_bracket
last_bracket-append [] before tail h = absurd (cc h)
last_bracket-append (c ∷ s) before tail h = elim (Option-cases (last_bracket s)) [
  | inl e ↦ ground (arith, e, h)
  | inr ((b, t), e) ↦ let ih = last_bracket-append s b t e in ground (arith, e, h, ih)
]
