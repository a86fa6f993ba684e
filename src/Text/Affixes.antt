-- ===== src/Text/Affixes.antt =====
-- Laws of `starts_with`, `ends_with` and `find` on code points.
use shenyugateway.Common.{
  zero, ap, inl, inr, Bool-cases, take, drop, ℕ, zero, suc, ◌+◌, ◌-◌, ◌≤◌, ◌<◌, true, false, none,
  some, [], ◌∷◌, ◌++◌, ◌≡◌, refl, arith, length, take, drop, length-take, Option-cases, inl, inr,
}
use shenyugateway.Text.{Text, is_space, lstrip, text_eq, starts_with, ends_with, find}

pub text_eq_refl : (s : Text) → text_eq s s ≡ true
text_eq_refl [] = refl
text_eq_refl (c ∷ s) = ground (arith, text_eq_refl s)

pub eq_of_text_eq : (s t : Text) → text_eq s t ≡ true → s ≡ t
eq_of_text_eq [] [] h = refl
eq_of_text_eq [] (d ∷ t) h = cc
eq_of_text_eq (c ∷ s) [] h = cc
eq_of_text_eq (c ∷ s) (d ∷ t) h = ground (arith, eq_of_text_eq s t)

pub starts_with-length : (s p : Text) → starts_with s p ≡ true → length p ≤ length s
starts_with-length s [] h = omega arith
starts_with-length [] (d ∷ p) h = cc
starts_with-length (c ∷ s) (d ∷ p) h = ground (arith, starts_with-length s p)

pub starts_with-append : (s p t : Text) → starts_with s p ≡ true → starts_with (s ++ t) p ≡ true
starts_with-append s [] t h = refl
starts_with-append [] (d ∷ p) t h = cc
starts_with-append (c ∷ s) (d ∷ p) t h = ground (arith, starts_with-append s p t)

pub starts_with_self : (p t : Text) → starts_with (p ++ t) p ≡ true
starts_with_self [] t = refl
starts_with_self (c ∷ p) t = ground (arith, starts_with_self p t)

-- Two texts that disagree somewhere still disagree when one of them grows.
pub starts_with_apart :
    (s p t : Text)
    → starts_with s p ≡ false
    → starts_with p s ≡ false
    → (starts_with (s ++ t) p ≡ false) × (starts_with p (s ++ t) ≡ false)
starts_with_apart s [] t h k = cc
starts_with_apart [] (d ∷ p) t h k = cc
starts_with_apart (c ∷ s) (d ∷ p) t h k = ground (arith, starts_with_apart s p t)

pub text_eq-take :
    (t m : Text) → length t ≤ length m → text_eq t (take (length t) m) ≡ starts_with m t
text_eq-take [] m h = refl
text_eq-take (c ∷ t) [] h = absurd (omega arith)
text_eq-take (c ∷ t) (d ∷ m) h = ground (arith, text_eq-take t m)

-- One character more in front changes no test for a suffix that is short enough.
pub ends_with-cons :
    (c : ℕ) (s p : Text) → length p ≤ length s → ends_with (c ∷ s) p ≡ ends_with s p
unfolding ends_with
ends_with-cons c s p h =
    let e : suc (length s) - length p ≡ suc (length s - length p) = omega arith in
    rw e (ground arith)

pub ends_with_whole :
    (t m : Text) → length t ≤ length m → ends_with t (take (length t) m) ≡ starts_with m t
unfolding ends_with
ends_with_whole t m h =
    let e : length (take (length t) m) ≡ length t = omega (arith, length-take (length t) m) in
    let z : length t - length t ≡ 0 = omega arith in rw (e, z) (ground (arith, text_eq-take t m h))

pub find-length : (s p : Text) (i : ℕ) → find s p ≡ some i → i + length p ≤ length s
unfolding find
find-length [] p i h = ground (arith, starts_with-length [] p)
find-length (c ∷ s) p i h = ground (arith, starts_with-length (c ∷ s) p, find-length s p (i - 1))

find_beginning_lem :
    (c : ℕ) (s p : Text) (i : ℕ)
    → starts_with p (c ∷ s) ≡ true
    → starts_with (c ∷ s) p ≡ false
    → find (c ∷ s) p ≡ some i
    → ⊥
unfolding find
find_beginning_lem c s p i h k e =
    ground (arith, starts_with-length p (c ∷ s), find-length s p (i - 1))

-- A text that is a beginning of `p`, and is not `p` itself, holds no `p`.
pub find_beginning :
    (c : ℕ) (s p : Text)
    → starts_with p (c ∷ s) ≡ true
    → starts_with (c ∷ s) p ≡ false
    → find (c ∷ s) p ≡ none
find_beginning c s p h k = elim (Option-cases (find (c ∷ s) p)) [
  | inl e ↦ e
  | inr (i, e) ↦ absurd (find_beginning_lem c s p i h k e)
]

pub starts_with-length_lt :
    (s p : Text) → starts_with s p ≡ true → starts_with p s ≡ false → length p < length s
starts_with-length_lt [] [] h k = cc
starts_with-length_lt (c ∷ s) [] h k = omega arith
starts_with-length_lt [] (d ∷ p) h k = cc
starts_with-length_lt (c ∷ s) (d ∷ p) h k = ground (arith, starts_with-length_lt s p)

pub starts_with_longer :
    (s p t : Text)
    → starts_with s p ≡ true
    → starts_with p s ≡ false
    → starts_with p (s ++ t) ≡ false
starts_with_longer [] [] t h k = cc
starts_with_longer (c ∷ s) [] t h k = refl
starts_with_longer [] (d ∷ p) t h k = cc
starts_with_longer (c ∷ s) (d ∷ p) t h k = ground (arith, starts_with_longer s p t)

pub starts_with_parts : (s p : Text) → starts_with s p ≡ true → s ≡ p ++ drop (length p) s
starts_with_parts s [] h = refl
starts_with_parts [] (d ∷ p) h = cc
starts_with_parts (c ∷ s) (d ∷ p) h = ground (arith, starts_with_parts s p)

starts_with_short : (s p t : Text) → length p ≤ length s → starts_with (s ++ t) p ≡ starts_with s p
starts_with_short s [] t h = refl
starts_with_short [] (d ∷ p) t h = absurd (omega arith)
starts_with_short (c ∷ s) (d ∷ p) t h = ground (arith, starts_with_short s p t)

pub find-append : (s p t : Text) (i : ℕ) → find s p ≡ some i → find (s ++ t) p ≡ some i
unfolding find
find-append [] [] [] i h = h
find-append [] [] (c ∷ t) i h = h
find-append [] (d ∷ p) t i h = cc
find-append (c ∷ s) p t i h =
    ground
      (arith, find-append s p t (i - 1), find-length (c ∷ s) p i, starts_with_short (c ∷ s) p t)

-- Where `find` points, the text is there.
pub find_parts :
    (s p : Text) (i : ℕ) → find s p ≡ some i → s ≡ take i s ++ p ++ drop (length p) (drop i s)
unfolding find
find_parts [] [] i h = ground arith
find_parts [] (d ∷ p) i h = cc
find_parts (c ∷ s) p zero h = starts_with_parts (c ∷ s) p (ground arith)
find_parts (c ∷ s) p (suc i) h = ap (◌∷◌ c) (find_parts s p i (ground arith))

-- White space only.
abbrev pub AllSpace : Text → Type 0
AllSpace [] = Unit {0}
AllSpace (c ∷ s) = (is_space c ≡ true) × AllSpace s

pub lstrip_parts : (s : Text) → (lead : Text) × AllSpace lead × (s ≡ lead ++ lstrip s)
unfolding lstrip
lstrip_parts [] = ([], tt, refl)
lstrip_parts (c ∷ s) =
    let (lead, blank, e) = lstrip_parts s in
    elim (Bool-cases (is_space c)) [
      | inl h ↦ (c ∷ lead, (h, blank), rw h (ap (◌∷◌ c) e))
      | inr h ↦ ([], tt, rw h)
    ]

pub lstrip_blank : (lead s : Text) → AllSpace lead → lstrip (lead ++ s) ≡ lstrip s
unfolding lstrip
lstrip_blank [] s h = refl
lstrip_blank (c ∷ lead) s (h, blank) = rw h (lstrip_blank lead s blank)
