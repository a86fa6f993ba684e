-- ===== src/Window/Slide.antt =====
-- The head slide: a client that dropped its oldest messages, and nothing else.
use native.Mathlib.Decide.{ℕ_discrete}
use shenyugateway.Common.{
  ℕ, zero, suc, ◌+◌, ◌-◌, ◌≤◌, ◌<◌, true, false, none, some, List, [], ◌∷◌, ◌≡◌, inl, inr, refl,
  arith, length, take, drop, Bool-cases,
}
use shenyugateway.Text.{Text}
use shenyugateway.Json.{Message, Stdlib}
use shenyugateway.Window.Classify.{
  fingerprints, slides_by, slide_from, head_slide_alignment, min_head_slide_overlap, is_nonempty,
}
use shenyugateway.Window.Lineage.{texts_eq_refl, eq_of_texts_eq, length-fingerprints}

-- The old history without its first `slide` messages begins the new one.
abbrev pub SlidesBy : List Text → List Text → ℕ → Type 0
SlidesBy previous current slide = drop slide previous ≡ take (length previous - slide) current

slides_by_sound :
    (p c : List Text) (s : ℕ) → slides_by p c s ≡ true → (length p - s ≤ length c) × SlidesBy p c s
unfolding slides_by
slides_by_sound p c s h = ground (arith, eq_of_texts_eq (drop s p) (take (length p - s) c))

take_one : (n : ℕ) (c : List Text) → 0 < n → take 1 (take n c) ≡ take 1 c
take_one zero c h = absurd (omega arith)
take_one (suc n) [] h = refl
take_one (suc n) (t ∷ c) h = refl

slides_by_complete :
    (p c : List Text) (s : ℕ)
    → s < length p
    → length p - s ≤ length c
    → SlidesBy p c s
    → slides_by p c s ≡ true
unfolding slides_by
slides_by_complete p c s lt le e =
    rw
      (
        e,
        take_one (length p - s) c (omega arith),
        texts_eq_refl (take 1 c),
        texts_eq_refl (take (length p - s) c),
      )
      (ground arith)

-- The first slide, of at least `from`, by which the old history begins the new one.
pub record FirstSlide (p c : List Text) (from slide overlap : ℕ) : Type 0 where
  pub least : from ≤ slide
  pub counted : overlap ≡ length p - slide
  pub fits : overlap ≤ length c
  pub slides : SlidesBy p c slide
  pub first : (s : ℕ) → from ≤ s → s < slide → length p - s ≤ length c → ¬ SlidesBy p c s

first-down :
    (p c : List Text) (from bound : ℕ)
    → slides_by p c from ≡ false
    → bound ≤ length p
    → ((s : ℕ) → suc from ≤ s → s < bound → length p - s ≤ length c → ¬ SlidesBy p c s)
    → (s : ℕ) → from ≤ s
    → s < bound
    → length p - s ≤ length c
    → ¬ SlidesBy p c s
first-down p c from bound away le above s low lt fits sl = elim (ℕ_discrete s from) [
  | yes e ↦ cc (rw e at (slides_by_complete p c s (omega arith) fits sl))
  | no ne ↦ above s (omega arith) lt fits sl
]

slide_from_sound :
    (p c : List Text) (from rounds slide overlap : ℕ)
    → from + rounds ≤ length p
    → slide_from p c from rounds ≡ some (slide, overlap)
    → FirstSlide p c from slide overlap × (slide < from + rounds)
unfolding slide_from
slide_from_sound p c from zero slide overlap bound h = cc
slide_from_sound p c from (suc rounds) slide overlap bound h =
    elim (Bool-cases (slides_by p c from)) [
      | inl here ↦
          let (fits, sl) = slides_by_sound p c from here in
          let e : from ≡ slide = ground arith in
          let o : overlap ≡ length p - from = ground arith in
          rw (← e, o)
            (
              record {
                least = omega arith;
                counted = refl;
                fits = fits;
                slides = sl;
                first = λ s le lt. absurd (omega arith);
              },
              omega arith,
            )
      | inr away ↦
          let (r, lt) =
            slide_from_sound p c (suc from) rounds slide overlap (omega arith) (ground arith) in
          (
            record {
              least = omega (arith, r.least);
              counted = r.counted;
              fits = r.fits;
              slides = r.slides;
              first = first-down p c from slide away (omega arith) r.first;
            },
            omega arith,
          )
    ]

-- When no slide is found, no slide fits.
slide_from-none :
    (p c : List Text) (from rounds s : ℕ)
    → from + rounds ≤ length p
    → slide_from p c from rounds ≡ none
    → from ≤ s
    → s < from + rounds
    → length p - s ≤ length c
    → ¬ SlidesBy p c s
unfolding slide_from
slide_from-none p c from zero s bound h le lt fits = absurd (omega arith)
slide_from-none p c from (suc rounds) s bound h le lt fits =
    first-down p c from (from + suc rounds) (ground arith) (omega arith)
      (λ s le' lt'.
        slide_from-none p c (suc from) rounds s (omega arith) (ground arith) le' (omega arith))
      s le lt fits

pub nonempty_of_length {ℓ} : {A : Type ℓ} (xs : List A) → 0 < length xs → is_nonempty xs ≡ true
nonempty_of_length [] h = absurd (omega arith)
nonempty_of_length (x ∷ xs) h = refl

-- What the alignment of two histories says: they slide by at least one message, and at least eight
-- messages of the old history begin the new one; no smaller slide fits.
pub head_slide_alignment-FirstSlide :
    (std : Stdlib) (previous current : List Message) (slide overlap : ℕ)
    → head_slide_alignment std previous current ≡ some (slide, overlap)
    → FirstSlide (fingerprints std previous) (fingerprints std current) 1 slide overlap
      × (min_head_slide_overlap ≤ overlap)
unfolding head_slide_alignment
head_slide_alignment-FirstSlide std previous current slide overlap h =
    let p = fingerprints std previous in
    let c = fingerprints std current in
    let size = length-fingerprints std previous in
    let long : min_head_slide_overlap < length previous = ground arith in
    let found : slide_from p c 1 (length previous - min_head_slide_overlap)
        ≡ some (slide, overlap) =
      ground arith in
    let (r, lt) = slide_from_sound p c 1 _ slide overlap (omega (arith, size)) found in
    (r, omega (arith, r.counted, size))

-- And none is found only if none is there: no slide of at least one message leaves eight or more
-- messages of the old history at the beginning of the new one.
pub head_slide_alignment-none :
    (std : Stdlib) (previous current : List Message) (slide : ℕ)
    → head_slide_alignment std previous current ≡ none
    → 1 ≤ slide
    → slide + min_head_slide_overlap ≤ length previous
    → length previous - slide ≤ length current
    → ¬ SlidesBy (fingerprints std previous) (fingerprints std current) slide
unfolding head_slide_alignment
head_slide_alignment-none std previous current slide h le bound fits =
    let p = fingerprints std previous in
    let c = fingerprints std current in
    let size = length-fingerprints std previous in
    let size' = length-fingerprints std current in
    let full : is_nonempty current ≡ true = nonempty_of_length current (omega arith) in
    let missed : slide_from p c 1 (length previous - min_head_slide_overlap) ≡ none =
      ground arith in
    slide_from-none p c 1 _ slide (omega (arith, size)) missed le (omega (arith, size))
      (omega (arith, size, size'))
