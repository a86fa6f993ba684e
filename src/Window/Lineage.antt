-- ===== src/Window/Lineage.antt =====
-- What the classes of `classify_history_event` say of the two histories.
use shenyugateway.Common.{
  ℕ, zero, suc, ◌≤◌, true, false, List, [], ◌∷◌, ◌≡◌, inl, inr, refl, ap, ◌∙◌, arith, length, take,
  take_all, Bool-cases,
}
use shenyugateway.Text.{Text, text_eq}
use shenyugateway.Text.Affixes.{text_eq_refl, eq_of_text_eq}
use shenyugateway.Json.{Message, Stdlib}
use shenyugateway.Window.Events.{message_fingerprint, common_prefix_length}
use shenyugateway.Window.Classify.{fingerprints, texts_eq}

pub texts_eq_refl : (ts : List Text) → texts_eq ts ts ≡ true
texts_eq_refl [] = refl
texts_eq_refl (t ∷ ts) = ground (arith, text_eq_refl t, texts_eq_refl ts)

pub eq_of_texts_eq : (ts us : List Text) → texts_eq ts us ≡ true → ts ≡ us
eq_of_texts_eq [] [] h = refl
eq_of_texts_eq [] (u ∷ us) h = cc
eq_of_texts_eq (t ∷ ts) [] h = cc
eq_of_texts_eq (t ∷ ts) (u ∷ us) h = ground (arith, eq_of_text_eq t u, eq_of_texts_eq ts us)

module _ (std : Stdlib) where
  pub length-fingerprints : (ms : List Message) → length (fingerprints std ms) ≡ length ms
  unfolding fingerprints
  length-fingerprints [] = refl
  length-fingerprints (m ∷ ms) = ap suc (length-fingerprints ms)

  -- The longest run of messages, by fingerprint, that two histories begin with.
  pub record LongestPrefix (l r : List Message) (k : ℕ) : Type 0 where
    pub within_left : k ≤ length l
    pub within_right : k ≤ length r
    pub same : take k (fingerprints std l) ≡ take k (fingerprints std r)
    pub longest :
        (n : ℕ)
        → n ≤ length l
        → n ≤ length r
        → take n (fingerprints std l) ≡ take n (fingerprints std r)
        → n ≤ k

  longest-suc :
      (x y : Message) (l r : List Message) (k : ℕ)
      → LongestPrefix l r k
      → (n : ℕ) → n ≤ length (x ∷ l)
      → n ≤ length (y ∷ r)
      → take n (fingerprints std (x ∷ l)) ≡ take n (fingerprints std (y ∷ r))
      → n ≤ suc k
  unfolding fingerprints
  longest-suc x y l r k p zero h h' e = omega arith
  longest-suc x y l r k p (suc n) h h' e =
      omega (arith, p.longest n (omega arith) (omega arith) (cc e))

  longest-zero :
      (x y : Message) (l r : List Message)
      → text_eq (message_fingerprint std x) (message_fingerprint std y) ≡ false
      → (n : ℕ) → take n (fingerprints std (x ∷ l)) ≡ take n (fingerprints std (y ∷ r))
      → n ≤ 0
  unfolding fingerprints
  longest-zero x y l r other zero e = omega arith
  longest-zero x y l r other (suc n) e =
      let same : message_fingerprint std x ≡ message_fingerprint std y = cc e in
      absurd (ground (arith, text_eq_refl (message_fingerprint std y), same))

  pub common_prefix_length-LongestPrefix :
      (l r : List Message) → LongestPrefix l r (common_prefix_length std l r)
  unfolding common_prefix_length fingerprints
  common_prefix_length-LongestPrefix [] r = record {
    within_left = omega arith;
    within_right = omega arith;
    same = refl;
    longest = λ n h k e. h;
  }
  common_prefix_length-LongestPrefix (x ∷ l) [] = record {
    within_left = omega arith;
    within_right = omega arith;
    same = refl;
    longest = λ n h k e. k;
  }
  common_prefix_length-LongestPrefix (x ∷ l) (y ∷ r) =
      let p = common_prefix_length-LongestPrefix l r in
      elim (Bool-cases (text_eq (message_fingerprint std x) (message_fingerprint std y))) [
        | inl same ↦ rw same (record {
          within_left = omega (arith, p.within_left);
          within_right = omega (arith, p.within_right);
          same =
              cc (
                p.same,
                eq_of_text_eq (message_fingerprint std x) (message_fingerprint std y) same,
              );
          longest = longest-suc x y l r _ p;
        })
        | inr other ↦ rw other (record {
          within_left = omega arith;
          within_right = omega arith;
          same = refl;
          longest = λ n h k e. longest-zero x y l r other n e;
        })
      ]

  -- A history that goes on from another has it as its common prefix.
  pub prefix_of_extension :
      (previous current : List Message)
      → length previous ≤ length current
      → fingerprints std previous ≡ take (length previous) (fingerprints std current)
      → common_prefix_length std previous current ≡ length previous
  prefix_of_extension p c le e =
      let r = common_prefix_length-LongestPrefix p c in
      omega (
        arith,
        r.within_left,
        r.longest (length p) (omega arith) le
            (take_all (length p) (fingerprints std p) (omega (arith, length-fingerprints p)) ∙ e),
      )
