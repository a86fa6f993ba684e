-- ===== src/Window/Merge.antt =====
-- What the merging of bridge messages keeps, in terms of the fingerprints.
use shenyugateway.Common.{
  ℕ, zero, suc, ◌-◌, ◌≤◌, ◌<◌, true, false, List, [], ◌∷◌, ◌++◌, ◌≡◌, inl, inr, refl, sym, ap, ◌∙◌,
  arith, min, length, take, drop, length-drop, length-take, take-append-drop, append_assoc,
  Bool-cases,
}
use native.Mathlib.Decide.{ℕ_discrete}
use shenyugateway.Text.Affixes.{text_eq_refl, eq_of_text_eq}
use shenyugateway.Json.{Message, Stdlib}
use shenyugateway.Window.Events.{message_fingerprint}
use shenyugateway.Window.Classify.{fingerprints}
use shenyugateway.Window.Bridge.{
  splice, insert_at, same_messages, overlap_from, deduplicate_bridge_messages,
  insert_bridge_messages,
}

drop_all {ℓ} : {A : Type ℓ} (n : ℕ) (xs : List A) → length xs ≤ n → drop n xs ≡ []
drop_all zero [] h = refl
drop_all zero (x ∷ xs) h = absurd (omega arith)
drop_all (suc n) [] h = refl
drop_all (suc n) (x ∷ xs) h = drop_all n xs (omega arith)

module _ (std : Stdlib) where
  pub fingerprints-append :
      (xs ys : List Message)
      → fingerprints std (xs ++ ys) ≡ fingerprints std xs ++ fingerprints std ys
  unfolding fingerprints
  fingerprints-append [] ys = refl
  fingerprints-append (x ∷ xs) ys = ap (◌∷◌ (message_fingerprint std x)) (fingerprints-append xs ys)

  -- The test of two runs of one length compares their fingerprints.
  same_messages_eq :
      (xs ys : List Message)
      → length xs ≡ length ys
      → same_messages std xs ys ≡ true
      → fingerprints std xs ≡ fingerprints std ys
  unfolding same_messages fingerprints
  same_messages_eq [] [] e h = refl
  same_messages_eq [] (y ∷ ys) e h = absurd (omega arith)
  same_messages_eq (x ∷ xs) [] e h = absurd (omega arith)
  same_messages_eq (x ∷ xs) (y ∷ ys) e h = ground (
    arith,
    same_messages_eq xs ys,
    eq_of_text_eq (message_fingerprint std x) (message_fingerprint std y),
  )

  eq_same_messages :
      (xs ys : List Message)
      → fingerprints std xs ≡ fingerprints std ys
      → same_messages std xs ys ≡ true
  unfolding same_messages fingerprints
  eq_same_messages [] ys e = refl
  eq_same_messages (x ∷ xs) [] e = refl
  eq_same_messages (x ∷ xs) (y ∷ ys) e =
      ground (arith, eq_same_messages xs ys, text_eq_refl (message_fingerprint std x))

  -- The last `k` bridge messages are the first `k` of the history.
  abbrev pub Overlaps : List Message → List Message → ℕ → Type 0
  Overlaps bridge history k =
      fingerprints std (drop (length bridge - k) bridge) ≡ fingerprints std (take k history)

  pub record LongestOverlap (bridge history : List Message) (bound k : ℕ) : Type 0 where
    pub within : k ≤ bound
    pub overlaps : Overlaps bridge history k
    pub longest : (j : ℕ) → k < j → j ≤ bound → ¬ Overlaps bridge history j

  longer :
      (n : ℕ) (bridge history : List Message) (r : ℕ)
      → ((j : ℕ) → r < j → j ≤ n → ¬ Overlaps bridge history j)
      → same_messages std (drop (length bridge - suc n) bridge) (take (suc n) history) ≡ false
      → (j : ℕ) → r < j
      → j ≤ suc n
      → ¬ Overlaps bridge history j
  longer n bridge history r shorter other j lt le o = elim (ℕ_discrete j (suc n)) [
    | yes e ↦ cc (rw e at (eq_same_messages _ _ o))
    | no ne ↦ shorter j lt (omega arith) o
  ]

  merged :
      (bridge history : List Message) (k : ℕ)
      → Overlaps bridge history k
      → fingerprints std (take (length bridge - k) bridge ++ history)
        ≡ fingerprints std (bridge ++ drop k history)
  merged bridge history k o =
      let front = fingerprints std (take (length bridge - k) bridge) in
      let rest = fingerprints std (drop k history) in
      fingerprints-append (take (length bridge - k) bridge) history
      ∙ ap (λ h. front ++ fingerprints std h) (sym (take-append-drop k history))
      ∙ ap (◌++◌ front) (fingerprints-append (take k history) (drop k history))
      ∙ ap (λ f. front ++ (f ++ rest)) (sym o)
      ∙ sym (append_assoc front _ rest)
      ∙ ap (λ f. f ++ rest)
          (sym (
            fingerprints-append (take (length bridge - k) bridge)
              (drop (length bridge - k) bridge)))
      ∙ ap (λ b. fingerprints std b ++ rest) (take-append-drop (length bridge - k) bridge)
      ∙ sym (fingerprints-append bridge (drop k history))

  splice_any :
      (i : ℕ) (bridge client : List Message)
      → (elim bridge [ [] ↦ client | b ∷ bs ↦ splice std i (b ∷ bs) client ])
        ≡ take i client ++ (bridge ++ drop i client)
  unfolding splice
  splice_any i [] client = sym (take-append-drop i client)
  splice_any i (b ∷ bs) client = refl

  overlap_from_longest :
      (n : ℕ) (bridge history : List Message)
      → n ≤ length bridge
      → n ≤ length history
      → LongestOverlap bridge history n (overlap_from std n bridge history)
  unfolding overlap_from
  overlap_from_longest zero bridge history h k =
      let z : length bridge - 0 ≡ length bridge = omega arith in
      record {
        within = omega arith;
        overlaps = rw (z, drop_all (length bridge) bridge (omega arith));
        longest = λ j lt le. absurd (omega arith);
      }
  overlap_from_longest (suc n) bridge history h k =
      let r = overlap_from_longest n bridge history (omega arith) (omega arith) in
      let last = drop (length bridge - suc n) bridge in
      elim (Bool-cases (same_messages std last (take (suc n) history))) [
        | inl same ↦ rw same (record {
          within = omega arith;
          overlaps =
              same_messages_eq last (take (suc n) history)
                (omega
                  (arith, length-drop (length bridge - suc n) bridge, length-take (suc n) history))
                same;
          longest = λ j lt le. absurd (omega arith);
        })
        | inr other ↦ rw other (record {
          within = omega (arith, r.within);
          overlaps = r.overlaps;
          longest = longer n bridge history _ r.longest other;
        })
      ]

  -- The bridge is cut to its beginning, and what is cut is the longest end of it that the client's
  -- history begins with.
  pub deduplicate-longest :
      (client bridge : List Message)
      → ((deduplicate_bridge_messages std client bridge).bridge
          ≡ take (length bridge - (deduplicate_bridge_messages std client bridge).overlap) bridge)
        × LongestOverlap bridge
            (drop (insert_at client) client)
            (min (length bridge) (length (drop (insert_at client) client)))
            (deduplicate_bridge_messages std client bridge).overlap
  unfolding deduplicate_bridge_messages
  deduplicate-longest client [] = (
    refl,
    record { within = omega arith; overlaps = refl; longest = λ j lt le. absurd (omega arith) },
  )
  deduplicate-longest client (b ∷ bs) =
      (refl, overlap_from_longest _ (b ∷ bs) _ (omega arith) (omega arith))

  insert_bridge-splice :
      (client bridge : List Message)
      → insert_bridge_messages std client bridge
        ≡ take (insert_at client) client
          ++ ((deduplicate_bridge_messages std client bridge).bridge
              ++ drop (insert_at client) client)
  unfolding insert_bridge_messages
  insert_bridge-splice client bridge =
      splice_any (insert_at client) (deduplicate_bridge_messages std client bridge).bridge client

  -- Merging leaves the client's messages as they are: the system's messages at the front, then what
  -- is left of the bridge, then the history. By fingerprint, the bridge and the history together
  -- are the whole bridge, and then what the history has beyond the overlap: nothing is sent twice.
  pub insert_bridge-merged :
      (client bridge : List Message)
      → (insert_bridge_messages std client bridge
          ≡ take (insert_at client) client
            ++ ((deduplicate_bridge_messages std client bridge).bridge
                ++ drop (insert_at client) client))
        × (fingerprints std (
              (deduplicate_bridge_messages std client bridge).bridge
              ++ drop (insert_at client) client)
            ≡ fingerprints std (
                bridge
                ++ drop
                    (deduplicate_bridge_messages std client bridge).overlap
                    (drop (insert_at client) client)))
  insert_bridge-merged client bridge =
      let (cut, o) = deduplicate-longest client bridge in
      (
        insert_bridge-splice client bridge,
        ap (λ b. fingerprints std (b ++ drop (insert_at client) client)) cut
            ∙ merged bridge (drop (insert_at client) client) _ o.overlaps,
      )
