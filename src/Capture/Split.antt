-- ===== src/Capture/Split.antt =====
-- `split_private_assistant_tags` of response_capture.py, against a reading of the whole reply.
use shenyugateway.Common.{
  ℕ, zero, suc, ◌<◌, false, none, some, List, [], ◌∷◌, ◌++◌, ◌≡◌, refl, ap, sym, ◌∙◌, arith, length,
  inl, inr, Option-cases, append-nil, append_assoc,
}
use shenyugateway.Text.{Text, strip, join}
use shenyugateway.Capture.{
  noted, match_open, match_close, search, rounds, feed, flush, get_heartbeat,
  split_private_assistant_tags,
}
use shenyugateway.Capture.Enough.{search-open-lt, search-close-lt}
use shenyugateway.Capture.Steps.{
  shown, noted_then, outside, inside_block, let_out-shown, rounds-none, rounds-open, rounds-closed,
  rounds-empty, rounds-unclosed,
}

-- How a reply is read from the left, in tags and what stands between them: with the blocks noted
-- before, it shows a text and leaves the blocks noted then. `Reads reply before shown after`.
pub data Reads : Text → List Text → Text → List Text → Type 0 where
  no_block :
      {reply : Text} {seen : List Text}
      → search match_open reply ≡ none
      → Reads reply seen reply seen
  unclosed :
      {reply before rest : Text} {seen : List Text}
      → search match_open reply ≡ some (before, rest)
      → search match_close rest ≡ none
      → Reads reply seen before (noted seen (rest ∷ []))
  closed :
      {reply before rest inside after shown : Text} {seen done : List Text}
      → search match_open reply ≡ some (before, rest)
      → search match_close rest ≡ some (inside, after)
      → Reads after (noted seen (inside ∷ [])) shown done
      → Reads reply seen (before ++ shown) done

Reads-by :
    {reply text other : Text} {seen done result : List Text}
    → Reads reply seen text done
    → text ≡ other
    → done ≡ result
    → Reads reply seen other result
Reads-by r e f = rw (sym e, sym f) r

-- What comes before a block is shown first.
opened :
    (n c : ℕ) (s before rest : Text) (seen : List Text)
    → search match_open (c ∷ s) ≡ some (before, rest)
    → (before ++ shown (rounds n (inside_block rest seen))
        ≡ shown (rounds (suc n) (outside (c ∷ s) seen)))
      × (noted_then (rounds n (inside_block rest seen))
          ≡ noted_then (rounds (suc n) (outside (c ∷ s) seen)))
unfolding shown noted_then join
opened n c s before rest seen e =
    let z = sym (rounds-open n c s before rest seen e) in
    let run = rounds n (inside_block rest seen) in
    (sym (append_assoc before (join run.1) (flush run.0).1) ∙ ap shown z, ap noted_then z)

-- With more rounds than the reply has characters, the filter reads the whole reply.
rounds-Reads :
    (n : ℕ) (reply : Text) (seen : List Text)
    → length reply < n
    → Reads reply seen
        (shown (rounds n (outside reply seen)))
        (noted_then (rounds n (outside reply seen)))
unfolding search shown noted_then outside flush
rounds-Reads zero reply seen h = absurd (omega arith)
rounds-Reads (suc n) [] seen h =
    let z = sym (rounds-empty n false seen) in
    Reads-by (no_block refl) (ap shown z) (ap noted_then z)
rounds-Reads (suc zero) (c ∷ s) seen h = absurd (omega arith)
rounds-Reads (suc (suc n)) (c ∷ s) seen h = elim (Option-cases (search match_open (c ∷ s))) [
  | inl e ↦
      let z = sym (rounds-none (suc n) c s seen e) in
      let (all_shown, none_noted) = let_out-shown (c ∷ s) seen in
      Reads-by (no_block e) (sym all_shown ∙ ap shown z) (sym none_noted ∙ ap noted_then z)
  | inr ((before, rest), e) ↦
      let (text, blocks) = opened (suc n) c s before rest seen e in
      elim (Option-cases (search match_close rest)) [
        | inl f ↦
            let (nothing, block) = rounds-unclosed n rest seen f in
            Reads-by (unclosed e f)
              (sym (append-nil before) ∙ ap (λ t. before ++ t) (sym nothing) ∙ text)
              (sym block ∙ blocks)
        | inr ((inside, after), f) ↦
            let z = sym (rounds-closed n rest inside after seen f) in
            let shorter = search-open-lt (c ∷ s) before rest e in
            let shortest = search-close-lt rest inside after f in
            let read =
              rounds-Reads n after (noted seen (inside ∷ []))
                (omega (arith, h, shorter, shortest)) in
            Reads-by (closed e f read) (ap (λ r. before ++ shown r) z ∙ text)
              (ap noted_then z ∙ blocks)
      ]
]

-- The one-shot split reads the whole reply from the left: it shows what stands outside of the
-- blocks, and its heartbeat is made of the blocks, the last of which may lack its end.
pub split-Reads :
    (content : Text)
    → (blocks : List Text) × Reads content [] (split_private_assistant_tags content).0 blocks
      × ((split_private_assistant_tags content).1 ≡ strip (join blocks))
unfolding split_private_assistant_tags feed flush get_heartbeat shown noted_then outside search
split-Reads [] = ([], no_block refl, refl)
split-Reads (c ∷ s) =
    let run = rounds (suc (length (c ∷ s))) (outside (c ∷ s) []) in
    let read = rounds-Reads (suc (length (c ∷ s))) (c ∷ s) [] (omega arith) in
    (noted_then run, read, refl)
