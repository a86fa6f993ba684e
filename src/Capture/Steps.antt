-- ===== src/Capture/Steps.antt =====
-- The rounds of `feed` in response_capture.py, one by one.
use shenyugateway.Common.{
  ℕ, suc, Bool, true, false, none, some, List, [], ◌∷◌, ◌++◌, ◌≡◌, refl, ap, sym, ◌∙◌, inl, inr,
  Option-cases, append-nil,
}
use shenyugateway.Text.{Text, join}
use shenyugateway.Capture.{
  TagFilter, noted, match_open, match_close, search, last_bracket, consume_active_buffer, let_out,
  rounds, flush,
}
use shenyugateway.Capture.Enough.{last_bracket-append}

noted-join :
    (seen parts others : List Text)
    → join parts ≡ join others
    → noted seen parts ≡ noted seen others
unfolding noted
noted-join seen parts others e = rw e refl

-- What is shown and noted once the rounds are done and the filter is flushed.
unfoldable pub shown : TagFilter × List Text → Text
shown (f, output) = join output ++ (flush f).1

unfoldable pub noted_then : TagFilter × List Text → List Text
noted_then (f, output) = (flush f).0.captured

unfoldable pub outside : Text → List Text → TagFilter
outside reply seen = record { buffer = reply; active = false; active_parts = []; captured = seen }

unfoldable pub inside_block : Text → List Text → TagFilter
inside_block reply seen = record {
  buffer = reply;
  active = true;
  active_parts = [];
  captured = seen;
}

pub let_out-shown :
    (reply : Text) (seen : List Text)
    → (shown (let_out (outside reply seen)) ≡ reply)
      × (noted_then (let_out (outside reply seen)) ≡ seen)
unfolding let_out shown noted_then outside flush join
let_out-shown reply seen = elim (Option-cases (last_bracket reply)) [
  | inl e ↦ rw e (append-nil _ ∙ append-nil _, refl)
  | inr (([], tail), e) ↦ rw e (refl, refl)
  | inr ((c ∷ before, tail), e) ↦
      let a : (c ∷ before) ++ [] ≡ c ∷ before = append-nil (c ∷ before) in
      rw e (ap (λ b. b ++ tail) a ∙ last_bracket-append reply (c ∷ before) tail e, refl)
]

pub rounds-none :
    (n c : ℕ) (s : Text) (seen : List Text)
    → search match_open (c ∷ s) ≡ none
    → rounds (suc n) (outside (c ∷ s) seen) ≡ let_out (outside (c ∷ s) seen)
unfolding outside rounds let_out
rounds-none n c s seen e = rw (e, rounds) refl

pub rounds-open :
    (n c : ℕ) (s before after : Text) (seen : List Text)
    → search match_open (c ∷ s) ≡ some (before, after)
    → rounds (suc n) (outside (c ∷ s) seen)
      ≡ ((rounds n (inside_block after seen)).0, before ∷ (rounds n (inside_block after seen)).1)
unfolding outside inside_block rounds
rounds-open n c s before after seen e = rw (e, rounds) refl

consume-closed :
    (reply before after : Text) (seen : List Text)
    → search match_close reply ≡ some (before, after)
    → consume_active_buffer (inside_block reply seen)
      ≡ (true, outside after (noted seen (before ∷ [])))
unfolding inside_block outside consume_active_buffer
consume-closed reply before after seen e = rw (e, consume_active_buffer) refl

rounds-consumed :
    (n c : ℕ) (s : Text) (seen : List Text) (g : TagFilter)
    → consume_active_buffer (inside_block (c ∷ s) seen) ≡ (true, g)
    → rounds (suc n) (inside_block (c ∷ s) seen) ≡ rounds n g
unfolding inside_block rounds
rounds-consumed n c s seen g e = rw (e, rounds) (ap (λ p. rounds n p.1) e)

pub rounds-closed :
    (n : ℕ) (reply before after : Text) (seen : List Text)
    → search match_close reply ≡ some (before, after)
    → rounds (suc n) (inside_block reply seen) ≡ rounds n (outside after (noted seen (before ∷ [])))
unfolding search
rounds-closed n [] before after seen e = absurd (cc e)
rounds-closed n (c ∷ s) before after seen e =
    rounds-consumed n c s seen _ (consume-closed (c ∷ s) before after seen e)

rounds-waiting :
    (n c : ℕ) (s : Text) (seen : List Text) (g : TagFilter)
    → consume_active_buffer (inside_block (c ∷ s) seen) ≡ (false, g)
    → rounds (suc n) (inside_block (c ∷ s) seen) ≡ (g, [])
unfolding inside_block rounds
rounds-waiting n c s seen g e = rw (e, rounds) (ap (λ p. (p.1, [])) e)

waiting_block : List Text → Text → List Text → TagFilter
waiting_block parts buffer seen = record {
  buffer = buffer;
  active = true;
  active_parts = parts;
  captured = seen;
}

-- A block whose end is not there stays whole, in parts and a buffer.
consume-unclosed :
    (reply : Text) (seen : List Text)
    → search match_close reply ≡ none
    → (parts : List Text) × (buffer : Text) × (consume_active_buffer (inside_block reply seen)
        ≡ (false, waiting_block parts buffer seen))
      × (join (parts ++ buffer ∷ []) ≡ reply)
unfolding inside_block consume_active_buffer waiting_block join
consume-unclosed reply seen e = elim (Option-cases (last_bracket reply)) [
  | inl f ↦ (reply ∷ [], [], rw (e, f, consume_active_buffer) refl, append-nil reply)
  | inr (([], tail), f) ↦ ([], reply, rw (e, f, consume_active_buffer) refl, append-nil reply)
  | inr ((d ∷ before, tail), f) ↦ (
    (d ∷ before) ∷ [],
    tail,
    rw (e, f, consume_active_buffer) refl,
    ap (◌++◌ (d ∷ before)) (append-nil tail) ∙ last_bracket-append reply (d ∷ before) tail f,
  )
]

pub rounds-empty :
    (n : ℕ) (active : Bool) (seen : List Text)
    → let f : TagFilter = record {
      buffer = [];
      active = active;
      active_parts = [];
      captured = seen;
    } in
      rounds (suc n) f ≡ (f, [])
unfolding rounds
rounds-empty n active seen = refl

-- The flush of a block whose end never came.
pub rounds-unclosed :
    (n : ℕ) (reply : Text) (seen : List Text)
    → search match_close reply ≡ none
    → (shown (rounds (suc n) (inside_block reply seen)) ≡ [])
      × (noted_then (rounds (suc n) (inside_block reply seen)) ≡ noted seen (reply ∷ []))
unfolding shown noted_then flush join inside_block waiting_block
rounds-unclosed n [] seen e = let z = rounds-empty n true seen in (ap shown z, ap noted_then z)
rounds-unclosed n (c ∷ s) seen e =
    let (parts, buffer, k, whole) = consume-unclosed (c ∷ s) seen e in
    let z = rounds-waiting n c s seen (waiting_block parts buffer seen) k in
    (
      ap shown z,
      ap noted_then z
          ∙ noted-join seen (parts ++ buffer ∷ []) ((c ∷ s) ∷ [])
              (whole ∙ sym (append-nil (c ∷ s))),
    )
