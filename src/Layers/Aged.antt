-- ===== src/Layers/Aged.antt =====
-- What `trim_mcp_tool_results` of context_layers.py makes of each message.
use shenyugateway.Common.{
  ℕ, zero, suc, ◌+◌, ◌-◌, ◌<◌, true, false, none, some, List, [], ◌∷◌, ◌++◌, ◌==◌, leb,
  if◌then◌else◌, length, take, any, ◌≡◌, inl, inr, refl, sym, ap, ◌∙◌, arith, Bool-cases,
  Option-cases, length-append, append_assoc,
}
use native.Mathlib.Decide.{dec_le}
use shenyugateway.Text.Affixes.{text_eq_refl}
use shenyugateway.Text.{Text}
use shenyugateway.Json.{Message, Stdlib}
use shenyugateway.Layers.McpResults.{
  NamedCall, hit, is_hit_of, hit_indices, all_but_last, has_index, mcp_stub, rebuilt, mcp_call_ids,
  trim_mcp_tool_results,
}

module _ (std : Stdlib) where
  -- A message as it stands before others: a stub if enough of these are results of the same tool.
  unfoldable pub aged : ℕ → List NamedCall → Message → List Message → Message
  unfolding hit hit_indices mcp_stub
  aged keep calls m later = elim (hit std calls m) [
    | none ↦ m
    | some name ↦
        if leb keep (length (hit_indices std calls name 0 later)) then mcp_stub std name m else m
  ]

  unfoldable pub all_aged : ℕ → List NamedCall → List Message → List Message
  unfolding aged
  all_aged keep calls [] = []
  all_aged keep calls (m ∷ ms) = aged keep calls m ms ∷ all_aged keep calls ms

  -- The number of hits does not depend on where the count begins.
  hits_anywhere :
      (calls : List NamedCall) (name : Text) (i j : ℕ) (ms : List Message)
      → length (hit_indices std calls name i ms) ≡ length (hit_indices std calls name j ms)
  unfolding hit_indices
  hits_anywhere calls name i j [] = refl
  hits_anywhere calls name i j (m ∷ ms) = elim (Bool-cases (is_hit_of std calls name m)) [
    | inl e ↦ rw (e, hit_indices) (ap suc (hits_anywhere calls name (suc i) (suc j) ms))
    | inr e ↦ rw (e, hit_indices) (hits_anywhere calls name (suc i) (suc j) ms)
  ]

  -- An index before all the others is none of them.
  early_index :
      (calls : List NamedCall) (name : Text) (i j n : ℕ) (ms : List Message)
      → j < i
      → has_index std j (take n (hit_indices std calls name i ms)) ≡ false
  unfolding hit_indices has_index any
  early_index calls name i j zero ms h = refl
  early_index calls name i j (suc n) [] h = refl
  early_index calls name i j (suc n) (m ∷ ms) h = elim (Bool-cases (is_hit_of std calls name m)) [
    | inl e ↦
        let rest = early_index calls name (suc i) j n ms (omega arith) in
        let other : (j == i) ≡ false = ground arith in rw (e, hit_indices) (rw other rest)
    | inr e ↦ rw (e, hit_indices) (early_index calls name (suc i) j (suc n) ms (omega arith))
  ]

  -- A hit counts for the indices after it only by being one of the older ones.
  later_index :
      (keep : ℕ) (calls : List NamedCall) (name : Text) (i j : ℕ) (m : Message) (ms : List Message)
      → i < j
      → has_index std j (all_but_last std keep (hit_indices std calls name i (m ∷ ms)))
        ≡ has_index std j (all_but_last std keep (hit_indices std calls name (suc i) ms))
  unfolding hit_indices all_but_last has_index any
  later_index keep calls name i j m ms h = elim (Bool-cases (is_hit_of std calls name m)) [
    | inl e ↦
        let n = length (hit_indices std calls name (suc i) ms) in
        let other : (j == i) ≡ false = ground arith in
        elim (dec_le keep n) [
          | yes le ↦
              let z : suc n - keep ≡ suc (n - keep) = omega arith in
              rw (e, hit_indices) (rw z (rw other refl))
          | no gt ↦
              let z : suc n - keep ≡ 0 = omega arith in
              let y : n - keep ≡ 0 = omega arith in rw (e, hit_indices) (rw (z, y) refl)
        ]
    | inr e ↦ rw (e, hit_indices) refl
  ]

  -- A hit is one of the older ones if enough hits come after it.
  own_index :
      (keep : ℕ) (calls : List NamedCall) (name : Text) (i : ℕ) (m : Message) (ms : List Message)
      → is_hit_of std calls name m ≡ true
      → has_index std i (all_but_last std keep (hit_indices std calls name i (m ∷ ms)))
        ≡ leb keep (length (hit_indices std calls name 0 ms))
  unfolding hit_indices all_but_last has_index any
  own_index keep calls name i m ms e =
      let n = length (hit_indices std calls name (suc i) ms) in
      let same = hits_anywhere calls name 0 (suc i) ms in
      let self : (i == i) ≡ true = ground arith in
      elim (dec_le keep n) [
        | yes le ↦
            let z : suc n - keep ≡ suc (n - keep) = omega arith in
            let y : leb keep n ≡ true = ground arith in
            rw (e, hit_indices) (rw (z, same) (rw (self, y) refl))
        | no gt ↦
            let z : suc n - keep ≡ 0 = omega arith in
            let y : leb keep n ≡ false = ground arith in
            rw (e, hit_indices) (rw (z, same) (rw y refl))
      ]

  index_after :
      (keep : ℕ) (calls : List NamedCall) (name : Text) (i j : ℕ) (before ms : List Message)
      → j ≡ i + length before
      → has_index std j (all_but_last std keep (hit_indices std calls name i (before ++ ms)))
        ≡ has_index std j (all_but_last std keep (hit_indices std calls name j ms))
  index_after keep calls name i j [] ms e = let z : i ≡ j = omega (arith, e) in rw z refl
  index_after keep calls name i j (b ∷ before) ms e =
      later_index keep calls name i j b (before ++ ms) (omega (arith, e))
      ∙ index_after keep calls name (suc i) j before ms (omega (arith, e))

  hit_of_itself :
      (calls : List NamedCall) (name : Text) (m : Message)
      → hit std calls m ≡ some name
      → is_hit_of std calls name m ≡ true
  unfolding is_hit_of
  hit_of_itself calls name m e = rw (e, is_hit_of) (text_eq_refl name)

  rebuilt-all_aged :
      (keep : ℕ) (calls : List NamedCall) (i : ℕ) (before ms : List Message)
      → i ≡ length before
      → rebuilt std keep calls (before ++ ms) i ms ≡ all_aged keep calls ms
  unfolding rebuilt all_aged aged
  rebuilt-all_aged keep calls i before [] e = refl
  rebuilt-all_aged keep calls i before (m ∷ ms) e =
      let next : suc i ≡ length (before ++ m ∷ []) =
        omega (arith, e, length-append before (m ∷ [])) in
      let rest : rebuilt std keep calls (before ++ m ∷ ms) (suc i) ms ≡ all_aged keep calls ms =
        ap (λ all. rebuilt std keep calls all (suc i) ms) (sym (append_assoc before (m ∷ []) ms))
        ∙ rebuilt-all_aged keep calls (suc i) (before ++ m ∷ []) ms next in
      elim (Option-cases (hit std calls m)) [
        | inl n ↦ rw (n, rebuilt, all_aged, aged) (ap (◌∷◌ m) rest)
        | inr (name, n) ↦
            let own =
              index_after keep calls name 0 i before (m ∷ ms) (omega (arith, e))
              ∙ own_index keep calls name i m ms (hit_of_itself calls name m n) in
            rw (n, rebuilt, all_aged, aged)
              (ap
                  (λ b.
                    (if b then mcp_stub std name m else m)
                    ∷ rebuilt std keep calls (before ++ m ∷ ms) (suc i) ms)
                  own
                ∙ ap
                    (◌∷◌ (
                      if leb keep (length (hit_indices std calls name 0 ms))
                      then mcp_stub std name m
                      else m))
                    rest)
      ]

  -- `trim_mcp_tool_results` leaves every message in its place and as it is, but for the large
  -- results of MCP tools that at least `keep_recent` large results of the same tool come after:
  -- these become stubs. So small results do not count among the recent ones, unlike what the
  -- docstring says.
  pub trimmed_results :
      (keep_recent : ℕ) (messages : List Message)
      → trim_mcp_tool_results std keep_recent messages
        ≡ all_aged keep_recent (mcp_call_ids std messages) messages
  unfolding trim_mcp_tool_results
  trimmed_results keep_recent messages =
      rebuilt-all_aged keep_recent (mcp_call_ids std messages) 0 [] messages refl
