-- ===== src/Window/Boundaries.antt =====
-- Where a window may be cut: the groups cover the history, and the safe start is the last place at
-- or before an index where a human turn begins.
use shenyugateway.Common.{
  ℕ, zero, suc, ◌+◌, ◌-◌, ◌≤◌, ◌<◌, Bool, true, false, ◌&&◌, ◌⊎◌, inl, inr, List, [], ◌∷◌, ◌≡◌, ap,
  ◌∙◌, refl, arith, leb, ltb, min, length, Bool-cases,
}
use native.Mathlib.Decide.{ℕ_discrete, dec_lt}
use shenyugateway.Json.{Message, has_role}
use shenyugateway.Window.Groups.{
  Group, user_starts, groups_from, from_zero, human_turn_groups, start_in, group_safe_start,
}

-- Whether the message at an index is the user's.
abbrev pub user_at : List Message → ℕ → Bool
user_at [] k = false
user_at (m ∷ ms) zero = has_role "user" m
user_at (m ∷ ms) (suc k) = user_at ms k

-- The groups follow one another without a gap from `a` to `b`, and none is empty.
abbrev pub Covers : List Group → ℕ → ℕ → Type 0
Covers [] a b = a ≡ b
Covers ((start, stop) ∷ groups) a b = (start ≡ a) × (start < stop) × Covers groups stop b

-- From `a` up to `b` the numbers with the property `P` are those of the list, in order.
pub data Lists (P : ℕ → Bool) (b : ℕ) : ℕ → List ℕ → Type 0 where
  no_more : (a : ℕ) → a ≤ b → ((k : ℕ) → a ≤ k → k < b → P k ≡ false) → Lists P b a []
  then_at :
      (a s : ℕ) (ss : List ℕ)
      → a ≤ s
      → s < b
      → P s ≡ true
      → ((k : ℕ) → a ≤ k → k < s → P k ≡ false)
      → Lists P b (suc s) ss
      → Lists P b a (s ∷ ss)

false_from :
    (P : ℕ → Bool) (a k : ℕ) → P a ≡ false → a ≤ k → (suc a ≤ k → P k ≡ false) → P k ≡ false
false_from P a k out le above = elim (ℕ_discrete a k) [
  | yes e ↦ rw (← e) out
  | no ne ↦ above (omega arith)
]

Lists-down :
    (P : ℕ → Bool) (b a : ℕ) (l : List ℕ) → P a ≡ false → Lists P b (suc a) l → Lists P b a l
Lists-down P b a l out (no_more _ le none) =
    no_more a (omega arith) (λ k h t. false_from P a k out h (λ h'. none k h' t))
Lists-down P b a l out (then_at _ s ss le lt here before rest) =
    then_at a s ss (omega arith) lt here (λ k h t. false_from P a k out h (λ h'. before k h' t))
      rest

Lists-iff :
    (P Q : ℕ → Bool) (b a : ℕ) (l : List ℕ)
    → ((k : ℕ) → a ≤ k → P k ≡ Q k)
    → Lists P b a l
    → Lists Q b a l
Lists-iff P Q b a l e (no_more _ le none) = no_more a le (λ k h t. rw (← e k h) (none k h t))
Lists-iff P Q b a l e (then_at _ s ss le lt here before rest) =
    then_at a s ss le lt (rw (← e s le) here) (λ k h t. rw (← e k h) (before k h t))
      (Lists-iff P Q b (suc s) ss (λ k h. e k (omega arith)) rest)

user_at-suc :
    (m : Message) (ms : List Message) (i k : ℕ)
    → suc i ≤ k
    → user_at ms (k - suc i) ≡ user_at (m ∷ ms) (k - i)
user_at-suc m ms i k h = let e : k - i ≡ suc (k - suc i) = omega arith in rw e

user_at_self :
    (m : Message) (ms : List Message) (i : ℕ) → user_at (m ∷ ms) (i - i) ≡ has_role "user" m
user_at_self m ms i = let e : i - i ≡ 0 = omega arith in rw e

-- `user_starts` lists the user's messages, all of them, in order.
user_starts-Lists :
    (i : ℕ) (ms : List Message)
    → Lists (λ k. user_at ms (k - i)) (i + length ms) i (user_starts i ms)
unfolding user_starts
user_starts-Lists i [] = no_more i (omega arith) (λ k h t. absurd (omega arith))
user_starts-Lists i (m ∷ ms) =
    let e : suc i + length ms ≡ i + suc (length ms) = omega arith in
    let later : Lists (λ k. user_at (m ∷ ms) (k - i)) (i + suc (length ms)) (suc i)
        (user_starts (suc i) ms) =
      rw e at (Lists-iff _ _ _ (suc i) _ (user_at-suc m ms i) (user_starts-Lists (suc i) ms)) in
    elim (Bool-cases (has_role "user" m)) [
      | inl u ↦ rw u (
          then_at i i _ (omega arith) (omega arith) (user_at_self m ms i ∙ u)
            (λ k h t. absurd (omega arith)) later)
      | inr u ↦ rw u (Lists-down _ _ i _ (user_at_self m ms i ∙ u) later)
    ]

-- The user's messages of a whole history.
starts_of :
    (m : Message) (ms : List Message)
    → Lists (user_at (m ∷ ms)) (length (m ∷ ms)) 0 (user_starts 0 (m ∷ ms))
starts_of m ms =
    let e : 0 + length (m ∷ ms) ≡ length (m ∷ ms) = omega arith in
    rw e at (
      Lists-iff _ _ _ 0 _ (λ k h. let z : k - 0 ≡ k = omega arith in ap (user_at (m ∷ ms)) z)
        (user_starts-Lists 0 (m ∷ ms)))

here_or : (P : ℕ → Bool) (t r : ℕ) → P t ≡ true → (r ≡ t) ⊎ (P r ≡ true) → P r ≡ true
here_or P t r here (inl e) = ap P e ∙ here
here_or P t r here (inr h) = h

groups_from-Covers :
    (P : ℕ → Bool) (b s : ℕ) (ss : List ℕ)
    → s < b
    → Lists P b (suc s) ss
    → Covers (groups_from (s ∷ ss) b) s b
unfolding groups_from
groups_from-Covers P b s [] lt l = (refl, lt, refl)
groups_from-Covers P b s (t ∷ ts) lt (then_at _ _ _ le lt' _ _ rest) =
    (refl, le, groups_from-Covers P b t ts lt' rest)

-- `r` is the last of `s` and the places with `P` after it, at or before `d`.
pub record LastStart (P : ℕ → Bool) (s d r : ℕ) : Type 0 where
  pub within : r ≤ d
  pub starts : (r ≡ s) ⊎ (P r ≡ true)
  pub between : (k : ℕ) → r < k → k ≤ d → P k ≡ false

start_in_last :
    (P : ℕ → Bool) (b s d : ℕ) (ss : List ℕ)
    → s ≤ d
    → d < b
    → Lists P b (suc s) ss
    → LastStart P s d (start_in (groups_from (s ∷ ss) b) d)
unfolding start_in groups_from
start_in_last P b s d [] le lt (no_more _ _ none) =
    let test : (leb s d && ltb d b) ≡ true = ground arith in
    rw test (record { within = le; starts = inl refl; between = λ k h h'. none k h (omega arith) })
start_in_last P b s d (t ∷ ts) le lt (then_at _ _ _ le' lt' here before rest) = elim (dec_lt d t) [
  | yes early ↦
      let test : (leb s d && ltb d t) ≡ true = ground arith in
      rw test
        (record { within = le; starts = inl refl; between = λ k h h'. before k h (omega arith) })
  | no late ↦
      let test : (leb s d && ltb d t) ≡ false = ground arith in
      let r = start_in_last P b t d ts (omega arith) lt rest in
      rw test (record {
        within = r.within;
        starts = inr (here_or P t (start_in (groups_from (t ∷ ts) b) d) here r.starts);
        between = r.between;
      })
]

Lists-bound : (P : ℕ → Bool) (b a : ℕ) (l : List ℕ) → Lists P b a l → a ≤ b
Lists-bound P b a l (no_more _ le none) = le
Lists-bound P b a l (then_at _ s ss le lt here before rest) = omega arith

-- With 0 in front, the starts of the groups.
from_zero-Lists :
    (P : ℕ → Bool) (b : ℕ) (l : List ℕ)
    → 0 < b
    → Lists P b 0 l
    → (ss : List ℕ) × (from_zero l ≡ 0 ∷ ss) × Lists P b 1 ss
unfolding from_zero
from_zero-Lists P b [] lt (no_more _ le none) =
    ([], refl, no_more 1 lt (λ k h t. none k (omega arith) t))
from_zero-Lists P b (zero ∷ ss) lt (then_at _ _ _ le lt' here before rest) = (ss, refl, rest)
from_zero-Lists P b (suc s ∷ ss) lt (then_at _ _ _ le lt' here before rest) = (
  suc s ∷ ss,
  ground arith,
  then_at 1 (suc s) ss (omega arith) lt' here (λ k h t. before k (omega arith) t) rest,
)

-- The groups cut the history into non-empty runs, from its first message to its last.
pub human_turn_groups-Covers :
    (messages : List Message) → Covers (human_turn_groups messages) 0 (length messages)
unfolding human_turn_groups
human_turn_groups-Covers [] = refl
human_turn_groups-Covers (m ∷ ms) =
    let (ss, e, l) = from_zero-Lists _ _ _ (omega arith) (starts_of m ms) in
    rw e (groups_from-Covers _ _ 0 ss (omega arith) l)

-- The safe start of an index within the history is at or before it; it is the beginning, or a
-- message of the user's; and no message of the user's lies after it, up to the index. So a cut
-- there parts no reply, and no tool's transcript, from the user's message that it answers.
pub group_safe_start-LastStart :
    (messages : List Message) (desired : ℕ)
    → desired < length messages
    → LastStart (user_at messages) 0 desired (group_safe_start messages desired)
unfolding group_safe_start human_turn_groups
group_safe_start-LastStart [] d lt = absurd (omega arith)
group_safe_start-LastStart (m ∷ ms) d lt =
    let (ss, e, l) = from_zero-Lists _ _ _ (omega arith) (starts_of m ms) in
    let q : min d (suc (length ms)) ≡ d = omega arith in
    let test : leb (suc (length ms)) d ≡ false = ground arith in
    rw (q, test, e) (start_in_last _ _ 0 d ss (omega arith) lt l)

-- Past its end, the safe start of an index is the end.
pub group_safe_start_end :
    (messages : List Message) (desired : ℕ)
    → length messages ≤ desired
    → group_safe_start messages desired ≡ length messages
unfolding group_safe_start
group_safe_start_end ms d h =
    let q : min d (length ms) ≡ length ms = omega arith in
    let test : leb (length ms) (length ms) ≡ true = ground arith in rw (q, test)

pub group_safe_start-le :
    (messages : List Message) (desired : ℕ) → group_safe_start messages desired ≤ length messages
group_safe_start-le ms d = elim (dec_lt d (length ms)) [
  | yes h ↦ omega (arith, (group_safe_start-LastStart ms d h).within)
  | no h ↦ omega (arith, group_safe_start_end ms d (omega arith))
]
