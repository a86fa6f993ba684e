-- ===== src/Upstream/Marks.antt =====
-- The blocks with a breakpoint that the conversion of upstream_adapter.py puts out, counted, and
-- the paths that it reports for them.
use shenyugateway.Common.{
  ℕ, zero, suc, ◌+◌, Bool, true, Option, List, [], ◌∷◌, ◌++◌, ◌≡◌, refl, leb, inl, inr, arith,
  if◌then◌else◌, length, length-append, Bool-cases,
}
use shenyugateway.Json.{Json, obj, Fields, get, put, truthy}
use shenyugateway.Json.Dicts.{get-put}
use shenyugateway.Upstream.Cache.{
  CachePath, CacheLimits, cache_control_value, can_mark, marked_block, marked_paths, mark_here,
  mark_last,
}
use shenyugateway.Upstream.State.{ApiMessage, mark_turn, with_content}
use shenyugateway.Upstream.Tail.{mark_content, mark_tail, marked_tail}

-- The number of blocks with a breakpoint, in a list and in all turns. What a block holds inside is
-- not looked into.
abbrev pub marks : List Json → ℕ
marks [] = 0
marks (obj d ∷ blocks) = (if truthy (get "cache_control" d) then 1 else 0) + marks blocks
marks (block ∷ blocks) = marks blocks

abbrev pub turn_marks : List ApiMessage → ℕ
turn_marks [] = 0
turn_marks (turn ∷ turns) = marks turn.content + turn_marks turns

pub marks-append : (bs cs : List Json) → marks (bs ++ cs) ≡ marks bs + marks cs
marks-append [] cs = omega arith
marks-append (obj d ∷ bs) cs = omega (arith, marks-append bs cs)
marks-append (Json.null ∷ bs) cs = marks-append bs cs
marks-append (Json.boolean b ∷ bs) cs = marks-append bs cs
marks-append (Json.number n k e ∷ bs) cs = marks-append bs cs
marks-append (Json.str t ∷ bs) cs = marks-append bs cs
marks-append (Json.arr vs ∷ bs) cs = marks-append bs cs

pub turn_marks-append :
    (ts us : List ApiMessage) → turn_marks (ts ++ us) ≡ turn_marks ts + turn_marks us
turn_marks-append [] us = omega arith
turn_marks-append (t ∷ ts) us = omega (arith, turn_marks-append ts us)

control_truthy :
    (ttl : CacheLimits) (d : Fields)
    → truthy (get "cache_control" (put "cache_control" (cache_control_value ttl.cache_ttl) d))
      ≡ true
unfolding cache_control_value
control_truthy limits d =
    rw (get-put "cache_control" (cache_control_value limits.cache_ttl) d refl) refl

-- A block is marked if and only if its path is reported.
pub marked_block-marks :
    (limits : CacheLimits) (d : Fields) (path : CachePath) (paths : List CachePath)
    → marks (obj (marked_block limits d paths) ∷ []) + length paths
      ≡ marks (obj d ∷ []) + length (marked_paths limits d path paths)
unfolding marked_block marked_paths can_mark
marked_block-marks limits d path paths =
    ground (arith, control_truthy limits d, length-append paths (path ∷ []))

mark_here-marks :
    (candidate : Fields → Bool) (limits : CacheLimits) (path : CachePath) (paths : List CachePath)
    (block : Json) (rest : List Json)
    → let marking = mark_here candidate limits path paths block rest in
      marks marking.blocks + length paths ≡ marks (block ∷ rest) + length marking.paths
unfolding mark_here
mark_here-marks candidate limits path paths (obj d) rest = elim (Bool-cases (candidate d)) [
  | inl e ↦ rw (e, mark_here) (omega (arith, marked_block-marks limits d path paths))
  | inr e ↦ rw (e, mark_here) refl
]
mark_here-marks candidate limits path paths Json.null rest = refl
mark_here-marks candidate limits path paths (Json.boolean b) rest = refl
mark_here-marks candidate limits path paths (Json.number n k e) rest = refl
mark_here-marks candidate limits path paths (Json.str t) rest = refl
mark_here-marks candidate limits path paths (Json.arr vs) rest = refl

pub mark_last-marks :
    (candidate : Fields → Bool) (limits : CacheLimits) (path : ℕ → CachePath)
    (paths : List CachePath) (i : ℕ) (blocks : List Json)
    → let marking = mark_last candidate limits path paths i blocks in
      marks marking.blocks + length paths ≡ marks blocks + length marking.paths
unfolding mark_last
mark_last-marks candidate limits path paths i [] = refl
mark_last-marks candidate limits path paths i (b ∷ bs) =
    let later = mark_last-marks candidate limits path paths (suc i) bs in
    elim (Bool-cases (mark_last candidate limits path paths (suc i) bs).found) [
      | inl e ↦
          let found = mark_last candidate limits path paths (suc i) bs in
          rw (e, mark_last)
            (omega (arith, later, marks-append (b ∷ []) bs, marks-append (b ∷ []) found.blocks))
      | inr e ↦ rw (e, mark_last) (mark_here-marks candidate limits (path i) paths b bs)
    ]

-- The mark before the island.
pub mark_turn-marks :
    (limits : CacheLimits) (turns : List ApiMessage) (paths : List CachePath)
    → let before = mark_turn limits turns paths in
      turn_marks (with_content turns before.blocks) + length paths
      ≡ turn_marks turns + length before.paths
unfolding mark_turn with_content
mark_turn-marks limits [] paths = refl
mark_turn-marks limits (t ∷ ts) paths = omega (arith, mark_last-marks _ limits _ paths 0 t.content)

mark_tail-marks :
    (guarded : Option ℕ) (limits : CacheLimits) (paths : List CachePath) (i count : ℕ)
    (turns : List ApiMessage)
    → let tail = mark_tail guarded limits paths i count turns in
      turn_marks tail.turns + length paths ≡ turn_marks turns + length tail.paths
unfolding mark_tail mark_content
mark_tail-marks guarded limits paths i zero turns = refl
mark_tail-marks guarded limits paths i (suc count) [] = refl
mark_tail-marks guarded limits paths i (suc count) (t ∷ ts) =
    let later = mark_tail-marks guarded limits paths (suc i) count ts in
    elim (Bool-cases (mark_tail guarded limits paths (suc i) count ts).found) [
      | inl e ↦ rw (e, mark_tail) (omega (arith, later))
      | inr e ↦
          rw (e, mark_tail, mark_content)
            (omega (arith, mark_last-marks _ limits _ paths 0 t.content))
    ]

-- The mark at the end.
pub marked_tail-marks :
    (guarded : Option ℕ) (limits : CacheLimits) (paths : List CachePath) (turns : List ApiMessage)
    → let tail = marked_tail guarded limits paths turns in
      turn_marks tail.turns + length paths ≡ turn_marks turns + length tail.paths
unfolding marked_tail
marked_tail-marks guarded limits paths turns =
    elim (Bool-cases (leb limits.max_breakpoints (length paths))) [
      | inl e ↦ rw (e, marked_tail) refl
      | inr e ↦ rw (e, marked_tail) (mark_tail-marks guarded limits paths 0 _ turns)
    ]
