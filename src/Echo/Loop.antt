-- ===== src/Echo/Loop.antt =====
-- The loop of `feed`, against the reference description: what one run of it does to a buffer.
use shenyugateway.Common.{
  ℕ, zero, suc, ◌-◌, ◌≤◌, min, true, false, none, some, List, [], ◌∷◌, ◌++◌, ◌≡◌, refl, arith,
  length, take, drop, length-take, Bool-cases, ltb, ◌<◌, inl, inr, append-nil, append_assoc,
}
use shenyugateway.Text.{Text, starts_with, find, join}
use shenyugateway.Text.Affixes.{
  starts_with-length_lt, find_beginning, ends_with-cons, ends_with_whole,
}
use shenyugateway.Echo.{overlap_down, overlap_length, append_part}
use shenyugateway.Echo.Scan.{scan}

-- A close marker at `i` is where the reference description closes.
pub scan_found :
    (m u : Text) (c i : ℕ)
    → find (c ∷ u) m ≡ some i
    → scan m (c ∷ u) ≡ (record {
      echo = take i (c ∷ u);
      held = [];
      after = drop (length m) (drop i (c ∷ u));
      closed = true;
    })
unfolding scan find
scan_found [] [] c i h = ground arith
scan_found (e ∷ m) [] c i h = ground arith
scan_found m (d ∷ u) c i h = ground (arith, find_beginning c (d ∷ u) m, scan_found m u d (i - 1))

pub scan_open :
    (m u : Text)
    → find u m ≡ none
    → ((scan m u).closed ≡ false)
      × ((scan m u).after ≡ [])
      × ((scan m u).echo ++ (scan m u).held ≡ u)
unfolding scan find
scan_open m [] h = (refl, refl, refl)
scan_open m (c ∷ u) h = ground (arith, scan_open m u)

overlap_down-cons :
    (n c : ℕ) (s m : Text) → n ≤ length s → overlap_down n (c ∷ s) m ≡ overlap_down n s m
unfolding overlap_down
overlap_down-cons zero c s m h = refl
overlap_down-cons (suc n) c s m h =
    let e : length (take (suc n) m) ≤ length s = omega (arith, length-take (suc n) m) in
    rw (ends_with-cons c s (take (suc n) m) e, overlap_down-cons n c s m (omega arith))

overlap_length_held :
    (m u : Text) (c : ℕ)
    → starts_with m (c ∷ u) ≡ true
    → starts_with (c ∷ u) m ≡ false
    → overlap_length (c ∷ u) m ≡ suc (length u)
unfolding overlap_length
overlap_length_held m u c h k =
    let lt : suc (length u) < length m = starts_with-length_lt m (c ∷ u) h k in
    let e : min (suc (length u)) (length m - 1) ≡ suc (length u) = omega arith in
    rw e (ground (arith, ends_with_whole (c ∷ u) m))

overlap_length_out :
    (m u : Text) (c : ℕ)
    → starts_with m (c ∷ u) ≡ false
    → overlap_length (c ∷ u) m ≡ overlap_length u m
unfolding overlap_length
overlap_length_out m u c h = elim (Bool-cases (ltb (length u) (length m - 1))) [
  | inl lt ↦
      let e : min (suc (length u)) (length m - 1) ≡ suc (length u) = ground arith in
      let f : min (length u) (length m - 1) ≡ length u = ground arith in
      rw (e, f) (ground (arith, ends_with_whole (c ∷ u) m, overlap_down-cons (length u) c u m))
  | inr ge ↦
      let e : min (suc (length u)) (length m - 1) ≡ length m - 1 = ground arith in
      let f : min (length u) (length m - 1) ≡ length m - 1 = ground arith in
      rw (e, f) (overlap_down-cons (length m - 1) c u m (ground arith))
]

overlap_length-nil : (m : Text) → overlap_length [] m ≡ 0
unfolding overlap_length
overlap_length-nil m = let e : min 0 (length m - 1) ≡ 0 = omega arith in rw e

-- What is held back is the longest end of the buffer that may begin a close marker.
pub overlap_length-scan :
    (m u : Text) → find u m ≡ none → overlap_length u m ≡ length (scan m u).held
unfolding scan find
overlap_length-scan m [] h = overlap_length-nil m
overlap_length-scan m (c ∷ u) h =
    ground (arith, overlap_length_held m u c, overlap_length_out m u c, overlap_length-scan m u)

-- What was held back holds no close marker, and all of it is held back again.
pub overlap_length-held :
    (m u : Text)
    → find u m ≡ none
    → (find (scan m u).held m ≡ none) × (overlap_length (scan m u).held m ≡ length (scan m u).held)
unfolding scan find
overlap_length-held m [] h = (h, overlap_length-nil m)
overlap_length-held m (c ∷ u) h = ground (arith, overlap_length_held m u c, overlap_length-held m u)

pub join-append : (xs ys : List Text) → join (xs ++ ys) ≡ join xs ++ join ys
unfolding join
join-append [] ys = refl
join-append (t ∷ xs) ys = rw (join-append xs ys, append_assoc)

pub join-append_part : (xs : List Text) (t : Text) → join (append_part xs t) ≡ join xs ++ t
unfolding append_part join
join-append_part xs [] = rw append-nil
join-append_part xs (c ∷ t) = rw (join-append, append-nil)

pub join_snoc : (xs : List Text) (t : Text) → join (xs ++ t ∷ []) ≡ join xs ++ t
unfolding join
join_snoc xs t = rw (join-append, append-nil)
