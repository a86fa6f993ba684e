-- ===== src/Echo/Scan.antt =====
-- A reference description of the echo splitter that reads the whole reply at once, one character
-- after the other, and that the streaming loop is compared with.
use shenyugateway.Common.{
  ℕ, zero, suc, Bool, true, false, [], ◌∷◌, ◌++◌, ◌||◌, ◌≡◌, ◌≤◌, refl, arith, if◌then◌else◌,
  length, drop,
}
use shenyugateway.Text.{Text, lstrip, starts_with, is_empty}
use shenyugateway.Text.Affixes.{
  starts_with-append, starts_with_parts, starts_with_apart, starts_with-length,
}
use shenyugateway.Echo.{Phase, seek, inside, pass}

-- The echo, the possible beginning of a close marker that is held back, and what follows the
-- close marker.
pub record Scanned : Type 0 where
  pub echo : Text
  pub held : Text
  pub after : Text
  pub closed : Bool

unfoldable pub scan : Text → Text → Scanned
scan m [] = record { echo = []; held = []; after = []; closed = false }
scan m (c ∷ s) =
    let rest = scan m s in
    if starts_with (c ∷ s) m
    then record { echo = []; held = []; after = drop (length m) (c ∷ s); closed = true }
    else if starts_with m (c ∷ s)
    then record { echo = []; held = c ∷ s; after = []; closed = false }
    else record rest { echo = c ∷ rest.echo }

-- The state of the splitter after a reply, and all that it has let out.
pub record View : Type 0 where
  pub state : Phase
  pub buffer : Text
  pub visible : Text
  pub echo : Text
  pub matched : Bool
  pub closed : Bool

abbrev pub view_inside : Scanned → View
view_inside r = record {
  state = if r.closed then pass else inside;
  buffer = r.held;
  visible = r.after;
  echo = r.echo;
  matched = true;
  closed = r.closed;
}

unfoldable pub view : Text → Text → Text → View
unfolding scan
view open_marker close_marker text =
    let candidate = lstrip text in
    if is_empty candidate || starts_with open_marker candidate
    then record {
      state = seek;
      buffer = text;
      visible = [];
      echo = [];
      matched = false;
      closed = false;
    }
    else if starts_with candidate open_marker
    then view_inside (scan close_marker (drop (length open_marker) candidate))
    else record {
      state = pass;
      buffer = [];
      visible = text;
      echo = [];
      matched = false;
      closed = false;
    }

pub drop-append : (n : ℕ) (s t : Text) → n ≤ length s → drop n (s ++ t) ≡ drop n s ++ t
drop-append zero s t h = refl
drop-append (suc n) [] t h = absurd (omega arith)
drop-append (suc n) (c ∷ s) t h = drop-append n s t (omega arith)

-- More text after an open block: the description goes on from what was held back.
pub scan-append_open :
    (m u t : Text)
    → (scan m u).closed ≡ false
    → scan m (u ++ t) ≡ record (scan m ((scan m u).held ++ t)) {
      echo = (scan m u).echo ++ (scan m ((scan m u).held ++ t)).echo;
    }
unfolding scan
scan-append_open m [] t h = refl
scan-append_open m (c ∷ u) t h =
    ground (arith, starts_with_apart (c ∷ u) m t, scan-append_open m u t)

-- More text after a closed block comes after the close marker.
pub scan-append_closed :
    (m u t : Text)
    → (scan m u).closed ≡ true
    → scan m (u ++ t) ≡ record (scan m u) { after = (scan m u).after ++ t }
unfolding scan
scan-append_closed m [] t h = cc
scan-append_closed m (c ∷ u) t h = ground (
  arith,
  starts_with_apart (c ∷ u) m t,
  starts_with-append (c ∷ u) m t,
  starts_with-length (c ∷ u) m,
  drop-append (length m) (c ∷ u) t,
  scan-append_closed m u t,
)

pub lstrip-append : (s t : Text) → is_empty (lstrip s) ≡ false → lstrip (s ++ t) ≡ lstrip s ++ t
unfolding lstrip
lstrip-append [] t h = cc
lstrip-append (c ∷ s) t h = ground (arith, lstrip-append s t)

-- While nothing closes, nothing comes after, and all of the text is echo or held back.
pub scan_parts :
    (m u : Text)
    → (scan m u).closed ≡ false
    → ((scan m u).after ≡ []) × ((scan m u).echo ++ (scan m u).held ≡ u)
unfolding scan
scan_parts m [] h = (refl, refl)
scan_parts m (c ∷ u) h = ground (arith, scan_parts m u)

-- A closed block: the echo, the close marker, and what comes after.
pub scan_closed_parts :
    (m u : Text)
    → (scan m u).closed ≡ true
    → ((scan m u).held ≡ []) × (u ≡ (scan m u).echo ++ (m ++ (scan m u).after))
unfolding scan
scan_closed_parts m [] h = cc
scan_closed_parts m (c ∷ u) h = ground (arith, scan_closed_parts m u, starts_with_parts (c ∷ u) m)
