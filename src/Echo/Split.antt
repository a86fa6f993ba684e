-- ===== src/Echo/Split.antt =====
-- `split_leading_echo` and `strip_leading_echo`: the one-shot split against streamed replies, and
-- against the replies that were put together from their parts.
use shenyugateway.Common.{
  ℕ, true, false, List, [], ◌∷◌, ◌++◌, ◌≡◌, refl, sym, ◌∙◌, ap, inl, inr, arith, append-nil,
  append_assoc, if◌then◌else◌, length, some, none, take, drop, take_append_self, drop_append_self,
  Bool-cases,
}
use shenyugateway.Text.{Text, is_empty, join, lstrip, find, is_space, starts_with}
use shenyugateway.Text.Affixes.{
  AllSpace, lstrip_parts, lstrip_blank, find-append, starts_with_parts,
}
use shenyugateway.Echo.{
  seek, pass, EchoSplit, split_leading_echo, strip_leading_echo, echo_open_marker,
  echo_close_marker,
}
use shenyugateway.Echo.Scan.{Scanned, view_inside, view, scan, scan_parts, scan_closed_parts}
use shenyugateway.Echo.Passes.{waits}
use shenyugateway.Echo.Agreement.{view-waits, view_finds', view_passes'}
use shenyugateway.Echo.Stream.{stream, stream_split, split_view, stream_split-view}
use shenyugateway.Echo.Loop.{scan_open, scan_found}

split_leading_echo-view :
    (content : Text)
    → split_leading_echo content ≡ split_view (view echo_open_marker echo_close_marker content)
unfolding split_leading_echo stream_split stream join
split_leading_echo-view content =
    simp append-nil at (stream_split-view echo_open_marker echo_close_marker (content ∷ []))

-- An open marker that something follows: the rest is scanned for the close marker.
view_open :
    (text rest : Text)
    → lstrip text ≡ echo_open_marker ++ rest
    → is_empty rest ≡ false
    → view echo_open_marker echo_close_marker text ≡ view_inside (scan echo_close_marker rest)
unfolding view
view_open text [] e h = cc
view_open text (c ∷ rest) e h = rw e

lstrip_open :
    (lead rest : Text)
    → AllSpace lead
    → lstrip (lead ++ (echo_open_marker ++ rest)) ≡ echo_open_marker ++ rest
unfolding lstrip is_space
lstrip_open lead rest blank = lstrip_blank lead (echo_open_marker ++ rest) blank

scan_first :
    (m u : Text) (i : ℕ)
    → is_empty u ≡ false
    → find u m ≡ some i
    → scan m u
      ≡ (record { echo = take i u; held = []; after = drop (length m) (drop i u); closed = true })
scan_first m [] i h f = cc
scan_first m (c ∷ u) i h f = scan_found m u c i f

is_empty-append : (s : Text) (c : ℕ) (t : Text) → is_empty (s ++ c ∷ t) ≡ false
is_empty-append [] c t = refl
is_empty-append (d ∷ s) c t = refl

scan_block :
    (body after : Text)
    → find (body ++ echo_close_marker) echo_close_marker ≡ some (length body)
    → scan echo_close_marker (body ++ (echo_close_marker ++ after))
      ≡ (record { echo = body; held = []; after = after; closed = true })
scan_block body after first =
    let whole = body ++ (echo_close_marker ++ after) in
    let f : find whole echo_close_marker ≡ some (length body) =
      rw append_assoc at
        (find-append (body ++ echo_close_marker) echo_close_marker after (length body) first) in
    rw (
      scan_first echo_close_marker whole (length body) (is_empty-append body _ _) f,
      take_append_self,
      drop_append_self,
    )

-- Cut a reply into pieces anywhere, also inside a marker: feeding the pieces one by one and
-- finishing gives the same visible text, echo and flags as splitting the whole reply at once.
pub stream_split-join :
    (pieces : List Text)
    → stream_split echo_open_marker echo_close_marker pieces ≡ split_leading_echo (join pieces)
stream_split-join pieces = rw (stream_split-view, split_leading_echo-view)

split_view-open :
    (r : Scanned)
    → r.closed ≡ false
    → r.after ≡ []
    → split_view (view_inside r)
      ≡ (record { visible = []; echo = r.echo ++ r.held; matched = true; closed = false })
unfolding split_view
split_view-open r h k = ground (arith, h, k)

-- What the filter holds while it seeks is visible in the end.
split_view-waits :
    (t : Text)
    → split_view (record {
      state = seek;
      buffer = t;
      visible = [];
      echo = [];
      matched = false;
      closed = false;
    })
      ≡ (record { visible = t; echo = []; matched = false; closed = false })
unfolding split_view
split_view-waits t = refl

split_view-passes :
    (t : Text)
    → split_view (record {
      state = pass;
      buffer = [];
      visible = t;
      echo = [];
      matched = false;
      closed = false;
    })
      ≡ (record { visible = t; echo = []; matched = false; closed = false })
unfolding split_view
split_view-passes t = ground (arith, append-nil t)

split_view-closed :
    (r : Scanned)
    → r.closed ≡ true
    → split_view (view_inside r)
      ≡ (record { visible = r.after; echo = r.echo; matched = true; closed = true })
unfolding split_view
split_view-closed r h = ground (arith, h, append-nil r.after, append-nil r.echo)

-- A reply of white space, an echo block and visible text splits into just these, if the close
-- marker does not begin earlier than after the body.
pub split_closed :
    (lead body after : Text)
    → AllSpace lead
    → find (body ++ echo_close_marker) echo_close_marker ≡ some (length body)
    → split_leading_echo (lead ++ (echo_open_marker ++ (body ++ (echo_close_marker ++ after))))
      ≡ (record { visible = after; echo = body; matched = true; closed = true })
unfolding split_view
split_closed lead body after blank first =
    rw
      (
        split_leading_echo-view,
        view_open _ (body ++ (echo_close_marker ++ after)) (lstrip_open lead _ blank)
            (is_empty-append body _ _),
        scan_block body after first,
      )
      (ground (arith, append-nil after, append-nil body))

-- A reply whose block never closes is echo from the open marker to its end: the body is not shown.
pub split_unclosed :
    (lead body : Text) (c : ℕ)
    → AllSpace lead
    → find (c ∷ body) echo_close_marker ≡ none
    → split_leading_echo (lead ++ (echo_open_marker ++ c ∷ body))
      ≡ (record { visible = []; echo = c ∷ body; matched = true; closed = false })
split_unclosed lead body c blank never =
    let (closed, after, whole) = scan_open echo_close_marker (c ∷ body) never in
    rw (split_leading_echo-view, view_open _ (c ∷ body) (lstrip_open lead _ blank) refl)
      (split_view-open (scan echo_close_marker (c ∷ body)) closed after
        ∙ ap (λ s. record { visible = []; echo = s; matched = true; closed = false }) whole)

-- How a split relates to the reply that it came from.
pub data Parts (content : Text) : EchoSplit → Type 0 where
  no_block :
      Parts content (record { visible = content; echo = []; matched = false; closed = false })
  open_block :
      (lead echo : Text)
      → AllSpace lead
      → content ≡ lead ++ (echo_open_marker ++ echo)
      → Parts content (record { visible = []; echo = echo; matched = true; closed = false })
  closed_block :
      (lead echo visible : Text)
      → AllSpace lead
      → content ≡ lead ++ (echo_open_marker ++ (echo ++ (echo_close_marker ++ visible)))
      → Parts content (record { visible = visible; echo = echo; matched = true; closed = true })

Parts-scan :
    (content lead rest : Text)
    → AllSpace lead
    → content ≡ lead ++ (echo_open_marker ++ rest)
    → Parts content (split_view (view_inside (scan echo_close_marker rest)))
Parts-scan content lead rest blank e = elim (Bool-cases (scan echo_close_marker rest).closed) [
  | inl c ↦
      let (_, whole) = scan_closed_parts echo_close_marker rest c in
      rw (split_view-closed (scan echo_close_marker rest) c)
        (closed_block lead _ _ blank (e ∙ ap (λ s. lead ++ (echo_open_marker ++ s)) whole))
  | inr c ↦
      let (after, whole) = scan_parts echo_close_marker rest c in
      rw (split_view-open (scan echo_close_marker rest) c after)
        (open_block lead _ blank (e ∙ ap (λ s. lead ++ (echo_open_marker ++ s)) (sym whole)))
]

view-Parts :
    (content : Text) → Parts content (split_view (view echo_open_marker echo_close_marker content))
view-Parts content = elim (Bool-cases (waits echo_open_marker content)) [
  | inl w ↦
      rw (view-waits echo_open_marker echo_close_marker content w, split_view-waits content)
        no_block
  | inr w ↦ elim (Bool-cases (starts_with (lstrip content) echo_open_marker)) [
    | inl k ↦
        let (lead, blank, e) = lstrip_parts content in
        let opened = starts_with_parts (lstrip content) echo_open_marker k in
        rw (view_finds' echo_open_marker echo_close_marker content w k)
          (Parts-scan content lead _ blank (e ∙ ap (◌++◌ lead) opened))
    | inr k ↦
        rw (view_passes' echo_open_marker echo_close_marker content w k, split_view-passes content)
          no_block
  ]
]

-- Whatever the reply, nothing of it is lost or invented: with no block all of it is visible, and
-- otherwise it is white space, the open marker, the echo and, if closed, the close marker and the
-- visible text, in this order.
pub split-Parts : (content : Text) → Parts content (split_leading_echo content)
split-Parts content = rw split_leading_echo-view (view-Parts content)

Parts-strip :
    {content : Text} {split : EchoSplit}
    → Parts content split
    → (if split.matched then split.visible else content) ≡ split.visible
Parts-strip no_block = refl
Parts-strip (open_block lead echo blank e) = refl
Parts-strip (closed_block lead echo visible blank e) = refl

-- Stripping keeps just the visible part: all of a reply without a block.
pub strip_leading_echo-visible :
    (content : Text) → strip_leading_echo content ≡ (split_leading_echo content).visible
unfolding strip_leading_echo
strip_leading_echo-visible content = Parts-strip (split-Parts content)
