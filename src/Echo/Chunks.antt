-- ===== src/Echo/Chunks.antt =====
-- Feeding a reply in pieces: however it is cut, the filter ends where the reference description
-- of the whole reply says, and has let out the same text.
use shenyugateway.Common.{
  ℕ, false, [], ◌∷◌, ◌++◌, ◌≡◌, refl, ap, ◌∙◌, length, drop, Bool-cases, inl, inr, append-nil,
}
use shenyugateway.Text.{Text, lstrip, starts_with, join}
use shenyugateway.Echo.{
  in_pass, seek, pass, EchoFilter, Collected, entering, feed, feed_loop, joined,
}
use shenyugateway.Echo.Scan.{
  scan, View, view, view_inside, scan-append_open, scan-append_closed, scan_parts,
}
use shenyugateway.Echo.Rounds.{Runs, at_inside, inside-Runs, open_view, open_view-view_inside}
use shenyugateway.Echo.Passes.{seek-Runs, at_seek, waits}
use shenyugateway.Echo.Agreement.{
  Agrees, view-waits, view_finds, view_finds', view_passes', view_passes,
}

-- A run of the loop that lets out what `w` says, after what `v` said.
Agrees-Runs :
    (o m vis ech : Text) (v w x : View) (f : EchoFilter) (c d : Collected)
    → Agrees o m f vis ech v
    → c.filter.open_marker ≡ o
    → c.filter.close_marker ≡ m
    → c.filter.echo_parts ≡ f.echo_parts
    → c.visible_parts ≡ []
    → c.echo_out ≡ []
    → Runs c d w
    → x ≡ record w { visible = v.visible ++ w.visible; echo = v.echo ++ w.echo }
    → Agrees o m (joined d).filter (vis ++ (joined d).visible) (ech ++ (joined d).echo) x
unfolding joined join
Agrees-Runs o m vis ech v w x f c d a p q parts cv ce r e = rw e (record {
  open_marker = r.open_marker ∙ p;
  close_marker = r.close_marker ∙ q;
  state = r.state;
  buffer = r.buffer;
  matched = r.matched;
  closed = r.closed;
  visible = cc (a.visible, r.visible, cv);
  echo = cc (a.echo, r.echo, ce);
  echo_text = cc (a.echo_text, r.echo_text, parts);
})

-- The filter has the phase, the buffer and the flags of a record in which only the echo's parts
-- are not determined.
filter_eq :
    (o m vis ech : Text) (f : EchoFilter) (v : View)
    → Agrees o m f vis ech v
    → f ≡ (record {
      open_marker = o;
      close_marker = m;
      state = v.state;
      buffer = v.buffer;
      echo_parts = f.echo_parts;
      matched = v.matched;
      closed = v.closed;
    })
filter_eq o m vis ech f v a =
    cc (a.open_marker, a.close_marker, a.state, a.buffer, a.matched, a.closed)

feed_loops :
    (f : EchoFilter) (x : ℕ) (y : Text)
    → in_pass f.state ≡ false
    → feed f (x ∷ y) ≡ joined (feed_loop 3 (entering f (x ∷ y)))
unfolding feed
feed_loops f x y h = rw h

feed_passes :
    (f : EchoFilter) (y : Text)
    → f.state ≡ pass
    → feed f y ≡ (record { filter = f; visible = y; echo = []; closed_now = false })
unfolding feed
feed_passes f [] h = refl
feed_passes f (x ∷ y) h = rw h

-- After a further piece `y` of the reply, if what came before it was `t`.
abbrev Feeds : Text → Text → Text → Text → EchoFilter → Text → View → Type 0
Feeds o m vis ech f y v =
    Agrees o m (feed f y).filter (vis ++ (feed f y).visible) (ech ++ (feed f y).echo) v

module _ (o m vis ech : Text) (f : EchoFilter) (x : ℕ) (y : Text) where
  feed_seek :
      (t : Text)
      → Agrees o m f vis ech (record {
        state = seek;
        buffer = t;
        visible = [];
        echo = [];
        matched = false;
        closed = false;
      })
      → Feeds o m vis ech f (x ∷ y) (view o m (t ++ x ∷ y))
  feed_seek t a =
      let e : entering f (x ∷ y) ≡ at_seek o m f.echo_parts (t ++ x ∷ y) =
        cc (filter_eq o m vis ech f _ a) in
      rw (feed_loops f x y (ap in_pass a.state), e)
        (Agrees-Runs o m vis ech _ _ _ f _ _ a refl refl refl refl refl
          (seek-Runs o m f.echo_parts (t ++ x ∷ y)) refl)

  feed_inside :
      (e h : Text)
      → Agrees o m f vis ech (open_view e h)
      → Feeds o m vis ech f
          (x ∷ y)
          (view_inside (record (scan m (h ++ x ∷ y)) { echo = e ++ (scan m (h ++ x ∷ y)).echo }))
  feed_inside e h a =
      let q : entering f (x ∷ y) ≡ at_inside o m f.echo_parts [] [] (h ++ x ∷ y) =
        cc (filter_eq o m vis ech f _ a) in
      rw (feed_loops f x y (ap in_pass a.state), q)
        (Agrees-Runs o m vis ech _ _ _ f _ _ a refl refl refl refl refl
          (inside-Runs o m f.echo_parts [] [] 1 (h ++ x ∷ y)) refl)

feed_pass :
    (o m vis ech y : Text) (f : EchoFilter) (v : View)
    → v.state ≡ pass
    → Agrees o m f vis ech v
    → Feeds o m vis ech f y (record v { visible = v.visible ++ y })
feed_pass o m vis ech y f v h a = rw (feed_passes f y (a.state ∙ h)) (record {
  open_marker = a.open_marker;
  close_marker = a.close_marker;
  state = a.state;
  buffer = a.buffer;
  matched = a.matched;
  closed = a.closed;
  visible = ap (λ s. s ++ y) a.visible;
  echo = append-nil ech ∙ a.echo;
  echo_text = a.echo_text;
})

module _ (o m vis ech t : Text) (f : EchoFilter) (x : ℕ) (y : Text) where
  feed_found :
      (u : Text)
      → Agrees o m f vis ech (view_inside (scan m u))
      → Feeds o m vis ech f (x ∷ y) (view_inside (scan m (u ++ x ∷ y)))
  feed_found u a = elim (Bool-cases (scan m u).closed) [
    | inl c ↦
        rw (scan-append_closed m u (x ∷ y) c)
          (feed_pass o m vis ech (x ∷ y) f (view_inside (scan m u)) (rw c) a)
    | inr c ↦
        let (after, _) = scan_parts m u c in
        rw (scan-append_open m u (x ∷ y) c) (
          feed_inside o m vis ech f x y (scan m u).echo (scan m u).held
            (rw (open_view-view_inside (scan m u) c after) a))
  ]

  pub feed-Agrees :
      Agrees o m f vis ech (view o m t) → Feeds o m vis ech f (x ∷ y) (view o m (t ++ x ∷ y))
  feed-Agrees a = elim (Bool-cases (waits o t)) [
    | inl w ↦ feed_seek o m vis ech f x y t (rw (view-waits o m t w) at a)
    | inr w ↦ elim (Bool-cases (starts_with (lstrip t) o)) [
      | inl k ↦
          let b = rw (view_finds' o m t w k) at a in
          rw (view_finds o m t (x ∷ y) w k) (feed_found (drop (length o) (lstrip t)) b)
      | inr k ↦
          let b = rw (view_passes' o m t w k) at a in
          rw (view_passes o m t (x ∷ y) w k) (feed_pass o m vis ech (x ∷ y) f _ refl b)
    ]
  ]
