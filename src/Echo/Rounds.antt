-- ===== src/Echo/Rounds.antt =====
-- One run of the loop of `feed`, from its start to its end, computes the reference description.
use shenyugateway.Common.{
  ℕ, suc, ◌-◌, true, false, none, some, List, [], ◌∷◌, ◌++◌, ◌≡◌, refl, arith, subst, length,
  length-append, take_append_self, drop_append_self, Option-cases, inl, inr, sym, append-nil,
}
use shenyugateway.Text.{Text, find, join}
use shenyugateway.Echo.{
  again, Collected, feed_loop, inside, emit_round, inside_round, overlap_length,
}
use shenyugateway.Echo.Scan.{Scanned, scan, View, view_inside}
use shenyugateway.Echo.Loop.{
  scan_found, scan_open, overlap_length-scan, overlap_length-held, join-append_part, join_snoc,
}

-- `d` ends a run that began at `c` and let out what `v` says.
pub record Runs (c d : Collected) (v : View) : Type 0 where
  pub open_marker : d.filter.open_marker ≡ c.filter.open_marker
  pub close_marker : d.filter.close_marker ≡ c.filter.close_marker
  pub state : d.filter.state ≡ v.state
  pub buffer : d.filter.buffer ≡ v.buffer
  pub matched : d.filter.matched ≡ v.matched
  pub closed : d.filter.closed ≡ v.closed
  pub closed_now : d.closed_now ≡ v.closed
  pub visible : join d.visible_parts ≡ join c.visible_parts ++ v.visible
  pub echo : join d.echo_out ≡ join c.echo_out ++ v.echo
  pub echo_text : join d.filter.echo_parts ≡ join c.filter.echo_parts ++ v.echo

module _ (o m : Text) (parts vis out : List Text) where
  abbrev pub at_inside : Text → Collected
  at_inside u = record {
    filter = record {
      open_marker = o;
      close_marker = m;
      state = inside;
      buffer = u;
      echo_parts = parts;
      matched = true;
      closed = false;
    };
    visible_parts = vis;
    echo_out = out;
    closed_now = false;
  }

  inside_found :
      (n c i : ℕ) (u : Text)
      → find (c ∷ u) m ≡ some i
      → Runs
          (at_inside (c ∷ u))
          (feed_loop (suc n) (at_inside (c ∷ u)))
          (view_inside (scan m (c ∷ u)))
  unfolding feed_loop inside_round
  inside_found n c i u h =
      rw (scan_found m u c i h, h, inside_round, feed_loop)
        (record {
          open_marker = refl;
          close_marker = refl;
          state = refl;
          buffer = refl;
          matched = refl;
          closed = refl;
          closed_now = refl;
          visible = join-append_part vis _;
          echo = join-append_part out _;
          echo_text = join-append_part parts _;
        })

  -- Nothing may go out: the round changes nothing.
  stays :
      (n : ℕ) (u : Text)
      → find u m ≡ none
      → overlap_length u m ≡ length u
      → feed_loop (suc n) (at_inside u) ≡ at_inside u
  unfolding feed_loop inside_round
  stays n [] h k = refl
  stays n (c ∷ u) h k =
      let z : length {A = ℕ} (c ∷ u) - overlap_length (c ∷ u) m ≡ 0 = omega arith in
      rw (h, inside_round, feed_loop, z, emit_round, inside_round, feed_loop)

-- The reference description, where no close marker is found.
abbrev pub open_view : Text → Text → View
open_view e h = record {
  state = inside;
  buffer = h;
  visible = [];
  echo = e;
  matched = true;
  closed = false;
}

pub open_view-view_inside :
    (r : Scanned) → r.closed ≡ false → r.after ≡ [] → open_view r.echo r.held ≡ view_inside r
open_view-view_inside r h k = rw (h, k)

module _ (o m : Text) (parts vis out : List Text) where
  emit_again :
      (x : ℕ) (e h : Text)
      → overlap_length (x ∷ e ++ h) m ≡ length h
      → emit_round (at_inside o m parts vis out (x ∷ e ++ h))
        ≡ again (at_inside o m (parts ++ (x ∷ e) ∷ []) vis (out ++ (x ∷ e) ∷ []) h)
  unfolding emit_round
  emit_again x e h k =
      let z : length {A = ℕ} (x ∷ e ++ h) - overlap_length (x ∷ e ++ h) m ≡ suc (length e) =
        omega (arith, length-append e h, k) in
      ground (arith, z, take_append_self e h, drop_append_self e h)

  inside_emits :
      (n x : ℕ) (e h : Text)
      → find (x ∷ e ++ h) m ≡ none
      → overlap_length (x ∷ e ++ h) m ≡ length h
      → find h m ≡ none
      → overlap_length h m ≡ length h
      → feed_loop (suc (suc n)) (at_inside o m parts vis out (x ∷ e ++ h))
        ≡ at_inside o m (parts ++ (x ∷ e) ∷ []) vis (out ++ (x ∷ e) ∷ []) h
  unfolding feed_loop inside_round
  inside_emits n x e h f k f' k' =
      rw (f, inside_round, feed_loop, emit_again x e h k, feed_loop)
        (stays o m (parts ++ (x ∷ e) ∷ []) vis (out ++ (x ∷ e) ∷ []) n h f' k')

  inside_open :
      (n : ℕ) (e h : Text)
      → find (e ++ h) m ≡ none
      → overlap_length (e ++ h) m ≡ length h
      → find h m ≡ none
      → overlap_length h m ≡ length h
      → Runs
          (at_inside o m parts vis out (e ++ h))
          (feed_loop (suc (suc n)) (at_inside o m parts vis out (e ++ h)))
          (open_view e h)
  inside_open n [] h f k f' k' = rw (stays o m parts vis out (suc n) h f' k') (record {
    open_marker = refl;
    close_marker = refl;
    state = refl;
    buffer = refl;
    matched = refl;
    closed = refl;
    closed_now = refl;
    visible = sym (append-nil _);
    echo = sym (append-nil _);
    echo_text = sym (append-nil _);
  })
  inside_open n (x ∷ e) h f k f' k' = rw (inside_emits n x e h f k f' k') (record {
    open_marker = refl;
    close_marker = refl;
    state = refl;
    buffer = refl;
    matched = refl;
    closed = refl;
    closed_now = refl;
    visible = sym (append-nil _);
    echo = join_snoc out (x ∷ e);
    echo_text = join_snoc parts (x ∷ e);
  })

  inside-Runs_cons :
      (n c : ℕ) (s : Text)
      → Runs
          (at_inside o m parts vis out (c ∷ s))
          (feed_loop (suc (suc n)) (at_inside o m parts vis out (c ∷ s)))
          (view_inside (scan m (c ∷ s)))
  inside-Runs_cons n c s =
      let u : Text = c ∷ s in
      elim (Option-cases (find u m)) [
        | inl f ↦
            let (closed, after, whole) = scan_open m u f in
            let (f', k') = overlap_length-held m u f in
            let r : Runs _ _ (open_view (scan m u).echo (scan m u).held) =
              subst
                (λ t.
                  Runs (at_inside o m parts vis out t)
                    (feed_loop (suc (suc n)) (at_inside o m parts vis out t))
                    (open_view (scan m u).echo (scan m u).held))
                whole
                (inside_open n (scan m u).echo (scan m u).held (rw whole f)
                  (rw whole (overlap_length-scan m u f)) f' k') in
            subst (Runs _ _) (open_view-view_inside (scan m u) closed after) r
        | inr (i, f) ↦ inside_found o m parts vis out (suc n) c i s f
      ]

  pub inside-Runs :
      (n : ℕ) (u : Text)
      → Runs
          (at_inside o m parts vis out u)
          (feed_loop (suc (suc n)) (at_inside o m parts vis out u))
          (view_inside (scan m u))
  unfolding feed_loop scan
  inside-Runs n [] = record {
    open_marker = refl;
    close_marker = refl;
    state = refl;
    buffer = refl;
    matched = refl;
    closed = refl;
    closed_now = refl;
    visible = sym (append-nil _);
    echo = sym (append-nil _);
    echo_text = sym (append-nil _);
  }
  inside-Runs n (c ∷ s) = inside-Runs_cons n c s
