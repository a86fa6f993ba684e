-- ===== src/Echo/Passes.antt =====
-- Passes of the loop of `feed` over a reply's white space and its open marker.
use shenyugateway.Common.{
  zero, Bool, true, false, List, [], ◌∷◌, ◌||◌, ◌≡◌, refl, sym, arith, length, drop, Bool-cases,
  inl, inr, append-nil,
}
use shenyugateway.Text.{Text, lstrip, starts_with, is_empty, join}
use shenyugateway.Echo.{seek, pass, Collected, feed_loop, seek_round}
use shenyugateway.Echo.Scan.{view}
use shenyugateway.Echo.Rounds.{Runs, at_inside, inside-Runs}

abbrev pub at_seek : Text → Text → List Text → Text → Collected
at_seek o m parts t = record {
  filter = record {
    open_marker = o;
    close_marker = m;
    state = seek;
    buffer = t;
    echo_parts = parts;
    matched = false;
    closed = false;
  };
  visible_parts = [];
  echo_out = [];
  closed_now = false;
}

abbrev pub passed : Text → Text → List Text → Text → Collected
passed o m parts t = record {
  filter = record {
    open_marker = o;
    close_marker = m;
    state = pass;
    buffer = [];
    echo_parts = parts;
    matched = false;
    closed = false;
  };
  visible_parts = t ∷ [];
  echo_out = [];
  closed_now = false;
}

-- The open marker has not shown, and may still come.
abbrev pub waits : Text → Text → Bool
waits o t = is_empty (lstrip t) || starts_with o (lstrip t)

module _ (o m : Text) (parts : List Text) where
  loop_waits :
      (t : Text) → waits o t ≡ true → feed_loop 3 (at_seek o m parts t) ≡ at_seek o m parts t
  unfolding feed_loop seek_round
  loop_waits [] h = refl
  loop_waits (c ∷ s) h = ground arith

  loop_finds :
      (t : Text)
      → waits o t ≡ false
      → starts_with (lstrip t) o ≡ true
      → feed_loop 3 (at_seek o m parts t)
        ≡ feed_loop 2 (at_inside o m parts [] [] (drop (length o) (lstrip t)))
  unfolding feed_loop seek_round lstrip
  loop_finds [] h k = cc
  loop_finds (c ∷ s) h k = ground arith

  loop_passes :
      (t : Text)
      → waits o t ≡ false
      → starts_with (lstrip t) o ≡ false
      → feed_loop 3 (at_seek o m parts t) ≡ passed o m parts t
  unfolding feed_loop seek_round lstrip
  loop_passes [] h k = cc
  loop_passes (c ∷ s) h k = ground arith

  pub seek-Runs :
      (t : Text) → Runs (at_seek o m parts t) (feed_loop 3 (at_seek o m parts t)) (view o m t)
  unfolding view join
  seek-Runs t = elim (Bool-cases (waits o t)) [
    | inl w ↦
        rw (loop_waits t w, w)
          (record {
            open_marker = refl;
            close_marker = refl;
            state = refl;
            buffer = refl;
            matched = refl;
            closed = refl;
            closed_now = refl;
            visible = refl;
            echo = refl;
            echo_text = sym (append-nil _);
          })
    | inr w ↦ elim (Bool-cases (starts_with (lstrip t) o)) [
      | inl k ↦
          let r = inside-Runs o m parts [] [] zero (drop (length o) (lstrip t)) in
          rw (loop_finds t w k, w, k)
            (record {
              open_marker = r.open_marker;
              close_marker = r.close_marker;
              state = r.state;
              buffer = r.buffer;
              matched = r.matched;
              closed = r.closed;
              closed_now = r.closed_now;
              visible = r.visible;
              echo = r.echo;
              echo_text = r.echo_text;
            })
      | inr k ↦
          rw (loop_passes t w k, w, k)
            (record {
              open_marker = refl;
              close_marker = refl;
              state = refl;
              buffer = refl;
              matched = refl;
              closed = refl;
              closed_now = refl;
              visible = append-nil t;
              echo = refl;
              echo_text = sym (append-nil _);
            })
    ]
  ]
