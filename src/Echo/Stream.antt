-- ===== src/Echo/Stream.antt =====
-- A whole reply through the filter: `feed` on each piece, then `finish`.
use shenyugateway.Common.{false, List, [], ◌∷◌, ◌++◌, ◌≡◌, refl, arith, append-nil, append_assoc}
use shenyugateway.Text.{Text, join, lstrip}
use shenyugateway.Echo.{seek, inside, pass, EchoFilter, fresh, feed, finish, EchoSplit}
use shenyugateway.Echo.Scan.{View, view}
use shenyugateway.Echo.Agreement.{Agrees}
use shenyugateway.Echo.Chunks.{feed-Agrees}

pub record Streamed : Type 0 where
  pub filter : EchoFilter
  pub visible : Text
  pub echo : Text

-- `feed` on each piece in turn, and what the calls let out.
unfoldable pub stream : EchoFilter → List Text → Streamed
stream f [] = record { filter = f; visible = []; echo = [] }
stream f (piece ∷ pieces) =
    let fed = feed f piece in
    let rest = stream fed.filter pieces in
    record {
      filter = rest.filter;
      visible = fed.visible ++ rest.visible;
      echo = fed.echo ++ rest.echo;
    }

-- A streamed reply as the caller has it in the end.
unfoldable pub stream_split : Text → Text → List Text → EchoSplit
stream_split open_marker close_marker pieces =
    let s = stream (fresh open_marker close_marker) pieces in
    let done = finish s.filter in
    record {
      visible = s.visible ++ done.visible;
      echo = s.echo ++ done.echo;
      matched = done.filter.matched;
      closed = done.filter.closed;
    }

-- What `finish` adds to a view.
unfoldable pub split_view : View → EchoSplit
split_view v = record {
  visible = v.visible ++ (elim v.state [ seek ↦ v.buffer | inside ↦ [] | pass ↦ [] ]);
  echo = v.echo ++ (elim v.state [ seek ↦ [] | inside ↦ v.buffer | pass ↦ [] ]);
  matched = v.matched;
  closed = v.closed;
}

feed-nil :
    (f : EchoFilter)
    → feed f [] ≡ (record { filter = f; visible = []; echo = []; closed_now = false })
unfolding feed
feed-nil f = refl

module _ (o m : Text) where
  stream-Agrees :
      (pieces : List Text) (t vis ech : Text) (f : EchoFilter)
      → Agrees o m f vis ech (view o m t)
      → Agrees o m
          (stream f pieces).filter
          (vis ++ (stream f pieces).visible)
          (ech ++ (stream f pieces).echo)
          (view o m (t ++ join pieces))
  unfolding stream join
  stream-Agrees [] t vis ech f a = rw (append-nil, append-nil, append-nil) a
  stream-Agrees ([] ∷ pieces) t vis ech f a = rw feed-nil (stream-Agrees pieces t vis ech f a)
  stream-Agrees ((x ∷ y) ∷ pieces) t vis ech f a =
      simp (← append_assoc)
        (stream-Agrees pieces (t ++ x ∷ y) _ _ _ (feed-Agrees o m vis ech t f x y a))

  fresh-Agrees : Agrees o m (fresh o m) [] [] (view o m [])
  unfolding view join lstrip
  fresh-Agrees = record {
    open_marker = refl;
    close_marker = refl;
    state = refl;
    buffer = refl;
    matched = refl;
    closed = refl;
    visible = refl;
    echo = refl;
    echo_text = refl;
  }

  finish-split_view :
      (f : EchoFilter) (vis ech : Text) (v : View)
      → Agrees o m f vis ech v
      → (record {
        visible = vis ++ (finish f).visible;
        echo = ech ++ (finish f).echo;
        matched = (finish f).filter.matched;
        closed = (finish f).filter.closed;
      })
        ≡ split_view v
  unfolding finish split_view
  finish-split_view f vis ech v a = ground arith

  -- Total: the pieces of a reply, however it is cut, give the description of the whole reply.
  pub stream-view :
      (pieces : List Text)
      → Agrees o m
          (stream (fresh o m) pieces).filter
          (stream (fresh o m) pieces).visible
          (stream (fresh o m) pieces).echo
          (view o m (join pieces))
  stream-view pieces = stream-Agrees pieces [] [] [] (fresh o m) fresh-Agrees

  pub stream_split-view :
      (pieces : List Text) → stream_split o m pieces ≡ split_view (view o m (join pieces))
  unfolding stream_split
  stream_split-view pieces = finish-split_view _ _ _ _ (stream-view pieces)
