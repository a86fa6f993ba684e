-- ===== src/Echo/Agreement.antt =====
-- When a filter agrees with the reference description, and what the description says of a reply
-- that grows.
use shenyugateway.Common.{true, false, [], ◌++◌, ◌≡◌, arith, length, drop}
use shenyugateway.Text.{Text, lstrip, starts_with, join}
use shenyugateway.Text.Affixes.{
  starts_with-append, starts_with_apart, starts_with_longer, starts_with-length,
}
use shenyugateway.Echo.{seek, pass, EchoFilter}
use shenyugateway.Echo.Scan.{scan, View, view, view_inside, lstrip-append, drop-append}
use shenyugateway.Echo.Passes.{waits}

-- The filter `f`, which has let out `vis` and `ech`, as `v` describes it.
pub record Agrees (o m : Text) (f : EchoFilter) (vis ech : Text) (v : View) : Type 0 where
  pub open_marker : f.open_marker ≡ o
  pub close_marker : f.close_marker ≡ m
  pub state : f.state ≡ v.state
  pub buffer : f.buffer ≡ v.buffer
  pub matched : f.matched ≡ v.matched
  pub closed : f.closed ≡ v.closed
  pub visible : vis ≡ v.visible
  pub echo : ech ≡ v.echo
  pub echo_text : join f.echo_parts ≡ v.echo

-- How the description of a reply grows with the reply.
pub view-waits :
    (o m t : Text)
    → waits o t ≡ true
    → view o m t ≡ (record {
      state = seek;
      buffer = t;
      visible = [];
      echo = [];
      matched = false;
      closed = false;
    })
unfolding view
view-waits o m t h = ground arith

pub view_finds :
    (o m t c : Text)
    → waits o t ≡ false
    → starts_with (lstrip t) o ≡ true
    → view o m (t ++ c) ≡ view_inside (scan m (drop (length o) (lstrip t) ++ c))
unfolding view
view_finds o m t c h k = ground (
  arith,
  lstrip-append t c,
  drop-append (length o) (lstrip t) c,
  starts_with-length (lstrip t) o,
  starts_with-append (lstrip t) o c,
  starts_with_longer (lstrip t) o c,
)

pub view_finds' :
    (o m t : Text)
    → waits o t ≡ false
    → starts_with (lstrip t) o ≡ true
    → view o m t ≡ view_inside (scan m (drop (length o) (lstrip t)))
unfolding view
view_finds' o m t h k = ground arith

pub view_passes' :
    (o m t : Text)
    → waits o t ≡ false
    → starts_with (lstrip t) o ≡ false
    → view o m t ≡ (record {
      state = pass;
      buffer = [];
      visible = t;
      echo = [];
      matched = false;
      closed = false;
    })
unfolding view
view_passes' o m t h k = ground arith

pub view_passes :
    (o m t c : Text)
    → waits o t ≡ false
    → starts_with (lstrip t) o ≡ false
    → view o m (t ++ c) ≡ (record {
      state = pass;
      buffer = [];
      visible = t ++ c;
      echo = [];
      matched = false;
      closed = false;
    })
unfolding view
view_passes o m t c h k = ground (arith, lstrip-append t c, starts_with_apart (lstrip t) o c)
