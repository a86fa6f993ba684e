-- ===== src/Echo.antt =====
-- shenyu_gateway/echo.py: the stream splitter of the leading `[回响]…[/回响]` block, the one-shot
-- split built from it, and the trimming of old echoes.
pub mod Scan
pub mod Loop
pub mod Rounds
pub mod Passes
pub mod Agreement
pub mod Chunks
pub mod Stream
pub mod Split
pub mod Trim
mod Tests
use shenyugateway.Common.{
  ℕ, zero, suc, ◌-◌, min, Bool, true, false, Option, none, some, List, [], ◌∷◌, ◌++◌, ◌≡◌, refl,
  leb, if◌then◌else◌, length, take, drop,
}
use shenyugateway.Text.{Text, codes, is_space, lstrip, starts_with, ends_with, find, join, is_empty}

abbrev pub echo_open_marker : Text
echo_open_marker = codes "[回响]"

abbrev pub echo_close_marker : Text
echo_close_marker = codes "[/回响]"

-- `_SEEK`, `_IN`, `_PASS`
pub data Phase : Type 0 where
  seek inside pass : Phase

pub record EchoFilter : Type 0 where
  pub open_marker : Text
  pub close_marker : Text
  pub state : Phase
  pub buffer : Text
  pub echo_parts : List Text
  pub matched : Bool
  pub closed : Bool

pub data Error : Type 0 where
  value_error : Error

pub data Result {ℓ} (A : Type ℓ) : Type ℓ where
  ok : A → Result A
  raise : Error → Result A

abbrev pub fresh : Text → Text → EchoFilter
fresh open_marker close_marker = record {
  open_marker = open_marker;
  close_marker = close_marker;
  state = seek;
  buffer = [];
  echo_parts = [];
  matched = false;
  closed = false;
}

-- `EchoStreamFilter.__init__`
unfoldable pub init : Text → Text → Result EchoFilter
init [] close_marker = raise value_error
init (c ∷ open_rest) [] = raise value_error
init (c ∷ open_rest) (d ∷ close_rest) =
    if is_space c then raise value_error else ok (fresh (c ∷ open_rest) (d ∷ close_rest))

-- The `for` of `_overlap_length`, from `n` down to 1.
unfoldable pub overlap_down : ℕ → Text → Text → ℕ
overlap_down zero text marker = 0
overlap_down (suc n) text marker =
    let rest = overlap_down n text marker in
    if ends_with text (take (suc n) marker) then suc n else rest

unfoldable pub overlap_length : Text → Text → ℕ
unfolding overlap_down
overlap_length text marker = overlap_down (min (length text) (length marker - 1)) text marker

-- What one call of `feed` collects before it joins the parts.
pub record Collected : Type 0 where
  pub filter : EchoFilter
  pub visible_parts : List Text
  pub echo_out : List Text
  pub closed_now : Bool

-- A round of the loop either leaves it or goes on.
pub data Round : Type 0 where
  leave : Collected → Round
  again : Collected → Round

-- The body of the loop while seeking the open marker.
unfoldable pub seek_round : Collected → Round
seek_round c =
    let f = c.filter in
    let candidate = lstrip f.buffer in
    if is_empty candidate
    then leave c
    else if starts_with f.open_marker candidate
    then leave c
    else if starts_with candidate f.open_marker
    then again (record c {
      filter = record f {
        buffer = drop (length f.open_marker) candidate;
        state = inside;
        matched = true;
      };
    })
    else leave (record c {
      filter = record f { buffer = []; state = pass };
      visible_parts = c.visible_parts ++ f.buffer ∷ [];
    })

-- `if part: parts.append(part)`
unfoldable pub append_part : List Text → Text → List Text
append_part parts [] = parts
append_part parts (c ∷ part) = parts ++ (c ∷ part) ∷ []

-- The close marker was found at `i`.
unfoldable pub close_at : Collected → ℕ → Round
close_at c i =
    let f = c.filter in
    let echo_part = take i f.buffer in
    leave (record {
      filter = record f {
        buffer = [];
        state = pass;
        closed = true;
        echo_parts = append_part f.echo_parts echo_part;
      };
      visible_parts = append_part c.visible_parts (drop (length f.close_marker) (drop i f.buffer));
      echo_out = append_part c.echo_out echo_part;
      closed_now = true;
    })

-- No close marker yet: all but a possible beginning of one goes out.
unfoldable pub emit_round : Collected → Round
emit_round c =
    let f = c.filter in
    let emit_length = length f.buffer - overlap_length f.buffer f.close_marker in
    let echo_part = take emit_length f.buffer in
    if leb emit_length 0
    then leave c
    else again (record c {
      filter = record f {
        buffer = drop emit_length f.buffer;
        echo_parts = f.echo_parts ++ echo_part ∷ [];
      };
      echo_out = c.echo_out ++ echo_part ∷ [];
    })

unfoldable pub inside_round : Collected → Round
unfolding close_at emit_round
inside_round c = elim (find c.filter.buffer c.filter.close_marker) [
  | some i ↦ close_at c i
  | none ↦ emit_round c
]

-- `while self._buffer and self._state != _PASS`, on fuel.
unfoldable pub feed_loop : ℕ → Collected → Collected
feed_loop zero c = c
feed_loop (suc fuel) c = elim (is_empty c.filter.buffer) [
  | true ↦ c
  | false ↦ elim c.filter.state [
    | seek ↦ elim (seek_round c) [ leave d ↦ d | again d ↦ feed_loop fuel d ]
    | inside ↦ elim (inside_round c) [ leave d ↦ d | again d ↦ feed_loop fuel d ]
    | pass ↦ c
  ]
]

-- One round finds the open marker, one the close marker or all that may go out, one sees that
-- nothing more may go out.
abbrev pub loop_fuel : ℕ
loop_fuel = 3

pub record Fed : Type 0 where
  pub filter : EchoFilter
  pub visible : Text
  pub echo : Text
  pub closed_now : Bool

unfoldable pub joined : Collected → Fed
joined c = record {
  filter = c.filter;
  visible = join c.visible_parts;
  echo = join c.echo_out;
  closed_now = c.closed_now;
}

abbrev pub entering : EchoFilter → Text → Collected
entering f text = record {
  filter = record f { buffer = f.buffer ++ text };
  visible_parts = [];
  echo_out = [];
  closed_now = false;
}

abbrev pub in_pass : Phase → Bool
in_pass pass = true
in_pass _ = false

-- `EchoStreamFilter.feed`
unfoldable pub feed : EchoFilter → Text → Fed
unfolding joined feed_loop
feed f text =
    if is_empty text
    then record { filter = f; visible = []; echo = []; closed_now = false }
    else if in_pass f.state
    then record { filter = f; visible = text; echo = []; closed_now = false }
    else joined (feed_loop loop_fuel (entering f text))

pub record Finished : Type 0 where
  pub filter : EchoFilter
  pub visible : Text
  pub echo : Text

abbrev drained : EchoFilter → EchoFilter
drained f = record f { buffer = []; state = pass }

finish_in : Phase → EchoFilter → Finished
finish_in seek f = record { filter = drained f; visible = f.buffer; echo = [] }
finish_in inside f = record {
  filter = record f { buffer = []; state = pass; echo_parts = append_part f.echo_parts f.buffer };
  visible = [];
  echo = f.buffer;
}
finish_in pass f = record { filter = f; visible = []; echo = [] }

-- `EchoStreamFilter.finish`
unfoldable pub finish : EchoFilter → Finished
unfolding finish_in
finish f = finish_in f.state f

-- The property `echo_text`.
unfoldable pub echo_text : EchoFilter → Text
echo_text f = join f.echo_parts

pub record EchoSplit : Type 0 where
  pub visible : Text
  pub echo : Text
  pub matched : Bool
  pub closed : Bool

unfoldable pub split_leading_echo : Text → EchoSplit
split_leading_echo content =
    let fed = feed (fresh echo_open_marker echo_close_marker) content in
    let done = finish fed.filter in
    record {
      visible = fed.visible ++ done.visible;
      echo = fed.echo ++ done.echo;
      matched = done.filter.matched;
      closed = done.filter.closed;
    }

unfoldable pub strip_leading_echo : Text → Text
strip_leading_echo content =
    let split = split_leading_echo content in if split.matched then split.visible else content
