-- ===== src/Echo/Tests.antt =====
-- Runs of the echo splitter.
use shenyugateway.Common.{◌≡◌, refl, true, false, List, [], ◌∷◌, ◌++◌, some, none, length, String}
use shenyugateway.Text.{Text, codes, is_space, lstrip, ends_with, find, join}
use shenyugateway.Text.Affixes.{AllSpace}
use shenyugateway.Json.{Message, str, field, end}
use shenyugateway.Echo.{
  split_leading_echo, feed, finish, seek_round, append_part, inside_round, overlap_length,
  strip_leading_echo, echo_open_marker, echo_close_marker,
}
use shenyugateway.Echo.Stream.{stream_split}
use shenyugateway.Echo.Split.{stream_split-join, Parts, split-Parts, split_closed, split_unclosed}
use shenyugateway.Echo.Trim.{trim_assistant_echoes, trimmed, echoes, trim_assistant_echoes-trimmed}

program : Unit {0}
unfolding split_leading_echo feed finish seek_round append_part inside_round overlap_length
    strip_leading_echo is_space lstrip ends_with find join
program = tt

abbrev pieces : List Text
pieces = codes " [回" ∷ codes "响]ab[/" ∷ codes "回响]cd" ∷ []

stream_split-join_example :
    stream_split echo_open_marker echo_close_marker pieces ≡ split_leading_echo (join pieces)
stream_split-join_example = stream_split-join pieces

abbrev reply : Text
reply = codes " [回响]ab[/回响]cd"

split-Parts_example : Parts reply (split_leading_echo reply)
split-Parts_example = split-Parts reply

blank : AllSpace (codes " ")
unfolding program
blank = (refl, tt)

first_close : find (codes "ab" ++ echo_close_marker) echo_close_marker ≡ some (length (codes "ab"))
unfolding program
first_close = refl

split_closed_run :
    split_leading_echo
      (codes " " ++ (echo_open_marker ++ (codes "ab" ++ (echo_close_marker ++ codes "cd"))))
    ≡ (record { visible = codes "cd"; echo = codes "ab"; matched = true; closed = true })
split_closed_run = split_closed (codes " ") (codes "ab") (codes "cd") blank first_close

never_closes : find (97 ∷ codes "b") echo_close_marker ≡ none
unfolding program
never_closes = refl

split_unclosed_run :
    split_leading_echo (codes " " ++ (echo_open_marker ++ 97 ∷ codes "b"))
    ≡ (record { visible = []; echo = 97 ∷ codes "b"; matched = true; closed = false })
split_unclosed_run = split_unclosed (codes " ") (codes "b") 97 blank never_closes

abbrev message : String → String → Message
message role content = field "role" (str (codes role)) (field "content" (str (codes content)) end)

abbrev talk : List Message
talk = message "assistant" " [回响]ab[/回响]cd" ∷ message "user" "one" ∷ []

trim_assistant_echoes-trimmed_example :
    ((trim_assistant_echoes 0 talk).trimmed ≡ trimmed 0 talk)
    × ((trim_assistant_echoes 0 talk).seen ≡ echoes talk)
trim_assistant_echoes-trimmed_example = trim_assistant_echoes-trimmed 0 talk
