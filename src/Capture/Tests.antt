-- ===== src/Capture/Tests.antt =====
-- Runs of the heartbeat filter.
use shenyugateway.Common.{List, [], ◌≡◌, refl}
use shenyugateway.Text.{Text, codes, lstrip, strip, rstrip, is_space, join}
use shenyugateway.Capture.Split.{Reads, split-Reads}
use shenyugateway.Capture.{
  new_filter, split_private_assistant_tags, feed, flush, get_heartbeat, rounds,
  consume_active_buffer, let_out, search, match_open, match_close, last_bracket, noted, after_word,
  after_first, open_end, after_bracket, same_letter,
}

program : Unit {0}
unfolding split_private_assistant_tags feed flush get_heartbeat rounds consume_active_buffer let_out
    search match_open match_close last_bracket noted after_word after_first open_end after_bracket
    same_letter is_space lstrip rstrip strip join
program = tt

split_run :
    split_private_assistant_tags (codes "a <HeartBeat x> hi </ heartbeat >b <c")
    ≡ (codes "a b <c", codes "hi")
unfolding program
split_run = refl

-- An opening tag that holds a bracket is read when it comes at once, and let out when it is cut
-- there.
whole_tag_run :
    split_private_assistant_tags (codes "<heartbeat a<b>hi</heartbeat>") ≡ (codes "", codes "hi")
unfolding program
whole_tag_run = refl

cut_tag_run :
    let (first, shown) = feed (codes "<heartbeat a<") new_filter in
    let (second, more) = feed (codes "b>hi</heartbeat>") first in
    (shown ≡ codes "<heartbeat a")
    × (more ≡ codes "<b>hi")
    × (get_heartbeat (flush second).0 ≡ codes "")
unfolding program
cut_tag_run = (refl, refl, refl)

abbrev reply : Text
reply = codes "a <heartbeat>hi</heartbeat>b"

split-Reads_example :
    (blocks : List Text) × Reads reply [] (split_private_assistant_tags reply).0 blocks
    × ((split_private_assistant_tags reply).1 ≡ strip (join blocks))
split-Reads_example = split-Reads reply
