-- ===== src/Echo/Trim.antt =====
-- `trim_assistant_echoes`: an echo stays in the messages for some later user turns.
use mathlib.Core.List.{reverse, reverse-cons, reverse-append, reverse-reverse}
use shenyugateway.Common.{
  ℕ, ◌+◌, Bool, ◌&&◌, List, [], ◌∷◌, ◌++◌, ◌≡◌, refl, sym, ap, ◌∙◌, ltb, if◌then◌else◌,
}
use shenyugateway.Text.{Text}
use shenyugateway.Json.{Json, str, Message, get, put, is_str, has_role}
use shenyugateway.Echo.{split_leading_echo}

-- The variables of the loop: the later user turns so far, the messages from the last one on, and
-- the two counters.
pub record Trimming : Type 0 where
  pub later_user_turns : ℕ
  pub trimmed : List Message
  pub seen : ℕ
  pub stripped : ℕ

-- The text of an assistant's message.
abbrev pub text_of : Json → Text
text_of (str t) = t
text_of _ = []

-- An assistant's message with an echo.
unfoldable pub holds_echo : Message → Bool
holds_echo message =
    has_role "assistant" message
    && is_str (get "content" message)
    && (split_leading_echo (text_of (get "content" message))).matched

unfoldable pub without_echo : Message → Message
without_echo message =
    put "content" (str (split_leading_echo (text_of (get "content" message))).visible) message

-- The body of `for message in reversed(messages)`.
unfoldable pub trim_step : ℕ → Message → Trimming → Trimming
trim_step keep_turns message t =
    let strip = holds_echo message && ltb keep_turns t.later_user_turns in
    record {
      later_user_turns =
          if has_role "user" message then t.later_user_turns + 1 else t.later_user_turns;
      trimmed = t.trimmed ++ (if strip then without_echo message else message) ∷ [];
      seen = if holds_echo message then t.seen + 1 else t.seen;
      stripped = if strip then t.stripped + 1 else t.stripped;
    }

unfoldable pub trim_loop : ℕ → List Message → Trimming → Trimming
trim_loop keep_turns [] t = t
trim_loop keep_turns (message ∷ messages) t =
    trim_loop keep_turns messages (trim_step keep_turns message t)

abbrev pub untrimmed : Trimming
untrimmed = record { later_user_turns = 0; trimmed = []; seen = 0; stripped = 0 }

-- The messages and the counters that are returned; a count below 0 is read as 0 by the code.
unfoldable pub trim_assistant_echoes : ℕ → List Message → Trimming
unfolding trim_loop
trim_assistant_echoes keep_turns messages =
    let t = trim_loop keep_turns (reverse messages) untrimmed in
    record t { trimmed = reverse t.trimmed }

-- How many user turns the messages hold.
pub user_turns : List Message → ℕ
user_turns [] = 0
user_turns (m ∷ ms) = if has_role "user" m then user_turns ms + 1 else user_turns ms

-- What trimming has to do, message by message from the front: an echo goes exactly when more user
-- turns follow than are kept.
pub trimmed : ℕ → List Message → List Message
unfolding user_turns
trimmed keep_turns [] = []
trimmed keep_turns (m ∷ ms) =
    (if holds_echo m && ltb keep_turns (user_turns ms) then without_echo m else m)
    ∷ trimmed keep_turns ms

pub echoes : List Message → ℕ
echoes [] = 0
echoes (m ∷ ms) = if holds_echo m then echoes ms + 1 else echoes ms

trim_loop-snoc :
    (k : ℕ) (ms : List Message) (m : Message) (t : Trimming)
    → trim_loop k (ms ++ m ∷ []) t ≡ trim_step k m (trim_loop k ms t)
unfolding trim_loop
trim_loop-snoc k [] m t = refl
trim_loop-snoc k (n ∷ ms) m t = trim_loop-snoc k ms m (trim_step k n t)

step_trimmed :
    (k n : ℕ) (m : Message) (t : Trimming) (r : List Message)
    → t.later_user_turns ≡ n
    → t.trimmed ≡ reverse r
    → (trim_step k m t).trimmed
      ≡ reverse ((if holds_echo m && ltb k n then without_echo m else m) ∷ r)
unfolding trim_step
step_trimmed k n m t r turns front =
    rw (turns, front) (sym (reverse-cons (if holds_echo m && ltb k n then without_echo m else m) r))

step_turns :
    (k n : ℕ) (m : Message) (t : Trimming)
    → t.later_user_turns ≡ n
    → (trim_step k m t).later_user_turns ≡ (if has_role "user" m then n + 1 else n)
unfolding trim_step
step_turns k n m t turns = rw turns

step_seen :
    (k n : ℕ) (m : Message) (t : Trimming)
    → t.seen ≡ n
    → (trim_step k m t).seen ≡ (if holds_echo m then n + 1 else n)
unfolding trim_step
step_seen k n m t seen = rw seen

trim_loop-reverse :
    (k : ℕ) (ms : List Message)
    → ((trim_loop k (reverse ms) untrimmed).later_user_turns ≡ user_turns ms)
      × ((trim_loop k (reverse ms) untrimmed).trimmed ≡ reverse (trimmed k ms))
      × ((trim_loop k (reverse ms) untrimmed).seen ≡ echoes ms)
unfolding user_turns trimmed echoes trim_loop
trim_loop-reverse k [] = (refl, refl, refl)
trim_loop-reverse k (m ∷ ms) =
    let (turns, front, seen) = trim_loop-reverse k ms in
    let t = trim_loop k (reverse ms) untrimmed in
    rw (reverse-append (m ∷ []) ms, trim_loop-snoc k (reverse ms) m untrimmed)
      (
        step_turns k (user_turns ms) m t turns,
        step_trimmed k (user_turns ms) m t (trimmed k ms) turns front,
        step_seen k (echoes ms) m t seen,
      )

-- Every message comes back in its place. One that is an assistant's with an echo block, and that
-- more than `keep_turns` user turns follow, comes back with the block cut out of its content; every
-- other comes back unchanged. The echoes are counted.
pub trim_assistant_echoes-trimmed :
    (keep_turns : ℕ) (messages : List Message)
    → ((trim_assistant_echoes keep_turns messages).trimmed ≡ trimmed keep_turns messages)
      × ((trim_assistant_echoes keep_turns messages).seen ≡ echoes messages)
unfolding trim_assistant_echoes
trim_assistant_echoes-trimmed k ms =
    let (_, front, seen) = trim_loop-reverse k ms in
    (ap reverse front ∙ reverse-reverse (trimmed k ms), seen)
