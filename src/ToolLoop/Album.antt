-- ===== src/ToolLoop/Album.antt =====
-- `finish_album_action` of album_media.py: a photo is shared before its tool reports success.
use shenyugateway.Common.{
  Bool, not, ◌||◌, Option, none, some, List, [], ◌∷◌, ◌++◌, if◌then◌else◌, any,
}
use shenyugateway.Text.{Text, codes, text_eq, is_empty}
use shenyugateway.Json.{Fields, get, to_str}
use shenyugateway.ToolLoop.Errors.{ToolResult, failure_result}
use shenyugateway.ToolLoop.State.{Shared, shared, refused, not_saved, Context, Run}

module _ {W : Type 0} (ctx : Context W) where
  -- The ids of media are texts.
  unfoldable pub is_same_media : Fields → Fields → Bool
  is_same_media media item =
      text_eq (to_str ctx.std (get "id" item)) (to_str ctx.std (get "id" media))

  unfoldable pub add_media : Fields → List Fields → List Fields
  unfolding is_same_media any
  add_media media all_media =
      if any (is_same_media media) all_media then all_media else all_media ++ media ∷ []

  unfoldable pub cannot_receive : ToolResult
  cannot_receive = failure_result (codes "当前客户端还不能接收相册图片消息，请用新版 PWA。") (codes "validation")

  unfoldable pub after_share : ToolResult → Shared → Run W → ToolResult × Run W
  unfolding add_media
  after_share result (shared media) run = (
    record result { shared_media = some media },
    record run { album_shared_media = add_media media run.album_shared_media },
  )
  after_share result (refused text) run = (failure_result text (codes "validation"), run)
  after_share result not_saved run =
      (failure_result (codes "这次没能把照片放进回复，请再试一次。") (codes "exception"), run)

  -- The photo is shared in the event of the reply.
  unfoldable pub share : Text → ToolResult → Text → Run W → ToolResult × Run W
  unfolding after_share
  share event result call_id run =
      let (outcome, world) = ctx.record_album_share event call_id result.send_photo_id run.world in
      after_share result outcome (record run { world = world })

  unfoldable pub share_in : Option Text → ToolResult → Text → Run W → ToolResult × Run W
  unfolding share cannot_receive
  share_in none result call_id run = (cannot_receive, run)
  share_in (some event) result call_id run =
      if not ctx.emit_album_photos || is_empty call_id
      then (cannot_receive, run)
      else share event result call_id run

  unfoldable pub finish_album_action : ToolResult → Text → Run W → ToolResult × Run W
  unfolding share_in
  finish_album_action result call_id run =
      if is_empty result.send_photo_id
      then (result, run)
      else share_in ctx.reply_event_id result call_id run
