-- ===== src/Registry/Names.antt =====
-- The names that tool_registry.py, tool_schemas.py and room_tools.py give their tools.
use shenyugateway.Common.{List, [], ◌∷◌}
use shenyugateway.Text.{Text, codes}

-- `_gateway_core_tools`
abbrev pub core_names : List Text
core_names =
    codes "shenyu_recall"
    ∷ codes "shenyu_recall_read"
    ∷ codes "shenyu_create_star"
    ∷ codes "shenyu_search_stars"
    ∷ codes "shenyu_list_stars"
    ∷ codes "shenyu_star_review"
    ∷ codes "shenyu_star_feedback"
    ∷ codes "shenyu_connect_constellation"
    ∷ codes "shenyu_mark_constant"
    ∷ codes "shenyu_archive_star"
    ∷ codes "shenyu_merge_stars"
    ∷ codes "shenyu_supabase_guide"
    ∷ codes "shenyu_search_mem_notes"
    ∷ codes "shenyu_add_calendar"
    ∷ codes "shenyu_windowsill_write"
    ∷ codes "shenyu_windowsill_list"
    ∷ codes "shenyu_album_save"
    ∷ codes "shenyu_album_list"
    ∷ codes "shenyu_album_open"
    ∷ codes "shenyu_album_send"
    ∷ codes "shenyu_orchard"
    ∷ codes "shenyu_list_mem_notes"
    ∷ codes "shenyu_write_mem_note"
    ∷ codes "shenyu_read_heartbeat"
    ∷ codes "shenyu_last_seen"
    ∷ codes "shenyu_web_search"
    ∷ codes "shenyu_web_read"
    ∷ codes "shenyu_books"
    ∷ []

-- `_gateway_mem0_management_tools`
abbrev pub mem0_management_names : List Text
mem0_management_names =
    codes "shenyu_update_mem_note"
    ∷ codes "shenyu_bulk_update_mem_notes"
    ∷ codes "shenyu_delete_mem_note"
    ∷ []

-- `_gateway_supabase_tools`
abbrev pub supabase_names : List Text
supabase_names =
    codes "supabase_query"
    ∷ codes "supabase_insert"
    ∷ codes "supabase_update"
    ∷ codes "supabase_delete"
    ∷ []

-- `_gateway_notebook_and_recall_tools`
abbrev pub notebook_and_recall_names : List Text
notebook_and_recall_names =
    codes "shenyu_recall_main_thread"
    ∷ codes "shenyu_newspaper_basket"
    ∷ codes "shenyu_notebook_list"
    ∷ codes "shenyu_notebook_write"
    ∷ codes "shenyu_notebook_update"
    ∷ []

-- `DAILY_GATEWAY_TOOL_NAMES`
abbrev pub daily_gateway_tool_names : List Text
daily_gateway_tool_names =
    codes "shenyu_recall"
    ∷ codes "shenyu_recall_read"
    ∷ codes "shenyu_create_star"
    ∷ codes "shenyu_search_stars"
    ∷ codes "shenyu_star_review"
    ∷ codes "shenyu_star_feedback"
    ∷ codes "shenyu_connect_constellation"
    ∷ codes "shenyu_merge_stars"
    ∷ codes "shenyu_add_calendar"
    ∷ codes "shenyu_windowsill_write"
    ∷ codes "shenyu_windowsill_list"
    ∷ codes "shenyu_album_save"
    ∷ codes "shenyu_album_list"
    ∷ codes "shenyu_album_open"
    ∷ codes "shenyu_album_send"
    ∷ codes "shenyu_orchard"
    ∷ codes "shenyu_read_heartbeat"
    ∷ codes "shenyu_write_mem_note"
    ∷ codes "shenyu_search_mem_notes"
    ∷ codes "shenyu_notebook_write"
    ∷ codes "shenyu_notebook_list"
    ∷ codes "shenyu_newspaper_basket"
    ∷ codes "shenyu_books"
    ∷ codes "shenyu_web_search"
    ∷ codes "shenyu_web_read"
    ∷ []

-- `DAILY_CLIENT_TOOL_EXACT`
abbrev pub daily_client_tool_exact : List Text
daily_client_tool_exact =
    codes "gateway"
    ∷ codes "read_file"
    ∷ codes "visit_web"
    ∷ codes "package_proxy"
    ∷ codes "use_package"
    ∷ codes "room"
    ∷ codes "shenyu_room"
    ∷ codes "selection"
    ∷ codes "coread_selection"
    ∷ codes "coread_annotate"
    ∷ []

-- `HIDDEN_COMPAT_TOOL_NAMES`
abbrev pub hidden_compat_tool_names : List Text
hidden_compat_tool_names =
    codes "shenyu_conflict_list"
    ∷ codes "shenyu_conflict_read"
    ∷ codes "shenyu_conflict_annotate"
    ∷ []

-- The keys of `DEPRECATED_COMPAT_TOOL_MESSAGES`.
abbrev pub deprecated_compat_tool_names : List Text
deprecated_compat_tool_names =
    codes "shenyu_ask_memory"
    ∷ codes "shenyu_surface_passages"
    ∷ codes "shenyu_get_meta_summaries"
    ∷ codes "shenyu_search_primary_texts"
    ∷ []

-- `ROOM_TOOL_NAMES`
abbrev pub room_tool_names : List Text
room_tool_names =
    codes "shenyu_books"
    ∷ codes "room_drawer_notes"
    ∷ codes "room_wooden_box"
    ∷ codes "room_star_map"
    ∷ codes "room_notebook"
    ∷ codes "room_scribble"
    ∷ codes "room_wall_pins"
    ∷ codes "room_sit_by_window"
    ∷ codes "room_newspaper_basket"
    ∷ codes "room_octopus_pillow"
    ∷ codes "room_locked_drawer"
    ∷ []

-- The keys of `_TOOL_HANDLERS`: the names of the `_tool_handler` decorators.
abbrev pub handler_names : List Text
handler_names =
    codes "shenyu_recall"
    ∷ codes "shenyu_recall_read"
    ∷ codes "shenyu_create_star"
    ∷ codes "shenyu_list_stars"
    ∷ codes "shenyu_search_stars"
    ∷ codes "shenyu_star_review"
    ∷ codes "shenyu_star_feedback"
    ∷ codes "shenyu_connect_constellation"
    ∷ codes "shenyu_mark_constant"
    ∷ codes "shenyu_archive_star"
    ∷ codes "shenyu_merge_stars"
    ∷ codes "shenyu_add_calendar"
    ∷ codes "shenyu_supabase_guide"
    ∷ codes "shenyu_search_mem_notes"
    ∷ codes "shenyu_list_mem_notes"
    ∷ codes "shenyu_write_mem_note"
    ∷ codes "shenyu_read_heartbeat"
    ∷ codes "shenyu_conflict_list"
    ∷ codes "shenyu_conflict_read"
    ∷ codes "shenyu_conflict_annotate"
    ∷ codes "shenyu_books"
    ∷ codes "shenyu_orchard"
    ∷ codes "shenyu_update_mem_note"
    ∷ codes "shenyu_bulk_update_mem_notes"
    ∷ codes "shenyu_delete_mem_note"
    ∷ codes "shenyu_last_seen"
    ∷ codes "supabase_query"
    ∷ codes "supabase_insert"
    ∷ codes "supabase_update"
    ∷ codes "supabase_delete"
    ∷ codes "shenyu_recall_main_thread"
    ∷ codes "shenyu_newspaper_basket"
    ∷ codes "shenyu_notebook_list"
    ∷ codes "shenyu_windowsill_write"
    ∷ codes "shenyu_windowsill_list"
    ∷ codes "shenyu_album_save"
    ∷ codes "shenyu_album_list"
    ∷ codes "shenyu_album_open"
    ∷ codes "shenyu_album_send"
    ∷ codes "shenyu_notebook_write"
    ∷ codes "shenyu_web_search"
    ∷ codes "shenyu_web_read"
    ∷ codes "shenyu_notebook_update"
    ∷ []
